-- ===== src/Net/Host/Replies.antt =====
-- What a host answers to the frames that it is sent.
use mkgo.Common.{
  ℕ, ◌+◌, ◌-◌, ◌<◌, ◌≡◌, refl, sym, ◌∙◌, arith, Bool, true, false, not, ◌&&◌, List, [], ◌∷◌, ◌++◌,
  length, some,
}
use mkgo.Common.Bytes.{make_bytes, make_bytes_add, copy-make_bytes}
use mkgo.Net.Base.{ok, Mac, Ip4, mac_eq, ip4_eq, zero_ip4, broadcast_mac, be16_back}
use mkgo.Net.Eth.{build_eth, eth_type_arp, eth_type_ipv4}
use mkgo.Net.Eth.RoundTrip.{parse_eth-build_eth}
use mkgo.Net.Arp.{ArpPacket, parse_arp, build_arp, arp_lookup, arp_update}
use mkgo.Net.Ip.{
  Ip4Packet, parse_ip4, build_ip4, IcmpPacket, parse_icmp, build_icmp, build_echo_reply,
}
use mkgo.Net.Ip.RoundTrip.{
  IsIp4Packet, IsIcmp, sent_ttl, parse_icmp-build_icmp, parse_ip4-build_ip4,
  parse_icmp-build_echo_reply,
}
use mkgo.Net.Host.{
  Host, Flow, running, resolve, broadcast_ip, count, send_frame, next_hop, on_link, transmit,
  resolve, send_ipv4_from, send_ipv4, answer_arp, handle_arp, answer_icmp, handle_icmp,
  deliver_ipv4, handle_ipv4, deliver_frame, handle_frame,
}

-- A frame for another host changes nothing: no counter, no cache, no connection, no answer.
pub handle_frame-other :
    (pump : Host → Flow) (dst src : Mac) (ethertype : ℕ) (payload : List ℕ) (s : Host)
    → ethertype < 65536
    → mac_eq dst s.mac ≡ false
    → mac_eq dst broadcast_mac ≡ false
    → handle_frame pump (build_eth dst src ethertype payload) s ≡ running s
unfolding handle_frame
handle_frame-other pump dst src ethertype payload s h own all =
    rw (parse_eth-build_eth dst src ethertype payload h) (rw (own, all) refl)

mac_eq_refl : (m : Mac) → mac_eq m m ≡ true
mac_eq_refl m = ground arith

ip4_eq_refl : (a : Ip4) → ip4_eq a a ≡ true
ip4_eq_refl a = ground arith

and_false : (b : Bool) → (b && false) ≡ false
and_false true = refl
and_false false = refl

-- The reply to an ARP request, and the host that has sent it.
abbrev pub arp_answer : Host → ArpPacket → List ℕ
arp_answer s req = build_eth req.src_mac s.mac eth_type_arp (
    build_arp (record {
      oper = 2;
      src_mac = s.mac;
      src_ip = s.ip;
      dst_mac = req.src_mac;
      dst_ip = req.src_ip;
    }))

length-build_arp : (a : ArpPacket) → length (build_arp a) ≡ 28
unfolding build_arp
length-build_arp a = refl

parse_arp-padded : (a : ArpPacket) → a.oper ≡ 1 → parse_arp (build_arp a ++ make_bytes 18) ≡ ok a
unfolding parse_arp build_arp
parse_arp-padded a h = rw (be16_back a.oper (omega arith)) refl

-- A broadcast ARP request for the host's address, from a sender whose address is not zero, makes
-- it send one frame, the reply to the sender's hardware address, and remember the sender.
pub handle_frame-arp_request :
    (pump : Host → Flow) (req : ArpPacket) (s : Host)
    → req.oper ≡ 1
    → req.dst_ip ≡ s.ip
    → ip4_eq req.src_ip zero_ip4 ≡ false
    → handle_frame pump (build_eth broadcast_mac req.src_mac eth_type_arp (build_arp req)) s
      ≡ running (record s {
        rx_eth = count s.rx_eth;
        rx_arp = count s.rx_arp;
        arp = arp_update req.src_ip req.src_mac s.arp;
        wire = s.wire ++ arp_answer s req ∷ [];
      })
unfolding handle_frame deliver_frame handle_arp answer_arp send_frame
handle_frame-arp_request pump req s h own sender =
    rw (parse_eth-build_eth broadcast_mac req.src_mac eth_type_arp (build_arp req) (omega arith)) (
      rw (length-build_arp req) (
        rw (parse_arp-padded req h) (
          rw (h, own, sender)
            (rw (ip4_eq_refl s.ip, and_false (not (mac_eq broadcast_mac s.mac))) refl))))

-- The datagram with an echo request for `s`.
abbrev pub echo_packet : Host → Ip4 → ℕ → IcmpPacket → Ip4Packet
echo_packet s src ttl req = record {
  src = src;
  dst = s.ip;
  proto = 1;
  ttl = ttl;
  payload = build_icmp req;
}

abbrev pub counted : Host → Host
counted s = record s {
  rx_eth = count s.rx_eth;
  rx_ipv4 = count s.rx_ipv4;
  rx_icmp = count s.rx_icmp;
}

same_ok : (out dg : List ℕ) → ok out ≡ ok dg → out ≡ dg
same_ok out dg e = cc

parse_ip4-built :
    (p : Ip4Packet) (dg pad : List ℕ)
    → IsIp4Packet p
    → build_ip4 p ≡ ok dg
    → parse_ip4 (dg ++ pad) ≡ ok (record p { ttl = sent_ttl p.ttl })
parse_ip4-built p dg pad h e =
    let (out, built, back) = parse_ip4-build_ip4 p h in
    rw (← same_ok out dg (sym built ∙ e)) (back pad)

pub handle_frame-echo :
    (pump : Host → Flow) (src : Ip4) (src_mac : Mac) (ttl : ℕ) (req : IcmpPacket) (dg : List ℕ)
    (s : Host)
    → IsIp4Packet (echo_packet s src ttl req)
    → IsIcmp req
    → req.type ≡ 8
    → build_ip4 (echo_packet s src ttl req) ≡ ok dg
    → handle_frame pump (build_eth s.mac src_mac eth_type_ipv4 dg) s
      ≡ send_ipv4 pump src 1 (build_echo_reply req) (counted s)
unfolding handle_frame deliver_frame handle_ipv4 deliver_ipv4 handle_icmp answer_icmp
handle_frame-echo pump src src_mac ttl req dg s hp hr t e =
    rw (parse_eth-build_eth s.mac src_mac eth_type_ipv4 dg (omega arith)) (
      rw (parse_ip4-built (echo_packet s src ttl req) dg (make_bytes (46 - length dg)) hp e)
        (rw (mac_eq_refl s.mac, ip4_eq_refl s.ip) (rw (parse_icmp-build_icmp req hr) (rw t refl))))

length-build_icmp : (c : IcmpPacket) → length (build_icmp c) ≡ 8 + length c.payload
unfolding build_icmp
length-build_icmp c =
    rw (make_bytes_add 8 (length c.payload)) (rw (copy-make_bytes c.payload) (omega arith))

length-build_echo_reply :
    (req : IcmpPacket) → length (build_echo_reply req) ≡ 8 + length req.payload
unfolding build_echo_reply
length-build_echo_reply req = length-build_icmp (record req { type = 0; code = 0 })

-- The datagram that carries the answer.
abbrev pub answer_packet : Host → Ip4 → IcmpPacket → Ip4Packet
answer_packet s src req = record {
  src = s.ip;
  dst = src;
  proto = 1;
  ttl = 0;
  payload = build_echo_reply req;
}

answer-IsIp4Packet :
    (src : Ip4) (ttl : ℕ) (req : IcmpPacket) (s : Host)
    → IsIp4Packet (echo_packet s src ttl req)
    → IsIp4Packet (answer_packet s src req)
answer-IsIp4Packet src ttl req s h = record {
  src_bytes = h.dst_bytes;
  dst_bytes = h.src_bytes;
  proto_byte = omega arith;
  ttl_byte = omega arith;
  fits = omega (arith, h.fits, length-build_icmp req, length-build_echo_reply req);
}

resolve-known :
    (pump : Host → Flow) (hop : Ip4) (mac : Mac) (next : Mac → Host → Flow) (s : Host)
    → arp_lookup hop s.arp ≡ some mac
    → resolve pump 2000 hop next s ≡ next mac s
unfolding resolve
resolve-known pump hop mac next s h = rw (h, resolve) refl

-- An echo request for the host, in a datagram with fields of machine size that fits the MTU, from
-- a sender that is not the broadcast address and whose next hop is in the ARP cache, makes the
-- host send exactly one frame: to the hardware address of that hop, with a datagram that parses,
-- whatever padding follows, as an ICMP packet from the host to the sender, whose message parses as
-- the echo reply with the identifier, the number and the data of the request. But for the counters
-- nothing else changes.
pub handle_frame-echo_request :
    (pump : Host → Flow) (src : Ip4) (src_mac hop_mac : Mac) (hop : Ip4) (ttl : ℕ)
    (req : IcmpPacket) (dg : List ℕ) (s : Host)
    → IsIp4Packet (echo_packet s src ttl req)
    → IsIcmp req
    → req.type ≡ 8
    → build_ip4 (echo_packet s src ttl req) ≡ ok dg
    → ip4_eq src broadcast_ip ≡ false
    → next_hop s src ≡ some hop
    → arp_lookup hop s.arp ≡ some hop_mac
    → (out : List ℕ) × (handle_frame pump (build_eth s.mac src_mac eth_type_ipv4 dg) s
        ≡ running (record s {
          rx_eth = count s.rx_eth;
          rx_ipv4 = count s.rx_ipv4;
          rx_icmp = count s.rx_icmp;
          wire = s.wire ++ build_eth hop_mac s.mac eth_type_ipv4 out ∷ [];
        }))
      × ((pad : List ℕ)
          → parse_ip4 (out ++ pad) ≡ ok (record (answer_packet s src req) { ttl = 64 }))
      × (parse_icmp (build_echo_reply req) ≡ ok (record req { type = 0; code = 0 }))
unfolding send_ipv4 send_ipv4_from resolve transmit send_frame next_hop on_link
handle_frame-echo_request pump src src_mac hop_mac hop ttl req dg s hp hr t e far route known =
    let (out, built, back) =
      parse_ip4-build_ip4 (answer_packet s src req) (answer-IsIp4Packet src ttl req s hp) in
    (
      out,
      rw (handle_frame-echo pump src src_mac ttl req dg s hp hr t e) (
          rw (far, route)
            (resolve-known pump hop hop_mac (transmit s.ip src 1 (build_echo_reply req)) (counted s)
                known
              ∙ rw built refl)),
      back,
      parse_icmp-build_echo_reply req hr,
    )
