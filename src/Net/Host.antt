-- ===== src/Net/Host.antt =====
-- `Stack` of services/net/netstack.go: an inbound frame, through all layers, up to the frames that
-- it makes the host send.
pub mod Replies
pub mod Pump
pub mod Depth
use mkgo.Common.{
  ℕ, zero, suc, ◌+◌, ◌%◌, Bool, true, false, not, ◌&&◌, ◌||◌, List, [], ◌∷◌, ◌++◌, length, leb,
  ◌==◌, if◌then◌else◌, drop, bit_and, Option, none, some,
}
use mkgo.Net.Base.{Result, ok, err, Mac, Ip4, mac_eq, ip4_eq, zero_ip4, zero_mac, broadcast_mac}
use mkgo.Net.Eth.{EthFrame, parse_eth, build_eth, eth_type_arp, eth_type_ipv4}
use mkgo.Net.Arp.{
  ArpPacket, ArpCache, parse_arp, build_arp, arp_lookup, arp_update, arp_op_request, arp_op_reply,
}
use mkgo.Net.Ip.{
  Ip4Packet, parse_ip4, build_ip4, IcmpPacket, parse_icmp, build_echo_reply, icmp_echo_request,
  icmp_echo_reply, ip4_proto_icmp, ip4_proto_udp, ip4_proto_tcp,
}
use mkgo.Net.Udp
use mkgo.Net.Udp.{UdpDemux}
use mkgo.Net.Tcp.Segment.{TcpSegment, parse_tcp, build_tcp, sum_segment}
use mkgo.Net.Tcp.Conn.{TcpConn}
use mkgo.Net.Tcp.Stack
use mkgo.Net.Tcp.Stack.{TcpStack}

-- `Stack`. `wire` holds the frames that were handed to the sink, in order, `inbox` those that `Recv`
-- of the source has to give, and `hmu` says whether the mutex of that name is held.
pub record Host : Type 0 where
  pub mac : Mac
  pub ip : Ip4
  pub netmask : Ip4
  pub gateway : Ip4
  pub arp : ArpCache
  pub icmp_in : List IcmpPacket
  pub udp : UdpDemux
  pub tcp : TcpStack
  pub rx_eth : ℕ
  pub rx_arp : ℕ
  pub rx_ipv4 : ℕ
  pub rx_icmp : ℕ
  pub wire : List (List ℕ)
  pub inbox : List (List ℕ)
  pub hmu : Bool

-- What a call comes to: it returns, it waits for ever for a mutex that its own goroutine holds, or it
-- nests pumps deeper than was asked for, see `pump`.
pub data Flow : Type 0 where
  running : Host → Flow
  blocked : Host → Flow
  deeper : Flow

-- One call behind another.
abbrev pub and_then : Flow → (Host → Flow) → Flow
and_then (running s) f = f s
and_then (blocked s) f = blocked s
and_then deeper f = deeper

abbrev pub broadcast_ip : Ip4
broadcast_ip = record { a0 = 255; a1 = 255; a2 = 255; a3 = 255 }

abbrev pub icmp_in_cap : ℕ
icmp_in_cap = 64

-- A `uint64` counter.
abbrev pub count : ℕ → ℕ
count n = (n + 1) % 18446744073709551616

unfoldable pub send_frame : List ℕ → Host → Host
send_frame frame s = record s { wire = s.wire ++ frame ∷ [] }

-- One byte of the test of `onLink`.
abbrev pub same_net : ℕ → ℕ → ℕ → Bool
same_net mask x y = bit_and x mask == bit_and y mask

unfoldable pub on_link : Host → Ip4 → Bool
on_link s dst =
    if ip4_eq s.netmask zero_ip4
    then true
    else same_net s.netmask.a0 dst.a0 s.ip.a0
      && same_net s.netmask.a1 dst.a1 s.ip.a1
      && same_net s.netmask.a2 dst.a2 s.ip.a2
      && same_net s.netmask.a3 dst.a3 s.ip.a3

-- The address that `nextHopMAC` resolves; `none` is `ErrNoRoute`.
unfoldable pub next_hop : Host → Ip4 → Option Ip4
next_hop s dst =
    if on_link s dst then some dst else if ip4_eq s.gateway zero_ip4 then none else some s.gateway

-- The request that `Resolve` broadcasts.
abbrev pub arp_request : Host → Ip4 → List ℕ
arp_request s ip = build_eth broadcast_mac s.mac eth_type_arp (
    build_arp (record {
      oper = arp_op_request;
      src_mac = s.mac;
      src_ip = s.ip;
      dst_mac = zero_mac;
      dst_ip = ip;
    }))

abbrev pub resolve_budget : ℕ
resolve_budget = 2000

abbrev pub framed : Result (List ℕ) → Mac → Host → Flow
framed (err e) mac s = running s
framed (ok dg) mac s = running (send_frame (build_eth mac s.mac eth_type_ipv4 dg) s)

-- The end of `sendIPv4From`.
unfoldable pub transmit : Ip4 → Ip4 → ℕ → List ℕ → Mac → Host → Flow
transmit src dst proto payload mac s =
    framed (build_ip4 (record { src = src; dst = dst; proto = proto; ttl = 0; payload = payload }))
      mac s

-- The switch of `handleARP`.
unfoldable pub answer_arp : ArpPacket → Host → Host
answer_arp pkt s =
    if pkt.oper == arp_op_request
    then if ip4_eq pkt.dst_ip s.ip
      then send_frame
          (build_eth pkt.src_mac s.mac eth_type_arp (
            build_arp (record {
              oper = arp_op_reply;
              src_mac = s.mac;
              src_ip = s.ip;
              dst_mac = pkt.src_mac;
              dst_ip = pkt.src_ip;
            })))
          s
      else s
    else if pkt.oper == arp_op_reply
    then record s { arp = arp_update pkt.src_ip pkt.src_mac s.arp }
    else s

-- The cache after the merge of `handleARP`.
abbrev pub learned : ArpPacket → ArpCache → ArpCache
learned pkt c = if ip4_eq pkt.src_ip zero_ip4 then c else arp_update pkt.src_ip pkt.src_mac c

abbrev pub handle_arp_parsed : Result ArpPacket → Host → Host
handle_arp_parsed (err e) s = s
handle_arp_parsed (ok pkt) s =
    answer_arp pkt (record s { rx_arp = count s.rx_arp; arp = learned pkt s.arp })

-- `handleARP`.
unfoldable pub handle_arp : EthFrame → Host → Host
unfolding answer_arp
handle_arp f s = handle_arp_parsed (parse_arp f.payload) s

-- The buffer of echo replies drops its oldest entry at the cap.
unfoldable pub keep_reply : IcmpPacket → List IcmpPacket → List IcmpPacket
keep_reply msg l = (if leb icmp_in_cap (length l) then drop 1 l else l) ++ msg ∷ []

abbrev pub sent_by : Option TcpConn → List (Ip4 × TcpSegment)
sent_by none = []
sent_by (some c) = c.sent

abbrev pub dst_port_of : Result TcpSegment → ℕ
dst_port_of (err e) = 0
dst_port_of (ok seg) = seg.dst_port

-- The handlers call `pump` again, through `Resolve`.
module _ (pump : Host → Flow) where
  -- The loop of `Resolve` and, as `next`, what its caller does with the address. Its error is dropped
  -- by the handlers.
  unfoldable pub resolve_loop : ℕ → Ip4 → (Mac → Host → Flow) → Host → Flow
  resolve_loop zero hop next s = running s
  resolve_loop (suc budget) hop next s = elim (arp_lookup hop s.arp) [
    | some mac ↦ next mac s
    | none ↦ and_then (pump s) (resolve_loop budget hop next)
  ]

  -- `Resolve`.
  unfoldable pub resolve : ℕ → Ip4 → (Mac → Host → Flow) → Host → Flow
  unfolding resolve_loop
  resolve budget hop next s = elim (arp_lookup hop s.arp) [
    | some mac ↦ next mac s
    | none ↦ resolve_loop budget hop next (send_frame (arp_request s hop) s)
  ]

  abbrev pub routed : Option Ip4 → (Mac → Host → Flow) → Host → Flow
  routed none next s = running s
  routed (some hop) next s = resolve resolve_budget hop next s

  -- `sendIPv4From`, called by a handler, which drops its error.
  unfoldable pub send_ipv4_from : Ip4 → Ip4 → ℕ → List ℕ → Host → Flow
  unfolding resolve
  send_ipv4_from src dst proto payload s =
      if ip4_eq dst broadcast_ip
      then transmit src dst proto payload broadcast_mac s
      else routed (next_hop s dst) (transmit src dst proto payload) s

  unfoldable pub send_ipv4 : Ip4 → ℕ → List ℕ → Host → Flow
  unfolding send_ipv4_from
  send_ipv4 dst proto payload s = send_ipv4_from s.ip dst proto payload s

  unfoldable pub answer_icmp : IcmpPacket → Ip4 → Host → Flow
  answer_icmp msg src s =
      if msg.type == icmp_echo_request
      then send_ipv4 src ip4_proto_icmp (build_echo_reply msg) s
      else if msg.type == icmp_echo_reply
      then running (record s { icmp_in = keep_reply msg s.icmp_in })
      else running s

  abbrev pub handle_icmp_parsed : Result IcmpPacket → Ip4 → Host → Flow
  handle_icmp_parsed (err e) src s = running s
  handle_icmp_parsed (ok msg) src s = answer_icmp msg src (record s { rx_icmp = count s.rx_icmp })

  -- `handleICMP`.
  unfoldable pub handle_icmp : Ip4Packet → Host → Flow
  unfolding answer_icmp
  handle_icmp pkt s = handle_icmp_parsed (parse_icmp pkt.payload) pkt.src s

  -- `SendTCPSegment` for each of the segments; a blocked goroutine sends none of the rest.
  unfoldable pub send_segments : List (Ip4 × TcpSegment) → Host → Flow
  send_segments [] s = running s
  send_segments ((dst, seg) ∷ l) s =
      and_then (send_ipv4 dst ip4_proto_tcp (sum_segment s.ip dst (build_tcp seg)) s)
        (send_segments l)

  -- `TCPStack.handle` with the segments that it hands to `SendTCPSegment`.
  unfoldable pub handle_tcp : Ip4Packet → Host → Flow
  handle_tcp pkt s =
      let port = dst_port_of (parse_tcp pkt.payload) in
      let t = Stack.handle pkt s.tcp in
      let before = length (sent_by (s.tcp.conns port)) in
      send_segments (drop before (sent_by (t.conns port))) (record s { tcp = t })

  -- The switch of `handleIPv4`.
  unfoldable pub deliver_ipv4 : Ip4Packet → Host → Flow
  deliver_ipv4 pkt s =
      if pkt.proto == ip4_proto_icmp
      then handle_icmp pkt s
      else if pkt.proto == ip4_proto_udp
      then running (record s { udp = Udp.handle pkt.payload s.udp })
      else if pkt.proto == ip4_proto_tcp
      then handle_tcp pkt s
      else running s

  abbrev pub handle_ipv4_parsed : Result Ip4Packet → Host → Flow
  handle_ipv4_parsed (err e) s = running s
  handle_ipv4_parsed (ok pkt) s =
      if not (ip4_eq pkt.dst s.ip) && not (ip4_eq pkt.dst broadcast_ip)
      then running s
      else deliver_ipv4 pkt (record s { rx_ipv4 = count s.rx_ipv4 })

  -- `handleIPv4`.
  unfoldable pub handle_ipv4 : EthFrame → Host → Flow
  unfolding deliver_ipv4
  handle_ipv4 f s = handle_ipv4_parsed (parse_ip4 f.payload) s

  -- The switch of `handleFrame`.
  unfoldable pub deliver_frame : EthFrame → Host → Flow
  deliver_frame f s =
      if f.type == eth_type_arp
      then running (handle_arp f s)
      else if f.type == eth_type_ipv4
      then handle_ipv4 f s
      else running s

  abbrev pub handle_frame_parsed : Result EthFrame → Host → Flow
  handle_frame_parsed (err e) s = running s
  handle_frame_parsed (ok f) s =
      if not (mac_eq f.dst s.mac) && not (mac_eq f.dst broadcast_mac)
      then running s
      else deliver_frame f (record s { rx_eth = count s.rx_eth })

  -- `handleFrame`.
  unfoldable pub handle_frame : List ℕ → Host → Flow
  unfolding deliver_frame
  handle_frame raw s = handle_frame_parsed (parse_eth raw) s

-- The rest of `pump` once `hmu` is taken. Its result, whether there was a frame, is read by `Drain`
-- only and is left out.
unfoldable pub serve : (Host → Flow) → Host → Flow
unfolding handle_frame
serve pump s = elim s.inbox [
  | [] ↦ running (record s { hmu = false })
  | raw ∷ rest ↦
      and_then (handle_frame pump raw (record s { inbox = rest }))
        (λ s'. running (record s' { hmu = false }))
]

-- `pump`, with at most `depth` calls of it inside of one another. `hmu` is not reentrant: a goroutine
-- that locks it again waits for itself.
unfoldable pub pump : ℕ → Host → Flow
unfolding serve
pump zero s = deeper
pump (suc depth) s = if s.hmu then blocked s else serve (pump depth) (record s { hmu = true })
