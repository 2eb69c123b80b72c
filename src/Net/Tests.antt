-- ===== src/Net/Tests.antt =====
-- The theorems on frames, datagrams and ports at concrete values.
use mkgo.Net.Dhcp.{build_request, parse_dhcp, parse_options, message, refused, no_end}
use mkgo.Net.Dhcp.RoundTrip.{request_message, parse_dhcp-build_request}
use mkgo.Net.Ring.{load32}
use mkgo.Net.Ring.Refines.{
  produce, consume, ring_run, queue_run, ring_run-eq-queue_run, empty-Holds, sent, received,
}
use mkgo.Common.{ℕ, ◌≡◌, ◌∙◌, sym, true, false, refl, arith, List, [], ◌∷◌, ◌++◌, none, some}
use mkgo.Net.Base.{mac_bytes, Ip4, Mac, IsIp4, ok, zero_ip4}
use mkgo.Net.Eth.{build_eth, parse_eth}
use mkgo.Net.Arp.{arp_update, parse_arp, build_arp, ArpPacket, arp_lookup}
use mkgo.Net.Checksum.{checksum, fold_sum, fold_loop, sum_words}
use mkgo.Net.Checksum.Laws.{checksum_verifies}
use mkgo.Net.Ip.{
  Ip4Packet, parse_ip4, build_ip4, IcmpPacket, parse_icmp, build_icmp, build_echo_reply,
}
use mkgo.Net.Ip.RoundTrip.{IsIp4Packet, IsIcmp, parse_ip4-build_ip4}
use mkgo.Net.Host.{
  resolve_loop, serve, deliver_frame, handle_arp, answer_arp, Host, running, blocked, next_hop,
  on_link, arp_request, handle_frame, pump, resolve, send_frame,
}
use mkgo.Net.Host.Pump.{pump_deadlocks}
use mkgo.Net.Host.Replies.{echo_packet, answer_packet, handle_frame-echo_request}
use mkgo.Net.Tcp.Stack.{new_tcp_stack}
use mkgo.Net.Udp.{UdpDatagram, new_udp_demux, bind, bind_port, build_udp, handle}
use mkgo.Net.Udp.RoundTrip.{IsUdp, parse_udp-build_udp}
use mkgo.Net.Udp.Demux.{run, step, bind_op, demux_isolated}

abbrev mac_a : Mac
mac_a = record { m0 = 2; m1 = 0; m2 = 0; m3 = 0; m4 = 0; m5 = 1 }

abbrev mac_b : Mac
mac_b = record { m0 = 2; m1 = 0; m2 = 0; m3 = 0; m4 = 0; m5 = 2 }

abbrev host_a : Ip4
host_a = record { a0 = 10; a1 = 0; a2 = 2; a3 = 15 }

abbrev host_b : Ip4
host_b = record { a0 = 10; a1 = 0; a2 = 2; a3 = 2 }

host_a-IsIp4 : IsIp4 host_a
host_a-IsIp4 = record { b0 = omega arith; b1 = omega arith; b2 = omega arith; b3 = omega arith }

host_b-IsIp4 : IsIp4 host_b
host_b-IsIp4 = record { b0 = omega arith; b1 = omega arith; b2 = omega arith; b3 = omega arith }

abbrev who_has : ArpPacket
who_has = record { oper = 1; src_mac = mac_a; src_ip = host_a; dst_mac = mac_b; dst_ip = host_b }

checksum_verifies_example : checksum (69 ∷ 0 ∷ 186 ∷ 255 ∷ []) ≡ 0
unfolding checksum fold_sum sum_words fold_loop
checksum_verifies_example =
    checksum_verifies (69 ∷ 0 ∷ 0 ∷ 0 ∷ []) (69 ∷ 0 ∷ 186 ∷ 255 ∷ []) (omega arith) refl

abbrev echo : IcmpPacket
echo = record { type = 8; code = 0; id = 7; seq = 1; payload = 97 ∷ 98 ∷ [] }

echo-IsIcmp : IsIcmp echo
echo-IsIcmp = record {
  type_byte = omega arith;
  code_byte = omega arith;
  id_word = omega arith;
  seq_word = omega arith;
  data_bytes = (omega arith, (omega arith, tt));
  data_fits = omega arith;
}

abbrev datagram : Ip4Packet
datagram = record { src = host_a; dst = host_b; proto = 17; ttl = 0; payload = 1 ∷ 2 ∷ 3 ∷ [] }

datagram-IsIp4Packet : IsIp4Packet datagram
datagram-IsIp4Packet = record {
  src_bytes = host_a-IsIp4;
  dst_bytes = host_b-IsIp4;
  proto_byte = omega arith;
  ttl_byte = omega arith;
  fits = omega arith;
}

parse_ip4-build_ip4_example :
    (out : List ℕ) × (build_ip4 datagram ≡ ok out)
    × ((pad : List ℕ) → parse_ip4 (out ++ pad) ≡ ok (record datagram { ttl = 64 }))
parse_ip4-build_ip4_example = parse_ip4-build_ip4 datagram datagram-IsIp4Packet

abbrev query : UdpDatagram
query = record {
  src_port = 49152;
  dst_port = 53;
  payload = 1 ∷ 2 ∷ 3 ∷ [];
  checksum_src = host_a;
  checksum_dst = host_b;
}

query-IsUdp : IsUdp query
query-IsUdp = record { src_word = omega arith; dst_word = omega arith; fits = omega arith }

bound_68 : (run (bind_op 53 ∷ bind_op 68 ∷ []) new_udp_demux).ports 68 ≡ some 1
unfolding run step bind bind_port
bound_68 = refl

demux_isolated_example :
    let d = run (bind_op 53 ∷ bind_op 68 ∷ []) new_udp_demux in
    (handle (build_udp query ++ []) d).queues 1 ≡ d.queues 1
demux_isolated_example =
    demux_isolated (bind_op 53 ∷ bind_op 68 ∷ []) (build_udp query ++ [])
      (record query { checksum_src = zero_ip4; checksum_dst = zero_ip4 }) 68 1
      (parse_udp-build_udp query [] query-IsUdp) bound_68

-- A host that knows its peer, and one that does not.
abbrev host : Host
host = record {
  mac = mac_a;
  ip = host_a;
  netmask = zero_ip4;
  gateway = zero_ip4;
  arp = (host_b, mac_b) ∷ [];
  icmp_in = [];
  udp = new_udp_demux;
  tcp = new_tcp_stack;
  rx_eth = 0;
  rx_arp = 0;
  rx_ipv4 = 0;
  rx_icmp = 0;
  wire = [];
  inbox = [];
  hmu = false;
}

abbrev alone : Host
alone = record host { arp = [] }

abbrev asked : Ip4Packet
asked = echo_packet host host_b 64 echo

abbrev asked_bytes : List ℕ
asked_bytes =
    69 ∷ 0 ∷ 0 ∷ 30 ∷ 0 ∷ 0 ∷ 64 ∷ 0 ∷ 64 ∷ 1 ∷ 34 ∷ 207 ∷ 10 ∷ 0 ∷ 2 ∷ 2 ∷ 10 ∷ 0 ∷ 2 ∷ 15 ∷ 8 ∷ 0
    ∷ 150 ∷ 149 ∷ 0 ∷ 7 ∷ 0 ∷ 1 ∷ 97 ∷ 98 ∷ []

asked_built : build_ip4 asked ≡ ok asked_bytes
unfolding build_ip4 build_icmp checksum fold_sum sum_words fold_loop
asked_built = refl

asked-IsIp4Packet : IsIp4Packet asked
unfolding build_icmp
asked-IsIp4Packet = record {
  src_bytes = host_b-IsIp4;
  dst_bytes = host_a-IsIp4;
  proto_byte = omega arith;
  ttl_byte = omega arith;
  fits = omega arith;
}

hop_b : next_hop host host_b ≡ some host_b
unfolding next_hop on_link
hop_b = refl

known_b : arp_lookup host_b host.arp ≡ some mac_b
unfolding arp_lookup
known_b = refl

unknown_b : arp_lookup host_b alone.arp ≡ none
unfolding arp_lookup
unknown_b = refl

abbrev asks_a : ArpPacket
asks_a = record { oper = 1; src_mac = mac_b; src_ip = host_b; dst_mac = mac_a; dst_ip = host_a }

handle_frame-echo_request_example :
    (out : List ℕ) × (handle_frame (pump 1) (build_eth mac_a mac_b 2048 asked_bytes) host
      ≡ running (record host {
        rx_eth = 1;
        rx_ipv4 = 1;
        rx_icmp = 1;
        wire = build_eth mac_b mac_a 2048 out ∷ [];
      }))
    × ((pad : List ℕ)
        → parse_ip4 (out ++ pad) ≡ ok (record (answer_packet host host_b echo) { ttl = 64 }))
    × (parse_icmp (build_echo_reply echo) ≡ ok (record echo { type = 0; code = 0 }))
handle_frame-echo_request_example =
    handle_frame-echo_request (pump 1) host_b mac_b mac_b host_b 64 echo asked_bytes host
      asked-IsIp4Packet echo-IsIcmp refl asked_built refl hop_b known_b

-- The echo request, and behind it the ARP reply that the handler would need.
abbrev answer_b : ArpPacket
answer_b = record { oper = 2; src_mac = mac_b; src_ip = host_b; dst_mac = mac_a; dst_ip = host_a }

abbrev waiting : List (List ℕ)
waiting = build_eth mac_a mac_b 2054 (build_arp answer_b) ∷ []

abbrev inbound : Host
inbound = record alone { inbox = build_eth mac_a mac_b 2048 asked_bytes ∷ waiting }

hop_b_inbound : next_hop inbound host_b ≡ some host_b
unfolding next_hop on_link
hop_b_inbound = refl

pump_deadlocks_example :
    pump 2 inbound
    ≡ blocked (record inbound {
      hmu = true;
      inbox = waiting;
      rx_eth = 1;
      rx_ipv4 = 1;
      rx_icmp = 1;
      wire = arp_request alone host_b ∷ [];
    })
pump_deadlocks_example =
    pump_deadlocks 0 host_b mac_b host_b 64 echo asked_bytes waiting inbound refl refl
      asked-IsIp4Packet echo-IsIcmp refl asked_built refl hop_b_inbound unknown_b

-- Outside of a handler the same resolution pumps the reply out of the wire and goes on.
resolve_learns :
    resolve
      (pump 2)
      2
      host_b
      (λ mac s. running (send_frame (mac_bytes mac) s))
      (record alone { inbox = waiting })
    ≡ running (record alone {
      arp = (host_b, mac_b) ∷ [];
      rx_eth = 1;
      rx_arp = 1;
      wire = arp_request alone host_b ∷ mac_bytes mac_b ∷ [];
    })
unfolding resolve resolve_loop pump serve handle_frame deliver_frame handle_arp answer_arp
    send_frame parse_eth build_eth parse_arp build_arp arp_lookup arp_update
resolve_learns = refl

-- A window of zero bytes holds no frame.
zeros : ℕ → ℕ
zeros i = 0

no_index : (a : ℕ) → load32 a zeros ≡ 0
unfolding load32 zeros
no_index a = refl

ring_run-eq-queue_run_example :
    ring_run (produce (1 ∷ 2 ∷ []) ∷ produce [] ∷ consume ∷ consume ∷ []) zeros
    ≡ queue_run (produce (1 ∷ 2 ∷ []) ∷ produce [] ∷ consume ∷ consume ∷ []) []
ring_run-eq-queue_run_example =
    ring_run-eq-queue_run (produce (1 ∷ 2 ∷ []) ∷ produce [] ∷ consume ∷ consume ∷ []) [] zeros
      (empty-Holds zeros (omega (arith, no_index 0)) (no_index 4 ∙ sym (no_index 0)))

queue_order :
    queue_run (produce (1 ∷ 2 ∷ []) ∷ produce [] ∷ consume ∷ consume ∷ []) []
    ≡ sent true ∷ sent false ∷ received (some (1 ∷ 2 ∷ [])) ∷ received none ∷ []
unfolding queue_run
queue_order = refl

parse_dhcp-build_request_example :
    parse_dhcp (build_request mac_a 7 host_b host_b (b'h' ∷ []) (1 ∷ 3 ∷ []))
    ≡ message (request_message mac_a 7 host_b)
parse_dhcp-build_request_example =
    parse_dhcp-build_request mac_a 7 host_b host_b (b'h' ∷ []) (1 ∷ 3 ∷ []) (omega arith)

-- Options that end without an end option are refused.
unterminated :
    parse_options 4 (53 ∷ 1 ∷ 5 ∷ 0 ∷ []) (request_message mac_a 7 host_b) ≡ refused no_end
unfolding parse_options
unterminated = refl
