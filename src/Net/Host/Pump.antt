-- ===== src/Net/Host/Pump.antt =====
-- `pump` of services/net/netstack.go: how deep its calls nest, and a goroutine that waits for itself.
use mkgo.Common.{ℕ, suc, ◌≡◌, refl, ap, ◌∙◌, true, false, List, [], ◌∷◌, ◌++◌, none, some}
use mkgo.Net.Base.{ok, Mac, Ip4, ip4_eq}
use mkgo.Net.Eth.{build_eth, eth_type_ipv4}
use mkgo.Net.Arp.{arp_lookup}
use mkgo.Net.Ip.{build_echo_reply, build_ip4, IcmpPacket}
use mkgo.Net.Ip.RoundTrip.{IsIp4Packet, IsIcmp}
use mkgo.Net.Host.{
  Host, Flow, running, blocked, and_then, broadcast_ip, count, send_frame, next_hop, on_link,
  arp_request, transmit, resolve_loop, resolve, routed, send_ipv4_from, send_ipv4, serve, pump,
}
use mkgo.Net.Host.Replies.{echo_packet, counted, handle_frame-echo}

-- A goroutine that holds `hmu` waits in `pump` for itself.
pump_locked : (depth : ℕ) (s : Host) → s.hmu ≡ true → pump (suc depth) s ≡ blocked s
unfolding pump
pump_locked depth s h = rw h refl

loop_waits :
    (pump : Host → Flow) (budget : ℕ) (hop : Ip4) (next : Mac → Host → Flow) (s : Host)
    → arp_lookup hop s.arp ≡ none
    → resolve_loop pump (suc budget) hop next s
      ≡ and_then (pump s) (resolve_loop pump budget hop next)
unfolding resolve_loop
loop_waits pump budget hop next s h = rw (h, resolve_loop) refl

resolve-uncached :
    (pump : Host → Flow) (hop : Ip4) (next : Mac → Host → Flow) (s : Host)
    → arp_lookup hop s.arp ≡ none
    → resolve pump 2000 hop next s
      ≡ resolve_loop pump 2000 hop next (send_frame (arp_request s hop) s)
unfolding resolve
resolve-uncached pump hop next s h = rw (h, resolve) refl

resolve_waits :
    (depth : ℕ) (hop : Ip4) (next : Mac → Host → Flow) (s : Host)
    → arp_lookup hop s.arp ≡ none
    → s.hmu ≡ true
    → routed (pump (suc depth)) (some hop) next s ≡ blocked (send_frame (arp_request s hop) s)
unfolding send_frame
resolve_waits depth hop next s h held =
    let asked = send_frame (arp_request s hop) s in
    resolve-uncached (pump (suc depth)) hop next s h
    ∙ loop_waits (pump (suc depth)) 1999 hop next asked h
    ∙ ap (λ (o : Flow). and_then o (resolve_loop (pump (suc depth)) 1999 hop next))
        (pump_locked depth asked held)

-- `pump` at an unlocked host whose next frame is an echo request for it, in a datagram with fields of
-- machine size that fits the MTU, from a sender that is not the broadcast address and whose next hop
-- is not in the ARP cache, never returns: the handler broadcasts one ARP request and calls `pump`
-- again, which waits for `hmu`, held by its own goroutine. The rest of the inbound frames, and a
-- reply among them, is not read.
pub pump_deadlocks :
    (depth : ℕ) (src : Ip4) (src_mac : Mac) (hop : Ip4) (ttl : ℕ) (req : IcmpPacket) (dg : List ℕ)
    (rest : List (List ℕ)) (s : Host)
    → s.hmu ≡ false
    → s.inbox ≡ build_eth s.mac src_mac eth_type_ipv4 dg ∷ rest
    → IsIp4Packet (echo_packet s src ttl req)
    → IsIcmp req
    → req.type ≡ 8
    → build_ip4 (echo_packet s src ttl req) ≡ ok dg
    → ip4_eq src broadcast_ip ≡ false
    → next_hop s src ≡ some hop
    → arp_lookup hop s.arp ≡ none
    → pump (suc (suc depth)) s
      ≡ blocked (record s {
        hmu = true;
        inbox = rest;
        rx_eth = count s.rx_eth;
        rx_ipv4 = count s.rx_ipv4;
        rx_icmp = count s.rx_icmp;
        wire = s.wire ++ arp_request s hop ∷ [];
      })
unfolding pump serve send_ipv4 send_ipv4_from resolve resolve_loop send_frame next_hop on_link
pump_deadlocks depth src src_mac hop ttl req dg rest s free first hp hr t e far route unknown =
    let locked = record s { hmu = true; inbox = rest } in
    rw (free, first)
      (rw (handle_frame-echo (pump (suc depth)) src src_mac ttl req dg locked hp hr t e) (
        rw (far, route)
          (ap (λ (o : Flow). and_then o (λ s'. running (record s' { hmu = false })))
            (resolve_waits depth hop (transmit s.ip src 1 (build_echo_reply req)) (counted locked)
              unknown refl))))
