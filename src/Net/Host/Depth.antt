-- ===== src/Net/Host/Depth.antt =====
-- How deep `pump` of services/net/netstack.go nests: a handler's own call of it is the last.
use mkgo.Common.{
  ℕ, zero, suc, ◌≡◌, refl, arith, Bool, true, false, List, [], ◌∷◌, if◌then◌else◌, Option, none,
  some, Option-cases, Bool-cases, inl, inr,
}
use mkgo.Net.Base.{Result, ok, err, Mac, Ip4, ip4_eq, broadcast_mac}
use mkgo.Net.Eth.{EthFrame, parse_eth}
use mkgo.Net.Arp.{ArpPacket, arp_lookup, parse_arp}
use mkgo.Net.Ip.{Ip4Packet, parse_ip4, build_echo_reply, IcmpPacket, parse_icmp}
use mkgo.Net.Tcp.Segment.{TcpSegment, build_tcp, sum_segment}
use mkgo.Net.Host.{
  Host, Flow, running, blocked, deeper, and_then, broadcast_ip, count, send_frame, next_hop, framed,
  transmit, resolve_loop, resolve, routed, send_ipv4, answer_arp, handle_arp_parsed, handle_arp,
  answer_icmp, handle_icmp_parsed, handle_icmp, send_segments, handle_tcp, deliver_ipv4,
  handle_ipv4_parsed, handle_ipv4, deliver_frame, handle_frame_parsed, handle_frame, serve, pump,
}

-- A call under `hmu` that comes back still holds it.
abbrev Held : Flow → Type 0
Held (running s) = s.hmu ≡ true
Held (blocked s) = Unit
Held deeper = ⊥

abbrev Keeps : (Host → Flow) → Type 0
Keeps f = (s : Host) → s.hmu ≡ true → Held (f s)

if-Held : (b : Bool) (x y : Flow) → Held x → Held y → Held (if b then x else y)
if-Held true x y hx hy = hx
if-Held false x y hx hy = hy

and_then-Held : (o : Flow) (f : Host → Flow) → Held o → Keeps f → Held (and_then o f)
and_then-Held (running s) f h k = k s h
and_then-Held (blocked s) f h k = tt
and_then-Held deeper f h k = absurd h

framed-Held : (r : Result (List ℕ)) (mac : Mac) → Keeps (framed r mac)
unfolding send_frame
framed-Held (err e) mac s h = h
framed-Held (ok dg) mac s h = h

transmit-Held :
    (src dst : Ip4) (proto : ℕ) (payload : List ℕ) (mac : Mac)
    → Keeps (transmit src dst proto payload mac)
unfolding transmit
transmit-Held src dst proto payload mac s h = framed-Held _ mac s h

answer_arp-Held : (pkt : ArpPacket) → Keeps (λ s. running (answer_arp pkt s))
unfolding answer_arp send_frame
answer_arp-Held pkt s h = ground (arith, h)

handle_arp_parsed-Held : (r : Result ArpPacket) → Keeps (λ s. running (handle_arp_parsed r s))
handle_arp_parsed-Held (err e) s h = h
handle_arp_parsed-Held (ok pkt) s h = answer_arp-Held pkt _ h

module _ (p : Host → Flow) (keeps : Keeps p) where
  resolve_loop-Held :
      (budget : ℕ) (hop : Ip4) (next : Mac → Host → Flow)
      → ((mac : Mac) → Keeps (next mac))
      → Keeps (resolve_loop p budget hop next)
  unfolding resolve_loop
  resolve_loop-Held zero hop next k s h = h
  resolve_loop-Held (suc budget) hop next k s h = elim (Option-cases (arp_lookup hop s.arp)) [
    | inl e ↦
        rw (e, resolve_loop)
          (and_then-Held (p s) _ (keeps s h) (resolve_loop-Held budget hop next k))
    | inr (mac, e) ↦ rw (e, resolve_loop) (k mac s h)
  ]

  resolve-Held :
      (budget : ℕ) (hop : Ip4) (next : Mac → Host → Flow)
      → ((mac : Mac) → Keeps (next mac))
      → Keeps (resolve p budget hop next)
  unfolding resolve send_frame
  resolve-Held budget hop next k s h = elim (Option-cases (arp_lookup hop s.arp)) [
    | inl e ↦ rw (e, resolve) (resolve_loop-Held budget hop next k _ h)
    | inr (mac, e) ↦ rw (e, resolve) (k mac s h)
  ]

  routed-Held :
      (o : Option Ip4) (next : Mac → Host → Flow)
      → ((mac : Mac) → Keeps (next mac))
      → Keeps (routed p o next)
  routed-Held none next k s h = h
  routed-Held (some hop) next k s h = resolve-Held 2000 hop next k s h

  send_ipv4-Held :
      (dst : Ip4) (proto : ℕ) (payload : List ℕ) → Keeps (send_ipv4 p dst proto payload)
  unfolding send_ipv4
  send_ipv4-Held dst proto payload s h =
      if-Held (ip4_eq dst broadcast_ip) (transmit s.ip dst proto payload broadcast_mac s)
        (routed p (next_hop s dst) (transmit s.ip dst proto payload) s)
        (transmit-Held s.ip dst proto payload broadcast_mac s h)
        (routed-Held (next_hop s dst) (transmit s.ip dst proto payload)
          (transmit-Held s.ip dst proto payload) s h)

  answer_icmp-Held : (msg : IcmpPacket) (src : Ip4) → Keeps (answer_icmp p msg src)
  unfolding answer_icmp
  answer_icmp-Held msg src s h =
      let sent = send_ipv4-Held src 1 (build_echo_reply msg) s h in ground (arith, sent, h)

  handle_icmp_parsed-Held : (r : Result IcmpPacket) (src : Ip4) → Keeps (handle_icmp_parsed p r src)
  handle_icmp_parsed-Held (err e) src s h = h
  handle_icmp_parsed-Held (ok msg) src s h = answer_icmp-Held msg src _ h

  send_segments-Held : (l : List (Ip4 × TcpSegment)) → Keeps (send_segments p l)
  unfolding send_segments
  send_segments-Held [] s h = h
  send_segments-Held ((dst, seg) ∷ l) s h =
      let dg = sum_segment s.ip dst (build_tcp seg) in
      and_then-Held (send_ipv4 p dst 6 dg s) (send_segments p l) (send_ipv4-Held dst 6 dg s h)
        (send_segments-Held l)

  handle_tcp-Held : (pkt : Ip4Packet) → Keeps (handle_tcp p pkt)
  unfolding handle_tcp
  handle_tcp-Held pkt s h = send_segments-Held _ _ h

  deliver_ipv4-Held : (pkt : Ip4Packet) → Keeps (deliver_ipv4 p pkt)
  unfolding deliver_ipv4 handle_icmp
  deliver_ipv4-Held pkt s h =
      let icmp = handle_icmp_parsed-Held (parse_icmp pkt.payload) pkt.src s h in
      let tcp = handle_tcp-Held pkt s h in ground (arith, icmp, tcp, h)

  handle_ipv4_parsed-Held : (r : Result Ip4Packet) → Keeps (handle_ipv4_parsed p r)
  handle_ipv4_parsed-Held (err e) s h = h
  handle_ipv4_parsed-Held (ok pkt) s h =
      let inner = deliver_ipv4-Held pkt (record s { rx_ipv4 = count s.rx_ipv4 }) h in
      ground (arith, inner, h)

  deliver_frame-Held : (f : EthFrame) → Keeps (deliver_frame p f)
  unfolding deliver_frame handle_ipv4 handle_arp
  deliver_frame-Held f s h =
      let arp = handle_arp_parsed-Held (parse_arp f.payload) s h in
      let ip = handle_ipv4_parsed-Held (parse_ip4 f.payload) s h in ground (arith, arp, ip, h)

  handle_frame_parsed-Held : (r : Result EthFrame) → Keeps (handle_frame_parsed p r)
  handle_frame_parsed-Held (err e) s h = h
  handle_frame_parsed-Held (ok f) s h =
      let inner = deliver_frame-Held f (record s { rx_eth = count s.rx_eth }) h in
      ground (arith, inner, h)

  handle_frame-Held : (raw : List ℕ) → Keeps (handle_frame p raw)
  unfolding handle_frame
  handle_frame-Held raw s h = handle_frame_parsed-Held (parse_eth raw) s h

-- A call that comes back, or waits for ever.
abbrev pub IsKnown : Flow → Type 0
IsKnown (running s) = Unit
IsKnown (blocked s) = Unit
IsKnown deeper = ⊥

released : (o : Flow) → Held o → IsKnown (and_then o (λ s. running (record s { hmu = false })))
released (running s) h = tt
released (blocked s) h = tt
released deeper h = absurd h

pump-Keeps : (depth : ℕ) → Keeps (pump (suc depth))
unfolding pump
pump-Keeps depth s h = rw (h, Held) tt

serve-IsKnown : (p : Host → Flow) (s : Host) → Keeps p → s.hmu ≡ true → IsKnown (serve p s)
unfolding serve
serve-IsKnown p s k h =
    elim s.inbox
      as (λ l. IsKnown (elim l [
        | [] ↦ running (record s { hmu = false })
        | raw ∷ rest ↦
            and_then (handle_frame p raw (record s { inbox = rest }))
              (λ s'. running (record s' { hmu = false }))
      ])) [ [] ↦ tt | raw ∷ rest ↦ released _ (handle_frame-Held p k raw _ h) ]

-- Two calls of `pump`, one in the other, are as many as nest: with a depth of two or more the model
-- tells what becomes of it.
pub pump-IsKnown : (depth : ℕ) (s : Host) → IsKnown (pump (suc (suc depth)) s)
unfolding pump
pump-IsKnown depth s = elim (Bool-cases s.hmu) [
  | inl held ↦ rw (held, IsKnown) tt
  | inr free ↦
      rw free (serve-IsKnown (pump (suc depth)) (record s { hmu = true }) (pump-Keeps depth) refl)
]
