-- ===== src/Net/Tcp/Peers.antt =====
-- Two connections that exchange segments: the handshake, and what one writes the other receives.
use mkgo.Common.{
  ℕ, ◌+◌, ◌-◌, ◌<◌, ◌≤◌, ◌≡◌, refl, sym, ◌∙◌, arith, List, [], ◌∷◌, ◌++◌, length, false, Option,
  none, some,
}
use mkgo.Net.Base.{Ip4}
use mkgo.Net.Tcp.Segment.{TcpSegment, add32, seq_gt, seq_ge}
use mkgo.Net.Tcp.Conn.{
  TcpConn, established, send_locked, flush, flush_loop, write, try_send_fin, send_fin, ack_step,
  ack_moves, take_ack, take_payload, on_state, deliver_late, handle,
}
use mkgo.Net.Tcp.Conn.Flush.{flush_once}
use mkgo.Net.Tcp.Receive.InOrder.{handle_in_order}
use mkgo.Net.Tcp.Stack.{dialed, listening, bind_peer}

-- The last segment that a connection sent.
abbrev pub last_sent : List (Ip4 × TcpSegment) → Option TcpSegment
last_sent [] = none
last_sent ((ip, seg) ∷ []) = some seg
last_sent ((ip, seg) ∷ x ∷ l) = last_sent (x ∷ l)

-- `handle` on what the peer sent last.
abbrev pub hear : TcpConn → TcpConn → TcpConn
hear from c = elim (last_sent from.sent) [ none ↦ c | some seg ↦ handle seg c ]

abbrev pub hear_at : Ip4 → TcpConn → TcpConn → TcpConn
hear_at src from c = elim (last_sent from.sent) [
  | none ↦ c
  | some seg ↦ handle seg (bind_peer src seg c)
]

-- The dialing side, the listening side with the SYN, and each after the next segment.
abbrev pub syn_heard : Ip4 → ℕ → Ip4 → ℕ → TcpConn
syn_heard laddr port raddr rport = hear_at laddr (dialed laddr port raddr rport) (listening rport)

abbrev pub syn_ack_heard : Ip4 → ℕ → Ip4 → ℕ → TcpConn
syn_ack_heard laddr port raddr rport =
    hear (syn_heard laddr port raddr rport) (dialed laddr port raddr rport)

abbrev pub ack_heard : Ip4 → ℕ → Ip4 → ℕ → TcpConn
ack_heard laddr port raddr rport =
    hear (syn_ack_heard laddr port raddr rport) (syn_heard laddr port raddr rport)

-- A SYN, the answer and its acknowledgement establish both ends. The listening end is bound to the
-- address and the port of the dialing end, and the dialing end to those that it dialed; each has its
-- own port. They are in step with each other's sequence numbers, and the connection is in the accept
-- queue.
pub handshake :
    (laddr raddr : Ip4) (port rport : ℕ)
    → let c = syn_ack_heard laddr port raddr rport in
      let s = ack_heard laddr port raddr rport in
      (c.state ≡ established)
      × (s.state ≡ established)
      × (s.remote_ip ≡ laddr)
      × (s.remote_port ≡ port)
      × (s.local_port ≡ rport)
      × (c.remote_ip ≡ raddr)
      × (c.remote_port ≡ rport)
      × (c.local_ip ≡ laddr)
      × (c.local_port ≡ port)
      × (s.rcv_nxt ≡ c.snd_nxt)
      × (c.rcv_nxt ≡ s.snd_nxt)
      × (c.snd_una ≡ c.snd_nxt)
      × (s.snd_una ≡ s.snd_nxt)
      × (s.listener ≡ some 1)
unfolding dialed send_locked handle bind_peer ack_step ack_moves take_ack try_send_fin send_fin
    on_state deliver_late take_payload flush flush_loop seq_ge seq_gt
handshake laddr raddr port rport =
    (refl, refl, refl, refl, refl, refl, refl, refl, refl, refl, refl, refl, refl, refl)

-- The segment that carries `bytes` from `c`.
abbrev pub data_segment : TcpConn → List ℕ → TcpSegment
data_segment c bytes = record {
  src_port = c.local_port;
  dst_port = c.remote_port;
  seq = c.snd_nxt;
  ack = c.rcv_nxt;
  flags = 16;
  window = 1024 - length c.in_flight;
  payload = bytes;
}

write_once :
    (bytes : List ℕ) (c : TcpConn)
    → c.state ≡ established
    → c.fin_pending ≡ false
    → c.snd_buf ≡ []
    → 0 < length bytes
    → length bytes ≤ 512
    → length c.in_flight + length bytes ≤ 1024
    → write bytes c ≡ (send_locked 0 bytes (record c { snd_buf = [] }), some (length bytes))
unfolding write
write_once bytes c e f b p h fits =
    let once = flush_once (record c { snd_buf = bytes }) e p h fits in ground (arith, once)

sent_segment :
    (bytes : List ℕ) (c : TcpConn)
    → c.state ≡ established
    → (send_locked 0 bytes (record c { snd_buf = [] })).sent
      ≡ c.sent ++ (c.remote_ip, data_segment c bytes) ∷ []
unfolding send_locked
sent_segment bytes c e = ground arith

next_in_step :
    (bytes : List ℕ) (c s : TcpConn)
    → s.rcv_nxt ≡ c.snd_nxt
    → add32 s.rcv_nxt (length bytes + 0) ≡ (send_locked 0 bytes (record c { snd_buf = [] })).snd_nxt
unfolding send_locked
next_in_step bytes c s e = ground (arith, e)

-- Between established connections that are in step, a write of 1 to 512 bytes, to a sender with no
-- close pending, an empty send buffer and room in its window, sends one segment, and the peer that
-- handles it appends exactly the written bytes to its stream and is in step again.
pub write-reaches_peer :
    (bytes : List ℕ) (c s : TcpConn)
    → c.state ≡ established
    → c.fin_pending ≡ false
    → c.snd_buf ≡ []
    → 0 < length bytes
    → length bytes ≤ 512
    → length c.in_flight + length bytes ≤ 1024
    → s.state ≡ established
    → s.rcv_nxt ≡ c.snd_nxt
    → c.snd_nxt < 4294967296
    → let c' = (write bytes c).0 in
      let s' = handle (data_segment c bytes) s in
      (c'.sent ≡ c.sent ++ (c.remote_ip, data_segment c bytes) ∷ [])
      × (s'.rcv_buf ≡ s.rcv_buf ++ bytes)
      × (s'.rcv_nxt ≡ c'.snd_nxt)
write-reaches_peer bytes c s e f b p h fits es step w =
    let seg = data_segment c bytes in
    let (buf, next) = handle_in_order seg s es refl (sym step) (omega arith) (omega arith) in
    rw (write_once bytes c e f b p h fits)
      (sent_segment bytes c e, buf, next ∙ next_in_step bytes c s step)
