-- ===== src/Net/Tcp/Receive/InOrder.antt =====
-- Segments in order are delivered once.
use mkgo.Common.{
  ◌⊎◌, ℕ, ◌+◌, ◌<◌, ◌≡◌, ◌≢◌, refl, sym, ◌∙◌, arith, ◌++◌, length, false, inl, inr, if◌then◌else◌,
}
use mkgo.Net.Tcp.Segment.{TcpSegment, has, tcp_rst, tcp_fin, add32}
use mkgo.Net.Tcp.Conn.{
  TcpConn, TcpState, established, fin_wait, send_locked, send_chunk, flush, send_fin, try_send_fin,
  ack_step, take_ack, take_payload, ack_fin, on_state, on_established, on_fin_wait, deliver_late,
  handle,
}
use mkgo.Net.Tcp.Conn.Flush.{flush_inv}
use mkgo.Net.Tcp.Receive.{ack_step-SameRcv, take_payload-in_order, handle_out_of_order}

-- The number of sequence numbers that a FIN takes.
abbrev pub fin_len : ℕ → ℕ
fin_len flags = if has flags tcp_fin then 1 else 0

-- The receiving side after a segment in order.
abbrev pub Received : TcpSegment → TcpConn → TcpConn → Type 0
Received seg c d =
    (d.rcv_buf ≡ c.rcv_buf ++ seg.payload)
    × (d.rcv_nxt ≡ add32 c.rcv_nxt (length seg.payload + fin_len seg.flags))

-- What `take_payload` has taken it does not take again.
take_payload-again :
    (seg : TcpSegment) (d : TcpConn)
    → seg.seq < 4294967296
    → length seg.payload < 4294967296
    → d.rcv_nxt ≡ add32 seg.seq (length seg.payload)
    → take_payload seg d ≡ d
unfolding take_payload
take_payload-again seg d h l e = ground (arith, e)

established-Received :
    (seg : TcpSegment) (c : TcpConn)
    → c.state ≡ established
    → seg.seq ≡ c.rcv_nxt
    → c.rcv_nxt < 4294967296
    → length seg.payload < 4294967296
    → Received seg c (deliver_late seg (on_established seg c))
unfolding on_established deliver_late ack_fin send_locked
established-Received seg c e s h l =
    let d = take_payload seg c in
    let (buf, next, st) = take_payload-in_order seg c s h in
    let again = take_payload-again seg d in ground (arith, buf, next, st, again)

fin_wait-Received :
    (seg : TcpSegment) (c : TcpConn)
    → c.state ≡ fin_wait
    → seg.seq ≡ c.rcv_nxt
    → c.rcv_nxt < 4294967296
    → length seg.payload < 4294967296
    → Received seg c (deliver_late seg (on_fin_wait seg c))
unfolding on_fin_wait deliver_late ack_fin send_locked
fin_wait-Received seg c e s h l =
    let d = take_payload seg c in
    let (buf, next, st) = take_payload-in_order seg c s h in ground (arith, buf, next, st)

send_fin-state : (c : TcpConn) → c.state ≡ established → (send_fin c.state c).state ≡ fin_wait
unfolding send_fin send_locked
send_fin-state c e = ground arith

flush-state_same : (c : TcpConn) → (flush c).state ≡ c.state
flush-state_same c =
    flush_inv (λ d. d.state ≡ c.state) (λ d e h. unfold send_chunk send_locked in h) c refl

ack_step-established :
    (seg : TcpSegment) (c : TcpConn)
    → c.state ≡ established
    → ((ack_step seg c).state ≡ established) ⊎ ((ack_step seg c).state ≡ fin_wait)
unfolding ack_step take_ack try_send_fin
ack_step-established seg c e = grind (arith, flush-state_same, send_fin-state)

switch-Received :
    (s : TcpState) (seg : TcpSegment) (c : TcpConn)
    → c.state ≡ s
    → (s ≡ established) ⊎ (s ≡ fin_wait)
    → seg.seq ≡ c.rcv_nxt
    → c.rcv_nxt < 4294967296
    → length seg.payload < 4294967296
    → Received seg c (deliver_late seg (on_state s seg c))
unfolding on_state
switch-Received established seg c e o s h l = unfold on_state in established-Received seg c e s h l
switch-Received fin_wait seg c e o s h l = unfold on_state in fin_wait-Received seg c e s h l
switch-Received _ seg c e o s h l = absurd (elim o [ inl p ↦ cc | inr p ↦ cc ])

past_payload :
    (seg : TcpSegment) (c : TcpConn)
    → seg.seq ≡ c.rcv_nxt
    → c.rcv_nxt < 4294967296
    → 0 < length seg.payload
    → length seg.payload < 4294967295
    → (handle seg c).rcv_nxt ≡ add32 c.rcv_nxt (length seg.payload + fin_len seg.flags)
    → seg.seq ≢ (handle seg c).rcv_nxt
past_payload seg c s h p l next = ground arith

-- An established connection takes a segment without RST that starts at the next expected byte,
-- whatever it acknowledges: the payload is appended to the received stream exactly once, and the
-- next expected sequence number moves past the payload and the FIN.
pub handle_in_order :
    (seg : TcpSegment) (c : TcpConn)
    → c.state ≡ established
    → has seg.flags tcp_rst ≡ false
    → seg.seq ≡ c.rcv_nxt
    → c.rcv_nxt < 4294967296
    → length seg.payload < 4294967296
    → Received seg c (handle seg c)
unfolding handle
handle_in_order seg c e r s h l =
    let d = ack_step seg c in
    let (buf, next) = ack_step-SameRcv seg c in
    let moved =
      switch-Received d.state seg d refl (ack_step-established seg c e) (s ∙ sym next) (omega arith)
        l in
    rw r (moved.0 ∙ rw buf, moved.1 ∙ rw next)

-- When an established connection gets a segment that has a payload and no RST and starts at the
-- next expected byte, and then the same segment again, the payload is delivered once.
pub handle_retransmission :
    (seg : TcpSegment) (c : TcpConn)
    → c.state ≡ established
    → has seg.flags tcp_rst ≡ false
    → seg.seq ≡ c.rcv_nxt
    → c.rcv_nxt < 4294967296
    → 0 < length seg.payload
    → length seg.payload < 4294967295
    → (handle seg (handle seg c)).rcv_buf ≡ c.rcv_buf ++ seg.payload
handle_retransmission seg c e r s h p l =
    let (buf, next) = handle_in_order seg c e r s h (omega arith) in
    handle_out_of_order seg (handle seg c) (omega arith) (past_payload seg c s h p l next) ∙ buf
