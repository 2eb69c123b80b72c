-- ===== src/Net/Tcp/Receive.antt =====
-- The receiving side: payload is delivered in order, and only once.
pub mod InOrder
use mathlib.Core.List.{append-nil}
use mkgo.Common.{
  ◌⊎◌, ℕ, zero, suc, ◌+◌, ◌-◌, ◌%◌, ◌<◌, ◌≤◌, ◌≡◌, ◌≢◌, refl, sym, ap, ◌∙◌, arith, List, [], ◌∷◌,
  ◌++◌, length, Bool, true, false, not, ◌&&◌, ◌||◌, Bool-cases, inl, inr, if◌then◌else◌, Option,
  none, some, ◌==◌,
}
use mkgo.Net.Tcp.Segment.{TcpSegment, has, tcp_rst, tcp_fin, tcp_syn, tcp_ack, u32, add32}
use mkgo.Net.Tcp.Conn.{
  TcpConn, TcpState, closed, listen, syn_sent, syn_rcvd, established, fin_wait, close_wait,
  last_ack, is_empty, is_established, fin_in_order, send_locked, send_chunk, flush, send_fin,
  try_send_fin, ack_step, take_ack, take_payload, ack_fin, on_state, on_established, on_fin_wait,
  finish_close, deliver_late, handle, on_syn_sent, on_syn_rcvd, on_listen, on_last_ack, enqueue,
}
use mkgo.Net.Tcp.Conn.Flush.{flush_inv}

-- The receiving side of `d` is that of `c`.
abbrev pub SameRcv : TcpConn → TcpConn → Type 0
SameRcv c d = (d.rcv_buf ≡ c.rcv_buf) × (d.rcv_nxt ≡ c.rcv_nxt)

flush-SameRcv : (c : TcpConn) → SameRcv c (flush c)
flush-SameRcv c = flush_inv (SameRcv c) (λ d e h. unfold send_chunk send_locked in h) c (refl, refl)

send_fin-SameRcv : (s : TcpState) (c : TcpConn) → SameRcv c (send_fin s c)
unfolding send_fin send_locked
send_fin-SameRcv established c = (refl, refl)
send_fin-SameRcv _ c = (refl, refl)

try_send_fin-SameRcv : (c : TcpConn) → SameRcv c (try_send_fin c)
unfolding try_send_fin
try_send_fin-SameRcv c = ground (arith, send_fin-SameRcv c.state c)

pub ack_step-SameRcv : (seg : TcpSegment) (c : TcpConn) → SameRcv c (ack_step seg c)
unfolding ack_step take_ack
ack_step-SameRcv seg c = grind (arith, try_send_fin-SameRcv, flush-SameRcv)

-- A segment that does not start at the next expected byte delivers nothing.
take_payload-out_of_order :
    (seg : TcpSegment) (c : TcpConn) → seg.seq ≢ c.rcv_nxt → take_payload seg c ≡ c
unfolding take_payload
take_payload-out_of_order seg c h = ground arith

-- Delivery, and the move of the expected sequence number with it.
pub take_payload-in_order :
    (seg : TcpSegment) (c : TcpConn)
    → seg.seq ≡ c.rcv_nxt
    → c.rcv_nxt < 4294967296
    → let d = take_payload seg c in
      (d.rcv_buf ≡ c.rcv_buf ++ seg.payload)
      × (d.rcv_nxt ≡ add32 c.rcv_nxt (length seg.payload))
      × (d.state ≡ c.state)
unfolding take_payload send_locked
take_payload-in_order seg c e h = ground (arith, append-nil c.rcv_buf)

late_out_of_order :
    (seg : TcpSegment) (c : TcpConn) {b : List ℕ}
    → c.rcv_buf ≡ b
    → seg.seq ≢ c.rcv_nxt
    → (deliver_late seg c).rcv_buf ≡ b
unfolding deliver_late
late_out_of_order seg c e ne = ground (arith, take_payload-out_of_order seg c ne)

past_itself : (n : ℕ) → n < 4294967296 → n ≢ add32 n 1
past_itself n h = ground arith

-- The two records that end the handshake.
abbrev answered : TcpSegment → TcpConn → TcpConn
answered seg c = record c {
  rcv_nxt = add32 seg.seq 1;
  snd_una = seg.ack;
  in_flight = [];
  state = established;
}

abbrev opened : TcpConn → TcpConn
opened c = record c { state = established; listener = enqueue c.listener }

switch_out_of_order :
    (s : TcpState) (seg : TcpSegment) (c : TcpConn)
    → c.state ≡ s
    → seg.seq < 4294967296
    → seg.seq ≢ c.rcv_nxt
    → (deliver_late seg (on_state s seg c)).rcv_buf ≡ c.rcv_buf
unfolding on_state deliver_late ack_fin send_locked
switch_out_of_order closed seg c e h ne = ground arith
switch_out_of_order listen seg c e h ne = ground (arith, take_payload-out_of_order seg c)
switch_out_of_order syn_sent seg c e h ne =
    elim (Bool-cases (has seg.flags tcp_syn && has seg.flags tcp_ack)) [
      | inl yes_ ↦ rw yes_ (
          let opened = send_locked 16 [] (answered seg c) in
          let (same, next) = flush-SameRcv opened in
          late_out_of_order seg (flush opened) same (λ p. past_itself seg.seq h (p ∙ next)))
      | inr no_ ↦ rw no_ (late_out_of_order seg c refl ne)
    ]
switch_out_of_order syn_rcvd seg c e h ne = elim (Bool-cases (has seg.flags tcp_ack)) [
  | inl yes_ ↦ rw yes_ (late_out_of_order seg (opened c) refl ne)
  | inr no_ ↦ rw no_ (late_out_of_order seg c refl ne)
]
switch_out_of_order established seg c e h ne = ground (arith, take_payload-out_of_order seg c)
switch_out_of_order fin_wait seg c e h ne = ground (arith, take_payload-out_of_order seg c)
switch_out_of_order close_wait seg c e h ne = ground arith
switch_out_of_order last_ack seg c e h ne = ground arith

-- In every state, a segment with a 32-bit sequence number that is not the next expected one leaves
-- the received stream as it was.
pub handle_out_of_order :
    (seg : TcpSegment) (c : TcpConn)
    → seg.seq < 4294967296
    → seg.seq ≢ c.rcv_nxt
    → (handle seg c).rcv_buf ≡ c.rcv_buf
unfolding handle
handle_out_of_order seg c h ne =
    let d = ack_step seg c in
    let (buf, next) = ack_step-SameRcv seg c in
    let kept = switch_out_of_order d.state seg d refl h (λ p. ne (p ∙ next)) ∙ buf in
    ground (arith, kept)
