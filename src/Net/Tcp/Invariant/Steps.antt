-- ===== src/Net/Tcp/Invariant/Steps.antt =====
-- Every call and every inbound segment keeps the connection invariant.
use mkgo.Common.{
  ℕ, ◌≡◌, refl, ◌∙◌, arith, List, [], ◌∷◌, ◌++◌, Bool, true, false, Bool-cases, inl, inr,
  if◌then◌else◌, Option, some, not, ◌||◌,
}
use mkgo.Net.Tcp.Segment.{TcpSegment}
use mkgo.Net.Tcp.Conn.{
  TcpConn, TcpState, closed, listen, syn_sent, syn_rcvd, established, fin_wait, close_wait,
  last_ack, send_locked, send_chunk, flush, write, close_in, close, is_established, ack_step,
  take_payload, ack_fin, on_state, deliver_late, handle, recv, remote_closed, conn_reset,
  finish_close, on_established, on_fin_wait, on_last_ack, fin_in_order,
}
use mkgo.Net.Tcp.Conn.Flush.{flush_inv}
use mkgo.Net.Tcp.Stream.{Call, write_call, close_call, recv_call, segment_call, step, run}
use mkgo.Net.Tcp.Invariant.{
  Inv, opening, send_locked-Inv, if-Inv, ack_step-Inv, received-Inv, take_payload-Inv, ack_fin-Inv,
  flush-Inv, try_send_fin-Inv,
}

deliver_late-Inv : (seg : TcpSegment) (c : TcpConn) → Inv c → Inv (deliver_late seg c)
unfolding deliver_late
deliver_late-Inv seg c h = if-Inv _ _ c (take_payload-Inv seg c h) h

-- Moves between states by the segment handlers.
listening-Inv :
    (c : TcpConn) (n : ℕ)
    → c.state ≡ listen
    → Inv c
    → Inv (record c { rcv_nxt = n; state = syn_rcvd })
listening-Inv c n e h = ground (arith, h)

answered-Inv :
    (c : TcpConn) (n una : ℕ)
    → c.state ≡ syn_sent
    → Inv c
    → Inv (record c { rcv_nxt = n; snd_una = una; in_flight = []; state = established })
answered-Inv c n una e h = ground (arith, h)

opened-Inv :
    (c : TcpConn) (l : Option ℕ)
    → c.state ≡ syn_rcvd
    → Inv c
    → Inv (record c { state = established; listener = l })
opened-Inv c l e h = ground (arith, h)

half_closed-Inv :
    (c : TcpConn)
    → c.state ≡ established
    → Inv c
    → Inv (record c { state = close_wait; error = some remote_closed })
half_closed-Inv c e h = ground (arith, h)

finish_close-Inv :
    (seg : TcpSegment) (c : TcpConn) → c.state ≡ fin_wait → Inv c → Inv (finish_close seg c)
unfolding finish_close
finish_close-Inv seg c e h = ground (arith, h)

take_payload-state : (seg : TcpSegment) (c : TcpConn) → (take_payload seg c).state ≡ c.state
unfolding take_payload send_locked
take_payload-state seg c = ground arith

ack_fin-state : (c : TcpConn) → (ack_fin c).state ≡ c.state
unfolding ack_fin send_locked
ack_fin-state c = refl

if-state :
    (b : Bool) (c d : TcpConn) (s : TcpState)
    → c.state ≡ s
    → d.state ≡ s
    → (if b then c else d).state ≡ s
if-state true c d s e f = e
if-state false c d s e f = f

on_established-Inv :
    (seg : TcpSegment) (c : TcpConn) → c.state ≡ established → Inv c → Inv (on_established seg c)
unfolding on_established
on_established-Inv seg c e h =
    let d = take_payload seg c in
    let hd = take_payload-Inv seg c h in
    let ed = take_payload-state seg c ∙ e in
    if-Inv (fin_in_order seg d) _ d
      (half_closed-Inv (ack_fin d) (ack_fin-state d ∙ ed) (ack_fin-Inv d hd)) hd

on_fin_wait-Inv :
    (seg : TcpSegment) (c : TcpConn) → c.state ≡ fin_wait → Inv c → Inv (on_fin_wait seg c)
unfolding on_fin_wait
on_fin_wait-Inv seg c e h =
    let d = take_payload seg c in
    let hd = take_payload-Inv seg c h in
    let ed = take_payload-state seg c ∙ e in
    let b = fin_in_order seg d in
    unfold finish_close in
    unfold on_fin_wait in
    finish_close-Inv seg (if b then ack_fin d else d)
      (if-state b (ack_fin d) d fin_wait (ack_fin-state d ∙ ed) ed)
      (if-Inv b (ack_fin d) d (ack_fin-Inv d hd) hd)

on_last_ack-Inv :
    (seg : TcpSegment) (c : TcpConn) → c.state ≡ last_ack → Inv c → Inv (on_last_ack seg c)
unfolding on_last_ack
on_last_ack-Inv seg c e h = ground (arith, h)

on_state-Inv :
    (s : TcpState) (seg : TcpSegment) (c : TcpConn) → c.state ≡ s → Inv c → Inv (on_state s seg c)
unfolding on_state
on_state-Inv listen seg c e h = if-Inv _ _ c (send_locked-Inv 18 _ refl (listening-Inv c _ e h)) h
on_state-Inv syn_sent seg c e h =
    if-Inv _ _ c (flush-Inv _ (send_locked-Inv 16 _ refl (answered-Inv c _ seg.ack e h))) h
on_state-Inv syn_rcvd seg c e h = if-Inv _ _ c (opened-Inv c _ e h) h
on_state-Inv established seg c e h = on_established-Inv seg c e h
on_state-Inv fin_wait seg c e h = on_fin_wait-Inv seg c e h
on_state-Inv last_ack seg c e h = on_last_ack-Inv seg c e h
on_state-Inv _ seg c e h = h

reset-Inv : (c : TcpConn) → Inv c → Inv (record c { state = closed; error = some conn_reset })
reset-Inv c h = ground (arith, h)

-- No inbound segment, in any state, breaks the invariant.
pub handle-Inv : (seg : TcpSegment) (c : TcpConn) → Inv c → Inv (handle seg c)
unfolding handle
handle-Inv seg c h =
    let d = ack_step seg c in
    let hd = ack_step-Inv seg c h in
    if-Inv _ _ _ (reset-Inv c h) (deliver_late-Inv seg _ (on_state-Inv d.state seg d refl hd))

queued-Inv :
    (c : TcpConn) (bytes : List ℕ)
    → c.state ≡ established
    → Inv c
    → Inv (record c { snd_buf = c.snd_buf ++ bytes })
queued-Inv c bytes e h = ground (arith, h)

pub write-Inv : (bytes : List ℕ) (c : TcpConn) → Inv c → Inv (write bytes c).0
unfolding write
write-Inv bytes c h = elim (Bool-cases (not (is_established c.state) || c.fin_pending)) [
  | inl e ↦ rw e h
  | inr e ↦ rw e (flush-Inv _ (queued-Inv c bytes (ground arith) h))
]

pending-Inv :
    (c : TcpConn) → opening c.state ≡ false → Inv c → Inv (record c { fin_pending = true })
pending-Inv c e h = ground (arith, h)

flush-state : (c : TcpConn) → (flush c).state ≡ c.state
flush-state c =
    flush_inv (λ d. d.state ≡ c.state) (λ d e h. unfold send_chunk send_locked in h) c refl

close_in-Inv : (s : TcpState) (c : TcpConn) → c.state ≡ s → Inv c → Inv (close_in s c).0
unfolding close_in
close_in-Inv established c e h =
    try_send_fin-Inv _ (pending-Inv (flush c) (rw (flush-state c ∙ e) refl) (flush-Inv c h))
close_in-Inv close_wait c e h = try_send_fin-Inv _ (pending-Inv c (rw e refl) h)
close_in-Inv _ c e h = h

pub step-Inv : (k : Call) (c : TcpConn) → Inv c → Inv (step k c)
unfolding step close recv
step-Inv (write_call bytes) c h = write-Inv bytes c h
step-Inv close_call c h = close_in-Inv c.state c refl h
step-Inv (recv_call n) c h = received-Inv c _ c.rcv_nxt h
step-Inv (segment_call seg) c h = handle-Inv seg c h

-- Over any sequence of writes, closes, reads and inbound segments from a connection where it
-- holds, the invariant `Inv` holds: at most 1024 bytes are unacknowledged; once our FIN is sent,
-- no byte waits or is unacknowledged and the state is FIN-WAIT, LAST-ACK or CLOSED; FIN-WAIT and
-- LAST-ACK are reached only with our FIN sent; and before the handshake is over nothing is queued
-- and no close is pending.
pub run-Inv : (ks : List Call) (c : TcpConn) → Inv c → Inv (run ks c)
unfolding run
run-Inv [] c h = h
run-Inv (k ∷ ks) c h = run-Inv ks (step k c) (step-Inv k c h)
