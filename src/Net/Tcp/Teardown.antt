-- ===== src/Net/Tcp/Teardown.antt =====
-- Closing a connection: the FIN is the last of the stream, and a closed connection is silent.
use mathlib.Core.List.{append-nil}
use mkgo.Common.{ℕ, ◌≡◌, refl, sym, ◌∙◌, arith, List, [], ◌∷◌, true}
use mkgo.Net.Tcp.Segment.{TcpSegment}
use mkgo.Net.Tcp.Conn.{
  TcpConn, TcpState, closed, listen, syn_sent, established, fin_wait, close_wait, is_empty,
  send_locked, send_chunk, flush, write, send_fin, try_send_fin, close_in, close, ack_step,
  take_ack, take_payload, ack_fin, on_state, deliver_late, handle, recv,
}
use mkgo.Net.Tcp.Conn.Flush.{flush_inv}
use mkgo.Net.Tcp.Stream.{
  Call, write_call, close_call, recv_call, segment_call, step, run, call_bytes, accepted_bytes,
  data_sent, written, written-run,
}
use mkgo.Net.Tcp.Invariant.{Inv}
use mkgo.Net.Tcp.Invariant.Steps.{step-Inv, run-Inv}

-- `finSent` is never reset.
send_locked-HasFin :
    (flags : ℕ) (payload : List ℕ) (c : TcpConn)
    → c.fin_sent ≡ true
    → (send_locked flags payload c).fin_sent ≡ true
unfolding send_locked
send_locked-HasFin flags payload c h = ground arith

flush-HasFin : (c : TcpConn) → c.fin_sent ≡ true → (flush c).fin_sent ≡ true
flush-HasFin =
    flush_inv (λ d. d.fin_sent ≡ true) (λ d e h. unfold send_chunk in send_locked-HasFin 0 _ _ h)

send_fin-HasFin : (s : TcpState) (c : TcpConn) → c.fin_sent ≡ true → (send_fin s c).fin_sent ≡ true
unfolding send_fin
send_fin-HasFin established c h = send_locked-HasFin 1 [] _ h
send_fin-HasFin close_wait c h = send_locked-HasFin 1 [] _ h
send_fin-HasFin _ c h = h

try_send_fin-HasFin : (c : TcpConn) → c.fin_sent ≡ true → (try_send_fin c).fin_sent ≡ true
unfolding try_send_fin
try_send_fin-HasFin c h = ground (arith, send_fin-HasFin c.state c h)

ack_step-HasFin :
    (seg : TcpSegment) (c : TcpConn) → c.fin_sent ≡ true → (ack_step seg c).fin_sent ≡ true
unfolding ack_step take_ack
ack_step-HasFin seg c h = grind (arith, try_send_fin-HasFin, flush-HasFin)

take_payload-HasFin :
    (seg : TcpSegment) (c : TcpConn) → c.fin_sent ≡ true → (take_payload seg c).fin_sent ≡ true
unfolding take_payload
take_payload-HasFin seg c h = grind (arith, send_locked-HasFin)

ack_fin-HasFin : (c : TcpConn) → c.fin_sent ≡ true → (ack_fin c).fin_sent ≡ true
unfolding ack_fin
ack_fin-HasFin c h = send_locked-HasFin 16 [] _ h

on_state-HasFin :
    (s : TcpState) (seg : TcpSegment) (c : TcpConn)
    → c.fin_sent ≡ true
    → (on_state s seg c).fin_sent ≡ true
unfolding on_state
on_state-HasFin listen seg c h = grind (arith, send_locked-HasFin)
on_state-HasFin syn_sent seg c h = grind (arith, send_locked-HasFin, flush-HasFin)
on_state-HasFin established seg c h = grind (arith, take_payload-HasFin, ack_fin-HasFin)
on_state-HasFin fin_wait seg c h = grind (arith, take_payload-HasFin, ack_fin-HasFin)
on_state-HasFin _ seg c h = ground arith

handle-HasFin :
    (seg : TcpSegment) (c : TcpConn) → c.fin_sent ≡ true → (handle seg c).fin_sent ≡ true
unfolding handle deliver_late
handle-HasFin seg c h = grind (arith, take_payload-HasFin, on_state-HasFin, ack_step-HasFin)

close_in-HasFin :
    (s : TcpState) (c : TcpConn) → c.fin_sent ≡ true → (close_in s c).0.fin_sent ≡ true
unfolding close_in
close_in-HasFin established c h = try_send_fin-HasFin _ (flush-HasFin c h)
close_in-HasFin close_wait c h = try_send_fin-HasFin _ h
close_in-HasFin _ c h = h

step-HasFin : (k : Call) (c : TcpConn) → c.fin_sent ≡ true → (step k c).fin_sent ≡ true
unfolding step write close recv
step-HasFin (write_call bytes) c h = grind (arith, flush-HasFin)
step-HasFin close_call c h = close_in-HasFin c.state c h
step-HasFin (recv_call n) c h = h
step-HasFin (segment_call seg) c h = handle-HasFin seg c h

-- No write is accepted once the FIN is out.
call_bytes-nil : (k : Call) (c : TcpConn) → Inv c → c.fin_sent ≡ true → call_bytes k c ≡ []
unfolding call_bytes write
call_bytes-nil (write_call bytes) c h f = ground (arith, h.fin_late)
call_bytes-nil _ c h f = refl

accepted_bytes-nil :
    (ks : List Call) (c : TcpConn) → Inv c → c.fin_sent ≡ true → accepted_bytes ks c ≡ []
unfolding accepted_bytes
accepted_bytes-nil [] c h f = refl
accepted_bytes-nil (k ∷ ks) c h f =
    rw (call_bytes-nil k c h f)
      (accepted_bytes-nil ks (step k c) (step-Inv k c h) (step-HasFin k c f))

run-HasFin : (ks : List Call) (c : TcpConn) → c.fin_sent ≡ true → (run ks c).fin_sent ≡ true
unfolding run
run-HasFin [] c h = h
run-HasFin (k ∷ ks) c h = run-HasFin ks (step k c) (step-HasFin k c h)

nil_of_is_empty : (xs : List ℕ) → is_empty xs ≡ true → xs ≡ []
nil_of_is_empty [] e = refl
nil_of_is_empty (x ∷ xs) e = cc

all_sent : (c : TcpConn) → Inv c → c.fin_sent ≡ true → written c ≡ data_sent c.sent
all_sent c h f = rw (nil_of_is_empty c.snd_buf (h.fin_last f)) (append-nil (data_sent c.sent))

-- For a connection that satisfies the invariant and has sent its FIN, the FIN ends the stream: no
-- later write is accepted and no further payload is sent, whatever calls and segments follow.
pub fin_ends_stream :
    (ks : List Call) (c : TcpConn)
    → Inv c
    → c.fin_sent ≡ true
    → (accepted_bytes ks c ≡ []) × (data_sent (run ks c).sent ≡ data_sent c.sent)
fin_ends_stream ks c h f =
    let none_accepted = accepted_bytes-nil ks c h f in
    let same = written-run ks c ∙ rw (none_accepted, append-nil (written c)) (all_sent c h f) in
    (none_accepted, sym (all_sent (run ks c) (run-Inv ks c h) (run-HasFin ks c f)) ∙ same)

-- A connection that is closed and stays as it is, but for what was received and the bookkeeping
-- of acknowledgements.
abbrev pub IsSilent : TcpConn → TcpConn → Type 0
IsSilent c d = (d.state ≡ closed) × (d.sent ≡ c.sent)

handle-closed : (seg : TcpSegment) (c : TcpConn) → c.state ≡ closed → IsSilent c (handle seg c)
unfolding handle ack_step take_ack try_send_fin send_fin on_state deliver_late
handle-closed seg c e = ground arith

step-closed : (k : Call) (c : TcpConn) → c.state ≡ closed → IsSilent c (step k c)
unfolding step write close close_in recv
step-closed (write_call bytes) c e = ground arith
step-closed close_call c e = ground arith
step-closed (recv_call n) c e = (e, refl)
step-closed (segment_call seg) c e = handle-closed seg c e

-- `CLOSED` is final: no call and no segment reopens the connection or makes it send.
pub run-closed : (ks : List Call) (c : TcpConn) → c.state ≡ closed → IsSilent c (run ks c)
unfolding run
run-closed [] c e = (e, refl)
run-closed (k ∷ ks) c e =
    let (still, quiet) = step-closed k c e in
    let (ended, silent) = run-closed ks (step k c) still in (ended, silent ∙ quiet)
