-- ===== src/Net/Tcp/Stream.antt =====
-- The bytes that the application writes: what has gone out in segments, followed by what waits in
-- the send buffer, is what was written.
use mathlib.Core.List.{append-nil, append_assoc}
use mkgo.Common.{
  ℕ, ◌≡◌, refl, sym, ap, ◌∙◌, arith, List, [], ◌∷◌, ◌++◌, take, drop, take-append-drop, Option,
  none, some,
}
use mkgo.Net.Base.{Ip4}
use mkgo.Net.Tcp.Segment.{TcpSegment}
use mkgo.Net.Tcp.Conn
use mkgo.Net.Tcp.Conn.Flush

-- The payloads of the segments, in the order of sending.
unfoldable pub data_sent : List (Ip4 × TcpSegment) → List ℕ
data_sent [] = []
data_sent ((ip, seg) ∷ l) = seg.payload ++ data_sent l

pub data_sent-append :
    (l m : List (Ip4 × TcpSegment)) → data_sent (l ++ m) ≡ data_sent l ++ data_sent m
unfolding data_sent
data_sent-append [] m = refl
data_sent-append ((ip, seg) ∷ l) m =
    rw (data_sent-append l m) (sym (append_assoc seg.payload (data_sent l) (data_sent m)))

-- All bytes that were handed to the connection, in order.
abbrev pub written : Conn.TcpConn → List ℕ
written c = data_sent c.sent ++ c.snd_buf

pub sent-send_locked :
    (flags : ℕ) (payload : List ℕ) (c : Conn.TcpConn)
    → data_sent (Conn.send_locked flags payload c).sent ≡ data_sent c.sent ++ payload
unfolding Conn.send_locked data_sent
sent-send_locked flags payload c = rw (data_sent-append c.sent _) (rw (append-nil payload) refl)

send_locked-snd_buf :
    (flags : ℕ) (payload : List ℕ) (c : Conn.TcpConn)
    → (Conn.send_locked flags payload c).snd_buf ≡ c.snd_buf
unfolding Conn.send_locked
send_locked-snd_buf flags payload c = refl

-- A segment without payload moves nothing.
pub written-send_locked :
    (flags : ℕ) (c : Conn.TcpConn) → written (Conn.send_locked flags [] c) ≡ written c
written-send_locked flags c =
    rw (sent-send_locked flags [] c, send_locked-snd_buf flags [] c, append-nil (data_sent c.sent))

written-send_chunk : (c : Conn.TcpConn) → written (Conn.send_chunk c) ≡ written c
unfolding Conn.send_chunk
written-send_chunk c =
    let n = Conn.chunk c in
    let c' = record c { snd_buf = drop n c.snd_buf } in
    rw (sent-send_locked 0 (take n c.snd_buf) c', send_locked-snd_buf 0 (take n c.snd_buf) c')
      (rw (append_assoc (data_sent c.sent) (take n c.snd_buf) (drop n c.snd_buf))
        (rw (take-append-drop n c.snd_buf)))

pub written-flush : (c : Conn.TcpConn) → written (Conn.flush c) ≡ written c
written-flush c =
    Flush.flush_inv (λ d. written d ≡ written c) (λ d e h. written-send_chunk d ∙ h) c refl

written-send_fin : (s : Conn.TcpState) (c : Conn.TcpConn) → written (Conn.send_fin s c) ≡ written c
unfolding Conn.send_fin
written-send_fin Conn.established c = written-send_locked 1 (record c { state = Conn.fin_wait })
written-send_fin Conn.close_wait c = written-send_locked 1 (record c { state = Conn.last_ack })
written-send_fin _ c = refl

pub written-try_send_fin : (c : Conn.TcpConn) → written (Conn.try_send_fin c) ≡ written c
unfolding Conn.try_send_fin
written-try_send_fin c = ground (arith, written-send_fin c.state c)

written-take_ack : (seg : TcpSegment) (c : Conn.TcpConn) → written (Conn.take_ack seg c) ≡ written c
unfolding Conn.take_ack
written-take_ack seg c = grind (arith, written-try_send_fin, written-flush)

written-ack_step : (seg : TcpSegment) (c : Conn.TcpConn) → written (Conn.ack_step seg c) ≡ written c
unfolding Conn.ack_step
written-ack_step seg c = ground (arith, written-take_ack seg c)

written-take_payload :
    (seg : TcpSegment) (c : Conn.TcpConn) → written (Conn.take_payload seg c) ≡ written c
unfolding Conn.take_payload
written-take_payload seg c = grind (arith, written-send_locked)

written-ack_fin : (c : Conn.TcpConn) → written (Conn.ack_fin c) ≡ written c
unfolding Conn.ack_fin
written-ack_fin c = grind (arith, written-send_locked)

written-on_state :
    (s : Conn.TcpState) (seg : TcpSegment) (c : Conn.TcpConn)
    → written (Conn.on_state s seg c) ≡ written c
unfolding Conn.on_state
written-on_state Conn.listen seg c = grind (arith, written-send_locked)
written-on_state Conn.syn_sent seg c = grind (arith, written-send_locked, written-flush)
written-on_state Conn.established seg c = grind (arith, written-take_payload, written-ack_fin)
written-on_state Conn.fin_wait seg c = grind (arith, written-take_payload, written-ack_fin)
written-on_state _ seg c = ground arith

written-deliver_late :
    (seg : TcpSegment) (c : Conn.TcpConn) → written (Conn.deliver_late seg c) ≡ written c
unfolding Conn.deliver_late
written-deliver_late seg c = grind (arith, written-take_payload)

-- No inbound segment adds to the stream, drops from it or reorders it.
pub written-handle : (seg : TcpSegment) (c : Conn.TcpConn) → written (Conn.handle seg c) ≡ written c
unfolding Conn.handle
written-handle seg c = grind (arith, written-deliver_late, written-on_state, written-ack_step)

-- The bytes that a write queued, by its result.
abbrev pub accepted : List ℕ → Option ℕ → List ℕ
accepted bytes none = []
accepted bytes (some n) = bytes

-- A write that is accepted adds its bytes at the end; one that is refused changes nothing.
pub written-write :
    (bytes : List ℕ) (c : Conn.TcpConn)
    → let (c', n) = Conn.write bytes c in written c' ≡ written c ++ accepted bytes n
unfolding Conn.write
written-write bytes c =
    grind (
      arith,
      written-flush,
      append-nil (written c),
      append_assoc (data_sent c.sent) c.snd_buf bytes,
    )

written-close_in :
    (s : Conn.TcpState) (c : Conn.TcpConn) → written (Conn.close_in s c).0 ≡ written c
unfolding Conn.close_in
written-close_in Conn.established c = grind (arith, written-try_send_fin, written-flush)
written-close_in Conn.close_wait c = grind (arith, written-try_send_fin)
written-close_in _ c = refl

-- What can happen to a connection.
pub data Call : Type 0 where
  write_call : List ℕ → Call
  close_call : Call
  recv_call : ℕ → Call
  segment_call : TcpSegment → Call

unfoldable pub step : Call → Conn.TcpConn → Conn.TcpConn
step (write_call bytes) c = (Conn.write bytes c).0
step close_call c = (Conn.close c).0
step (recv_call n) c = (Conn.recv n c).0
step (segment_call seg) c = Conn.handle seg c

unfoldable pub run : List Call → Conn.TcpConn → Conn.TcpConn
run [] c = c
run (k ∷ ks) c = run ks (step k c)

-- The bytes of the writes that the connection accepted.
unfoldable pub call_bytes : Call → Conn.TcpConn → List ℕ
call_bytes (write_call bytes) c = accepted bytes (Conn.write bytes c).1
call_bytes _ c = []

unfoldable pub accepted_bytes : List Call → Conn.TcpConn → List ℕ
accepted_bytes [] c = []
accepted_bytes (k ∷ ks) c = call_bytes k c ++ accepted_bytes ks (step k c)

written-step : (k : Call) (c : Conn.TcpConn) → written (step k c) ≡ written c ++ call_bytes k c
unfolding step call_bytes Conn.recv Conn.close
written-step (write_call bytes) c = written-write bytes c
written-step close_call c = written-close_in c.state c ∙ sym (append-nil (written c))
written-step (recv_call n) c = sym (append-nil (written c))
written-step (segment_call seg) c = written-handle seg c ∙ sym (append-nil (written c))

-- Over any sequence of writes, closes, reads and inbound segments, the payloads sent so far,
-- followed by the send buffer, are what they were, followed by the bytes of the accepted writes in
-- order: the connection neither loses, repeats nor reorders a byte.
pub written-run :
    (ks : List Call) (c : Conn.TcpConn) → written (run ks c) ≡ written c ++ accepted_bytes ks c
unfolding run accepted_bytes
written-run [] c = sym (append-nil (written c))
written-run (k ∷ ks) c =
    written-run ks (step k c)
    ∙ ap (λ (l : List ℕ). l ++ accepted_bytes ks (step k c)) (written-step k c)
    ∙ append_assoc (written c) (call_bytes k c) (accepted_bytes ks (step k c))
