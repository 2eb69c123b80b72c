-- ===== src/Net/Tcp/Invariant.antt =====
-- What holds of every connection between two calls, from `Dial` and `Listen` on.
pub mod Steps
use mathlib.Core.List.{append-nil}
use mkgo.Common.{
  ℕ, zero, suc, ◌+◌, ◌-◌, ◌<◌, ◌≤◌, ◌≡◌, ◌≢◌, refl, sym, ap, ◌∙◌, arith, List, [], ◌∷◌, ◌++◌,
  length, length-append, length-take, length-drop, take, drop, Bool, true, false, Bool-cases, inl,
  inr, if◌then◌else◌, Option, none, some, ◌==◌, ltb, leb, not, ◌||◌,
}
use mkgo.Net.Tcp.Segment.{TcpSegment, has, tcp_fin, sub32}
use mkgo.Net.Tcp.Conn.{
  TcpConn, TcpState, closed, listen, syn_sent, syn_rcvd, established, fin_wait, close_wait,
  last_ack, tcp_window_cap, is_empty, send_locked, send_chunk, chunk, can_send, flush, write,
  send_fin, try_send_fin, close_in, close, ack_moves, is_established, ack_step, take_ack,
  take_payload, ack_fin, on_state, deliver_late, handle, recv, remote_closed, conn_reset,
  finish_close, on_established, on_fin_wait, on_last_ack, fin_in_order,
}
use mkgo.Net.Tcp.Conn.Flush.{flush_inv, chunk_bounds}
use mkgo.Net.Tcp.Stream.{Call, write_call, close_call, recv_call, segment_call, step, run}

-- The states in which our FIN is out.
abbrev pub fin_out : TcpState → Bool
fin_out fin_wait = true
fin_out last_ack = true
fin_out closed = true
fin_out _ = false

-- The states before the handshake is over.
abbrev pub opening : TcpState → Bool
opening listen = true
opening syn_sent = true
opening syn_rcvd = true
opening _ = false

abbrev pub is_closing : TcpState → Bool
is_closing fin_wait = true
is_closing last_ack = true
is_closing _ = false

pub record Inv (c : TcpConn) : Type 0 where
  pub window : length c.in_flight ≤ tcp_window_cap
  pub fin_late : c.fin_sent ≡ true → fin_out c.state ≡ true
  pub fin_last : c.fin_sent ≡ true → is_empty c.snd_buf ≡ true
  pub fin_alone : c.fin_sent ≡ true → is_empty c.in_flight ≡ true
  pub closing_fin : is_closing c.state ≡ true → c.fin_sent ≡ true
  pub opening_idle : opening c.state ≡ true → is_empty c.snd_buf ≡ true
  pub opening_open : opening c.state ≡ true → c.fin_pending ≡ false

length-in_flight-send_chunk :
    (c : TcpConn) → can_send c ≡ true → length (send_chunk c).in_flight ≤ tcp_window_cap
unfolding send_chunk send_locked
length-in_flight-send_chunk c e = omega (
  arith,
  chunk_bounds c e,
  length-append c.in_flight (take (chunk c) c.snd_buf),
  length-take (chunk c) c.snd_buf,
)

send_chunk-Inv : (c : TcpConn) → can_send c ≡ true → Inv c → Inv (send_chunk c)
send_chunk-Inv c e h =
    let w = length-in_flight-send_chunk c e in unfold send_chunk send_locked in ground (arith, w)

pub flush-Inv : (c : TcpConn) → Inv c → Inv (flush c)
flush-Inv = flush_inv Inv send_chunk-Inv

-- A segment without payload and without FIN.
pub send_locked-Inv :
    (flags : ℕ) (c : TcpConn) → has flags tcp_fin ≡ false → Inv c → Inv (send_locked flags [] c)
unfolding send_locked
send_locked-Inv flags c e h = ground (arith, append-nil c.in_flight)

-- Our FIN goes out when nothing is queued or unacknowledged.
send_fin-Inv :
    (s : TcpState) (c : TcpConn)
    → s ≡ c.state
    → is_empty c.snd_buf ≡ true
    → is_empty c.in_flight ≡ true
    → Inv c
    → Inv (send_fin s c)
unfolding send_fin send_locked
send_fin-Inv established c e b f h = ground (arith, append-nil c.in_flight)
send_fin-Inv close_wait c e b f h = ground (arith, append-nil c.in_flight)
send_fin-Inv _ c e b f h = h

pub try_send_fin-Inv : (c : TcpConn) → Inv c → Inv (try_send_fin c)
unfolding try_send_fin
try_send_fin-Inv c h = ground (arith, send_fin-Inv c.state c refl)

is_empty-drop : (n : ℕ) (xs : List ℕ) → is_empty xs ≡ true → is_empty (drop n xs) ≡ true
is_empty-drop zero xs e = e
is_empty-drop (suc n) [] e = refl
is_empty-drop (suc n) (x ∷ xs) e = cc

-- Both branches keep the invariant.
pub if-Inv : (b : Bool) (c d : TcpConn) → Inv c → Inv d → Inv (if b then c else d)
if-Inv true c d h k = h
if-Inv false c d h k = k

acked-Inv :
    (c : TcpConn) (n una : ℕ) (b : Bool)
    → Inv c
    → Inv (record c { in_flight = if b then [] else drop n c.in_flight; snd_una = una })
acked-Inv c n una true h = ground (arith, h)
acked-Inv c n una false h =
    ground (arith, h, length-drop n c.in_flight, is_empty-drop n c.in_flight)

take_ack-Inv : (seg : TcpSegment) (c : TcpConn) → Inv c → Inv (take_ack seg c)
unfolding take_ack
take_ack-Inv seg c h =
    let acked = sub32 seg.ack c.snd_una in
    let k = acked-Inv c acked seg.ack (leb (length c.in_flight) acked) h in
    if-Inv (ltb 0 acked) _ c
      (try_send_fin-Inv _ (if-Inv (is_established c.state) _ _ (flush-Inv _ k) k)) h

pub ack_step-Inv : (seg : TcpSegment) (c : TcpConn) → Inv c → Inv (ack_step seg c)
unfolding ack_step
ack_step-Inv seg c h = if-Inv (ack_moves seg c) _ c (take_ack-Inv seg c h) h

-- The receiving side is free to change.
pub received-Inv :
    (c : TcpConn) (b : List ℕ) (n : ℕ) → Inv c → Inv (record c { rcv_buf = b; rcv_nxt = n })
received-Inv c b n h = ground (arith, h)

pub take_payload-Inv : (seg : TcpSegment) (c : TcpConn) → Inv c → Inv (take_payload seg c)
unfolding take_payload
take_payload-Inv seg c h = if-Inv _ _ c (send_locked-Inv 16 _ refl (received-Inv c _ _ h)) h

pub ack_fin-Inv : (c : TcpConn) → Inv c → Inv (ack_fin c)
unfolding ack_fin
ack_fin-Inv c h = send_locked-Inv 16 _ refl (received-Inv c c.rcv_buf _ h)
