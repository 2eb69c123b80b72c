-- ===== src/Net/Tcp/Conn/Flush.antt =====
-- The loop of `flushLocked`: its invariant rule, its end, and the size of what it sends.
use mkgo.Common.{
  ℕ, zero, suc, ◌+◌, ◌-◌, ◌<◌, ◌≤◌, ◌≡◌, refl, arith, List, [], ◌∷◌, length, length-drop, take_all,
  drop, ◌∙◌, true, false, Bool-cases, inl, inr,
}
use mkgo.Net.Tcp.Conn.{
  TcpConn, tcp_max_seg, tcp_window_cap, chunk, can_send, send_locked, send_chunk, flush_loop, flush,
  established,
}

flush_loop-more :
    (fuel : ℕ) (c : TcpConn)
    → can_send c ≡ true
    → flush_loop (suc fuel) c ≡ flush_loop fuel (send_chunk c)
unfolding flush_loop
flush_loop-more fuel c e = rw (e, flush_loop)

flush_loop-end : (fuel : ℕ) (c : TcpConn) → can_send c ≡ false → flush_loop (suc fuel) c ≡ c
unfolding flush_loop
flush_loop-end fuel c e = rw (e, flush_loop)

flush_loop_inv {ℓ} :
    (P : TcpConn → Type ℓ)
    → ((c : TcpConn) → can_send c ≡ true → P c → P (send_chunk c))
    → (fuel : ℕ) (c : TcpConn) → P c
    → P (flush_loop fuel c)
flush_loop_inv P keep zero c h = unfold flush_loop in h
flush_loop_inv P keep (suc fuel) c h = elim (Bool-cases (can_send c)) [
  | inl e ↦ rw (flush_loop-more fuel c e) (flush_loop_inv P keep fuel (send_chunk c) (keep c e h))
  | inr e ↦ rw (flush_loop-end fuel c e) h
]

-- What every round keeps, the loop keeps.
pub flush_inv {ℓ} :
    (P : TcpConn → Type ℓ)
    → ((c : TcpConn) → can_send c ≡ true → P c → P (send_chunk c))
    → (c : TcpConn) → P c
    → P (flush c)
unfolding flush
flush_inv P keep c h = flush_loop_inv P keep (length c.snd_buf) c h

-- A round sends at least one byte, at most a segment, and no more than the window and the buffer
-- hold.
pub chunk_bounds :
    (c : TcpConn)
    → can_send c ≡ true
    → (1 ≤ chunk c)
      × (chunk c ≤ tcp_max_seg)
      × (chunk c ≤ length c.snd_buf)
      × (length c.in_flight + chunk c ≤ tcp_window_cap)
chunk_bounds c e = ground arith

length-snd_buf-send_chunk :
    (c : TcpConn) → length (send_chunk c).snd_buf ≡ length c.snd_buf - chunk c
unfolding send_chunk
length-snd_buf-send_chunk c = unfold send_locked in length-drop (chunk c) c.snd_buf

can_send-nonempty : (c : TcpConn) → can_send c ≡ true → 0 < length c.snd_buf
can_send-nonempty c e = ground arith

flush_loop_done :
    (fuel : ℕ) (c : TcpConn) → length c.snd_buf ≤ fuel → can_send (flush_loop fuel c) ≡ false
flush_loop_done zero c h = elim (Bool-cases (can_send c)) [
  | inl e ↦ absurd (omega (arith, can_send-nonempty c e))
  | inr e ↦ unfold flush_loop in e
]
flush_loop_done (suc fuel) c h = elim (Bool-cases (can_send c)) [
  | inl e ↦ rw (flush_loop-more fuel c e) (
      flush_loop_done fuel (send_chunk c)
        (omega (arith, chunk_bounds c e, length-snd_buf-send_chunk c)))
  | inr e ↦ rw (flush_loop-end fuel c e) e
]

-- The loop of `flushLocked` ends by its own test: afterwards the connection is not established,
-- nothing waits, or the window is full.
pub flush_done : (c : TcpConn) → can_send (flush c) ≡ false
unfolding flush
flush_done c = flush_loop_done (length c.snd_buf) c (omega arith)

flush_loop_idle : (fuel : ℕ) (c : TcpConn) → can_send c ≡ false → flush_loop fuel c ≡ c
flush_loop_idle zero c e = unfold flush_loop in refl
flush_loop_idle (suc fuel) c e = flush_loop-end fuel c e

drop_all : (n : ℕ) (xs : List ℕ) → length xs ≤ n → drop n xs ≡ []
drop_all zero [] h = refl
drop_all zero (x ∷ xs) h = absurd (omega arith)
drop_all (suc n) [] h = refl
drop_all (suc n) (x ∷ xs) h = drop_all n xs (omega arith)

chunk_whole :
    (c : TcpConn)
    → length c.snd_buf ≤ tcp_max_seg
    → length c.in_flight + length c.snd_buf ≤ tcp_window_cap
    → chunk c ≡ length c.snd_buf
chunk_whole c h fits = ground arith

send_chunk_whole :
    (c : TcpConn)
    → length c.snd_buf ≤ tcp_max_seg
    → length c.in_flight + length c.snd_buf ≤ tcp_window_cap
    → send_chunk c ≡ send_locked 0 c.snd_buf (record c { snd_buf = [] })
unfolding send_chunk
send_chunk_whole c h fits =
    rw (chunk_whole c h fits, take_all (length c.snd_buf) c.snd_buf (omega arith))
      (rw (drop_all (length c.snd_buf) c.snd_buf (omega arith)))

sent_all : (c : TcpConn) → can_send (send_locked 0 c.snd_buf (record c { snd_buf = [] })) ≡ false
unfolding send_locked
sent_all c = ground arith

-- On an established connection, a send buffer that is not empty and fits in one segment and in the
-- window goes out in one segment.
pub flush_once :
    (c : TcpConn)
    → c.state ≡ established
    → 0 < length c.snd_buf
    → length c.snd_buf ≤ tcp_max_seg
    → length c.in_flight + length c.snd_buf ≤ tcp_window_cap
    → flush c ≡ send_locked 0 c.snd_buf (record c { snd_buf = [] })
unfolding flush
flush_once c e p h fits =
    let ready : can_send c ≡ true = ground arith in
    let k = length c.snd_buf - 1 in
    let l : length c.snd_buf ≡ suc k = omega arith in
    let whole = send_chunk_whole c h fits in
    rw l (flush_loop-more k c ready ∙ rw whole (flush_loop_idle k _ (sent_all c)))
