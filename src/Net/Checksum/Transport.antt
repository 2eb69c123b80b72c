-- ===== src/Net/Checksum/Transport.antt =====
-- A segment that carries its transport checksum is accepted by a receiver that sums it with the
-- same pseudo-header.
use mkgo.Common.{
  ℕ, ◌+◌, ◌%◌, ◌<◌, ◌≡◌, arith, List, [], ◌∷◌, ◌++◌, length, ◌==◌, Bool-cases, inl, inr, false,
}
use mkgo.Common.Bytes.{IsByte}
use mkgo.Net.Base.{Ip4, IsIp4}
use mkgo.Net.Checksum.{checksum, pseudo_header, pad_even, transport_checksum}
use mkgo.Net.Checksum.Laws.{word_sum, checksum_verifies}

-- The zero byte that completes the last word adds nothing.
word_sum-append_zero :
    (b : List ℕ) → (length b % 2 == 0) ≡ false → word_sum (b ++ 0 ∷ []) ≡ word_sum b
word_sum-append_zero [] h = cc
word_sum-append_zero (hi ∷ []) h = omega arith
word_sum-append_zero (hi ∷ lo ∷ b) h =
    let odd : (length b % 2 == 0) ≡ false = ground arith in
    omega (arith, word_sum-append_zero b odd)

word_sum-pad_even : (b : List ℕ) → word_sum (pad_even b) ≡ word_sum b
word_sum-pad_even b = elim (Bool-cases (length b % 2 == 0)) [
  | inl e ↦ rw e
  | inr e ↦ rw e (word_sum-append_zero b e)
]

-- Whoever adds the transport checksum of `seg` to its words gets a segment that sums to zero.
pub transport_verifies :
    (src dst : Ip4) (proto : ℕ) (seg seg' : List ℕ)
    → length seg' ≡ length seg
    → word_sum seg + 2000000 < 4294967296
    → IsIp4 src
    → IsIp4 dst
    → IsByte proto
    → word_sum seg' ≡ word_sum seg + transport_checksum src dst proto seg
    → transport_checksum src dst proto seg' ≡ 0
unfolding transport_checksum checksum
transport_verifies src dst proto seg seg' len fits hs hd hp e =
    let head = pseudo_header src dst proto (length seg % 65536) in
    let head' = pseudo_header src dst proto (length seg' % 65536) in
    let padded : word_sum (pad_even (head ++ seg)) ≡ word_sum (head ++ seg) =
      word_sum-pad_even (head ++ seg) in
    let padded' : word_sum (pad_even (head' ++ seg')) ≡ word_sum (head' ++ seg') =
      word_sum-pad_even (head' ++ seg') in
    checksum_verifies (pad_even (head ++ seg)) (pad_even (head' ++ seg')) (omega arith)
      (omega arith)

pub transport_checksum-lt :
    (src dst : Ip4) (proto : ℕ) (seg : List ℕ) → transport_checksum src dst proto seg < 65536
unfolding transport_checksum
transport_checksum-lt src dst proto seg = omega arith
