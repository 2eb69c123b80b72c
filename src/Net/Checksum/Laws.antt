-- ===== src/Net/Checksum/Laws.antt =====
-- The fold ends below 2^16 and keeps the sum modulo 65535, so a packet that carries its own
-- checksum sums to zero.
use mkgo.Common.{
  ℕ, zero, suc, ◌+◌, ◌-◌, ◌*◌, ◌/◌, ◌%◌, ◌<◌, ◌≤◌, ◌≡◌, refl, ◌∙◌, arith, List, [], ◌∷◌, length,
  All,
}
use mkgo.Common.Bytes.{IsByte}
use mkgo.Net.Checksum.{sum_words, fold_loop, fold_sum, checksum}

-- One round keeps the sum modulo 65535 and never makes a zero of anything else.
fold_loop-mod : (fuel sum : ℕ) → fold_loop fuel sum % 65535 ≡ sum % 65535
unfolding fold_loop
fold_loop-mod zero sum = refl
fold_loop-mod (suc fuel) sum = ground (arith, fold_loop-mod fuel (sum % 65536 + sum / 65536))

pub fold_sum-lt : (sum : ℕ) → sum < 4294967296 → fold_sum sum < 65536
unfolding fold_sum
fold_sum-lt sum h = ground arith

fold_loop-pos : (fuel sum : ℕ) → 0 < sum → 0 < fold_loop fuel sum
unfolding fold_loop
fold_loop-pos zero sum h = h
fold_loop-pos (suc fuel) sum h = ground (arith, fold_loop-pos fuel (sum % 65536 + sum / 65536))

pub fold_sum-mod : (sum : ℕ) → fold_sum sum % 65535 ≡ sum % 65535
unfolding fold_sum
fold_sum-mod sum = unfold fold_sum in fold_loop-mod 3 sum

pub fold_sum-pos : (sum : ℕ) → 0 < sum → 0 < fold_sum sum
fold_sum-pos sum h = unfold fold_sum in fold_loop-pos 3 sum h

-- Adding the complement of the folded sum gives a sum that folds to all ones.
pub fold_sum-complement :
    (sum : ℕ) → sum + 65535 < 4294967296 → fold_sum (sum + (65535 - fold_sum sum)) ≡ 65535
unfolding fold_sum
fold_sum-complement zero h = refl
fold_sum-complement (suc n) h =
    let sum = suc n in
    let total = sum + (65535 - fold_sum sum) in
    omega (
      arith,
      fold_sum-lt sum (omega arith),
      fold_sum-mod sum,
      fold_sum-lt total (omega arith),
      fold_sum-mod total,
      fold_sum-pos total (omega arith),
    )

-- The sum of the words with no wrap-around.
abbrev pub word_sum : List ℕ → ℕ
word_sum [] = 0
word_sum (hi ∷ []) = hi * 256
word_sum (hi ∷ lo ∷ b) = hi * 256 + lo + word_sum b

pub sum_words-word_sum :
    (sum : ℕ) (b : List ℕ) → sum + word_sum b < 4294967296 → sum_words sum b ≡ sum + word_sum b
unfolding sum_words
sum_words-word_sum sum [] h = omega arith
sum_words-word_sum sum (hi ∷ []) h = omega arith
sum_words-word_sum sum (hi ∷ lo ∷ b) h =
    omega (arith, sum_words-word_sum ((sum + (hi * 256 + lo)) % 4294967296) b (omega arith))

-- A list of bytes sums to less than 2^16 for each word.
pub word_sum-le : (b : List ℕ) → All IsByte b → 2 * word_sum b ≤ 65535 * (length b + 1)
word_sum-le [] h = omega arith
word_sum-le (hi ∷ []) h = omega arith
word_sum-le (hi ∷ lo ∷ b) h = omega (arith, word_sum-le b h.1.1)

pub checksum-lt : (b : List ℕ) → checksum b < 65536
unfolding checksum
checksum-lt b = omega arith

-- When the words of a packet sum to less than 2^32 - 65535, a packet whose words sum to as much
-- and the checksum of the first one has the checksum zero.
pub checksum_verifies :
    (b b' : List ℕ)
    → word_sum b + 65535 < 4294967296
    → word_sum b' ≡ word_sum b + checksum b
    → checksum b' ≡ 0
unfolding checksum
checksum_verifies b b' h e =
    let sum = word_sum b in
    let own : sum_words 0 b ≡ sum = sum_words-word_sum 0 b (omega arith) ∙ omega arith in
    let kept : word_sum b' ≡ sum + (65535 - fold_sum sum) =
      e ∙ rw own (omega (arith, fold_sum-lt sum (omega arith))) in
    let other : sum_words 0 b' ≡ word_sum b' =
      sum_words-word_sum 0 b' (omega arith) ∙ omega arith in
    rw (other, kept) (omega (arith, fold_sum-complement sum h))
