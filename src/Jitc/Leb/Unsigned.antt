-- ===== src/Jitc/Leb/Unsigned.antt =====
-- The unsigned LEB128 reader: its inverse, its range and what it reads.
use mkgo.Common.{
  ℕ, zero, suc, ◌+◌, ◌*◌, ◌/◌, ◌%◌, ◌≤◌, ◌<◌, ◌≡◌, refl, ap, ◌∙◌, arith, false, ◌&&◌, List, [], ◌∷◌,
  ◌++◌, length, length-append, take-length_append, drop-length_append, ltb, leb, ◌==◌,
  if◌then◌else◌, Bool-cases, inl, inr,
}
use mathlib.Core.List.{append_assoc}
use mkgo.Jitc.Cursor.{
  overflow, Result, ok, Cursor, Parse, refuse, rest, u8, bytes, continue, Reader, >>=-eq-ok,
  >>=-Reader, refuse-Reader, if-Reader, pure-Reader, fail-Reader, u8-Reader, bytes-Reader,
  Reads-refl,
}
use mkgo.Jitc.Leb.{u32_loop, u32leb, name, vec_len, at_most_rest}

-- The unsigned LEB128 form of a number, in at most `n` bytes.
pub uleb : ℕ → ℕ → List ℕ
uleb zero v = []
uleb (suc n) v = if ltb v 128 then v ∷ [] else (128 + v % 128) ∷ uleb n (v / 128)

-- Reading `l` yields `v` and stops behind it.
abbrev pub Yields {ℓ} : {A : Type ℓ} → Parse A → List ℕ → A → Type ℓ
Yields p l v =
    (left : List ℕ) (off : ℕ)
    → p (record { left = l ++ left; off = off })
      ≡ ok (v, record { left = left; off = off + length l })

split_digit : (v p : ℕ) → v % 128 * p + v / 128 * (p * 128) ≡ v * p
split_digit v p = omega (arith, ap (λ (t : ℕ). t * p) (v_digits v))
  where
    v_digits : (v : ℕ) → v / 128 * 128 + v % 128 ≡ v
    v_digits v = omega arith

-- `n` rounds at the place `p` read every number below `k`.
Level : (n p k : ℕ) → Type 0
Level n p k = (acc v : ℕ) → v < k → Yields (u32_loop n p acc) (uleb n v) (acc + v * p)

-- The last round.
last_round : Level 1 268435456 16
unfolding Level u32_loop uleb u8
last_round acc v h left off = ground arith

-- A round before it: the rest of the number is read at the next place.
round : (n p k : ℕ) → p < 268435456 → Level n (p * 128) k → Level (suc n) p (k * 128)
unfolding Level u32_loop uleb u8
round n p k low next acc v h left off =
    let early : p == 268435456 ≡ false = ground arith in
    elim (Bool-cases (ltb v 128)) [
      | inl small ↦ let digit : v % 128 ≡ v = ground arith in rw (small, early, small, digit) refl
      | inr large ↦
          let digit : (128 + v % 128) % 128 ≡ v % 128 = omega arith in
          let more : ltb (128 + v % 128) 128 ≡ false = ground arith in
          let ih = next (acc + v % 128 * p) (v / 128) (ground arith) left (off + 1) in
          rw (large, early, more, digit, ih) (ground (arith, split_digit v p))
    ]

all_rounds : Level 5 1 4294967296
all_rounds = round 4 1 33554432 (omega arith) (
    round 3 128 262144 (omega arith)
      (round 2 16384 2048 (omega arith) (round 1 2097152 16 (omega arith) last_round)))

-- Every 32-bit number is read back from its LEB128 form, the offset moves by its length, and the
-- bytes behind it are left.
pub u32leb-uleb :
    (v : ℕ)
    → v < 4294967296
    → (left : List ℕ) (off : ℕ)
    → u32leb (record { left = uleb 5 v ++ left; off = off })
      ≡ ok (v, record { left = left; off = off + length (uleb 5 v) })
unfolding u32leb Level
u32leb-uleb v h left off = let e : 0 + v * 1 ≡ v = omega arith in all_rounds 0 v h left off ∙ rw e

u32_loop-Reader : (n p v : ℕ) → Reader (u32_loop n p v)
unfolding u32_loop
u32_loop-Reader zero p v = fail-Reader ℕ overflow refl
u32_loop-Reader (suc n) p v = >>=-Reader u8 _ u8-Reader (λ b.
    >>=-Reader (refuse (p == 268435456 && leb 16 b) overflow) _
      (refuse-Reader (p == 268435456 && leb 16 b) overflow refl)
      (λ _.
        if-Reader (ltb b 128) _ _ (pure-Reader (v + b % 128 * p))
          (u32_loop-Reader n (p * 128) (v + b % 128 * p))))

pub u32leb-Reader : Reader u32leb
unfolding u32leb
u32leb-Reader = u32_loop-Reader 5 1 0

pub name-Reader : Reader name
unfolding name
name-Reader = >>=-Reader u32leb _ u32leb-Reader bytes-Reader

at_most_rest-Reader : (n : ℕ) → Reader (at_most_rest n)
at_most_rest-Reader n c = elim (Bool-cases (ltb (rest c) n)) [
  | inl short ↦ rw short refl
  | inr enough ↦ rw enough (Reads-refl c)
]

pub vec_len-Reader : Reader vec_len
unfolding vec_len
vec_len-Reader = >>=-Reader u32leb _ u32leb-Reader at_most_rest-Reader

-- A count that was accepted is at most the number of bytes that are left.
pub vec_len-le-rest : (c : Cursor) (n : ℕ) (c' : Cursor) → vec_len c ≡ ok (n, c') → n ≤ rest c'
unfolding vec_len
vec_len-le-rest c n c' h = let (m, d, e, f) = >>=-eq-ok u32leb at_most_rest c h in ground (arith, f)

bytes_front : (s : List ℕ) → Yields (bytes (length s)) s s
unfolding bytes
bytes_front s left off =
    let room = length-append s left in
    let enough : ltb (length (s ++ left)) (length s) ≡ false = ground (arith, room) in
    rw (enough, take-length_append s left, drop-length_append s left) refl

-- A name of fewer than 2 ^ 32 bytes is read back from its length in LEB128 and its bytes, and the
-- bytes behind it are left.
pub name-uleb :
    (s : List ℕ)
    → length s < 4294967296
    → (left : List ℕ) (off : ℕ)
    → name (record { left = (uleb 5 (length s) ++ s) ++ left; off = off })
      ≡ ok (s, record { left = left; off = off + length (uleb 5 (length s) ++ s) })
unfolding name
name-uleb s h left off =
    let l = uleb 5 (length s) in
    let flat : ◌≡◌ {A = Cursor} (record { left = (l ++ s) ++ left; off = off })
        (record { left = l ++ (s ++ left); off = off }) =
      ap (λ (t : List ℕ). (let c : Cursor = record { left = t; off = off } in c))
        (append_assoc l s left) in
    let first = u32leb-uleb (length s) h (s ++ left) off in
    let second = bytes_front s left (off + length l) in
    let len : off + length l + length s ≡ off + length (l ++ s) =
      omega (arith, length-append l s) in
    ap name flat ∙ ap (λ (r : Result (ℕ × Cursor)). continue r bytes) first ∙ second ∙ rw len
