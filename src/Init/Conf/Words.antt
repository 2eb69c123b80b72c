-- ===== src/Init/Conf/Words.antt =====
-- Words, lines and hexadecimal numbers under the readers of `ParseConf`.
use mkgo.Common.{
  ℕ, zero, suc, ◌+◌, ◌*◌, ◌/◌, ◌%◌, ◌<◌, ◌≡◌, refl, ◌∙◌, arith, Bool-cases, inl, inr, ◌-◌, ◌≤◌,
  true, false, List, [], ◌∷◌, ◌++◌, All, ltb, ◌==◌, if◌then◌else◌, Option, none, some,
}
use mathlib.Core.List.{append_assoc, append-nil}
use mkgo.Init.Conf.{
  is_space, is_space2, is_space3, space_len, no_bytes, split_lines, trim_left, trim_right,
  close_word, fields_from, hex_digit, hex_step, and_value, hex_loop,
}

-- A hexadecimal digit, and `n` of them.
abbrev pub digit : ℕ → ℕ
digit d = if ltb d 10 then d + 48 else d + 87

unfoldable pub hex : ℕ → ℕ → List ℕ
hex zero v = []
hex (suc n) v = hex n (v / 16) ++ digit (v % 16) ∷ []

abbrev pub limit : ℕ → ℕ
limit zero = 1
limit (suc n) = 16 * limit n

pub and_value_assoc :
    (f g h : ℕ → Option ℕ) (o : Option ℕ)
    → ((v : ℕ) → f v ≡ and_value (g v) h)
    → and_value o f ≡ and_value (and_value o g) h
and_value_assoc f g h none k = refl
and_value_assoc f g h (some v) k = k v

pub hex_loop-append :
    (acc : ℕ) (s t : List ℕ)
    → hex_loop acc (s ++ t) ≡ and_value (hex_loop acc s) (λ v. hex_loop v t)
unfolding hex_loop
hex_loop-append acc [] t = refl
hex_loop-append acc (c ∷ s) t =
    and_value_assoc _ (λ v. hex_loop v s) (λ v. hex_loop v t) (hex_step (hex_digit c) acc)
      (λ v. hex_loop-append v s t)

pub hex_digit-digit : (d : ℕ) → d < 16 → hex_digit (digit d) ≡ some d
unfolding hex_digit
hex_digit-digit d h = ground arith

pub hex_loop-hex :
    (n v : ℕ) → v < limit n → v < 18446744073709551616 → hex_loop 0 (hex n v) ≡ some v
unfolding hex_loop hex
hex_loop-hex zero v h b = ground arith
hex_loop-hex (suc n) v h b =
    let ih = hex_loop-hex n (v / 16) (omega arith) (omega arith) in
    let d = hex_digit-digit (v % 16) (omega arith) in
    let value : v / 16 * 16 + v % 16 ≡ v = omega arith in
    let fits : ltb v 18446744073709551616 ≡ true = ground arith in
    hex_loop-append 0 (hex n (v / 16)) (digit (v % 16) ∷ []) ∙ rw (ih, d, value, fits) refl

-- A word has a byte, and no white space in any place.
abbrev pub NoSpace : List ℕ → Type 0
NoSpace [] = Unit
NoSpace (c ∷ s) = (space_len (c ∷ s) ≡ 0) × NoSpace s

abbrev pub IsWord : List ℕ → Type 0
IsWord w = NoSpace w × (no_bytes w ≡ false)

-- A space behind a text does not change what it begins with.
pub space_len-append :
    (c : ℕ) (w s : List ℕ) → space_len (c ∷ w) ≡ 0 → space_len (c ∷ (w ++ 32 ∷ s)) ≡ 0
unfolding space_len
space_len-append c [] [] h = ground arith
space_len-append c [] (x ∷ s) h = ground arith
space_len-append c (d ∷ []) s h = ground arith
space_len-append c (d ∷ x ∷ w) s h = h

pub All-append : (P : ℕ → Type 0) (l k : List ℕ) → All P l → All P k → All P (l ++ k)
All-append P [] k h g = g
All-append P (a ∷ l) k (h, hs) g = (h, All-append P l k hs g)

space_len-space : (s : List ℕ) → space_len (32 ∷ s) ≡ 1
unfolding space_len
space_len-space [] = refl
space_len-space (c ∷ []) = refl
space_len-space (c ∷ d ∷ s) = refl

pub fields_from-word :
    (word w s : List ℕ)
    → NoSpace w
    → fields_from 0 word (w ++ 32 ∷ s) ≡ close_word (word ++ w) (fields_from 0 [] s)
unfolding fields_from
fields_from-word word [] s h = rw (append-nil word, space_len-space s) refl
fields_from-word word (c ∷ w) s (hc, h) =
    rw (space_len-append c w s hc)
      (fields_from-word (word ++ c ∷ []) w s h ∙ rw (append_assoc word (c ∷ []) w) refl)

pub fields_from-last :
    (word w : List ℕ) → NoSpace w → fields_from 0 word w ≡ close_word (word ++ w) []
unfolding fields_from
fields_from-last word [] h = rw (append-nil word) refl
fields_from-last word (c ∷ w) (hc, h) =
    rw hc (fields_from-last (word ++ c ∷ []) w h ∙ rw (append_assoc word (c ∷ []) w) refl)

pub close_word-word : (w : List ℕ) (rest : List (List ℕ)) → IsWord w → close_word w rest ≡ w ∷ rest
close_word-word [] rest (h, n) = cc
close_word-word (c ∷ w) rest h = refl

-- The last byte is of ASCII, and no white space.
abbrev pub Solid : List ℕ → Type 0
Solid [] = ⊥
Solid (c ∷ []) = (is_space c ≡ false) × (c < 128)
Solid (c ∷ d ∷ s) = Solid (d ∷ s)

-- The first `n` bytes, as far as there are some, are continuation bytes.
abbrev Continues : ℕ → List ℕ → Type 0
Continues n [] = Unit
Continues zero (c ∷ s) = Unit
Continues (suc n) (c ∷ s) = (128 ≤ c) × Continues n s

Continues-zero : (s : List ℕ) → Continues 0 s
Continues-zero [] = tt
Continues-zero (c ∷ s) = tt

-- White space of more than one byte consists of continuation bytes behind the first.
space_len-Continues : (c : ℕ) (s : List ℕ) → Continues (space_len (c ∷ s) - 1) s
unfolding space_len
space_len-Continues c [] = tt
space_len-Continues c (d ∷ []) = elim (Bool-cases (is_space c)) [
  | inl one ↦ rw one tt
  | inr more ↦ elim (Bool-cases (is_space2 c d)) [
    | inl two ↦ rw (more, two) (ground arith, tt)
    | inr none_ ↦ rw (more, none_) tt
  ]
]
space_len-Continues c (d ∷ x ∷ s) = elim (Bool-cases (is_space c)) [
  | inl one ↦ rw one tt
  | inr more ↦ elim (Bool-cases (is_space2 c d)) [
    | inl two ↦ rw (more, two) (ground arith, tt)
    | inr no_two ↦ elim (Bool-cases (is_space3 c d x)) [
      | inl three ↦ rw (more, no_two, three) (ground arith, (ground arith, Continues-zero s))
      | inr none_ ↦ rw (more, no_two, none_) tt
    ]
  ]
]

-- A byte of ASCII that is no space is no white space, whatever follows.
pub space_len-plain : (c : ℕ) (s : List ℕ) → is_space c ≡ false → c < 128 → space_len (c ∷ s) ≡ 0
unfolding space_len
space_len-plain c [] h p = rw h refl
space_len-plain c (d ∷ []) h p = let two : is_space2 c d ≡ false = ground arith in rw (h, two) refl
space_len-plain c (d ∷ x ∷ s) h p =
    let two : is_space2 c d ≡ false = ground arith in
    let three : is_space3 c d x ≡ false = ground arith in rw (h, two, three) refl

-- So a text of such bytes has no white space.
pub plain-NoSpace : (w : List ℕ) → All (λ c. (is_space c ≡ false) × (c < 128)) w → NoSpace w
plain-NoSpace [] h = tt
plain-NoSpace (c ∷ w) ((hc, small), h) = (space_len-plain c w hc small, plain-NoSpace w h)

not_feed : (c : ℕ) (s : List ℕ) → space_len (c ∷ s) ≡ 0 → (c == 10) ≡ false
unfolding space_len
not_feed c [] h = ground arith
not_feed c (d ∷ []) h = ground arith
not_feed c (d ∷ x ∷ s) h = ground arith

pub no_feed : (w : List ℕ) → NoSpace w → All (λ c. c == 10 ≡ false) w
no_feed [] h = tt
no_feed (c ∷ w) (hc, h) = (not_feed c w hc, no_feed w h)

space_len-one : (c : ℕ) → is_space c ≡ false → space_len (c ∷ []) ≡ 0
unfolding space_len
space_len-one c h = rw h refl

trim_left-Solid :
    (skip : ℕ) (l : List ℕ) → Solid l → Continues skip l → no_bytes (trim_left skip l) ≡ false
unfolding trim_left
trim_left-Solid skip [] h p = absurd h
trim_left-Solid (suc skip) (c ∷ []) h p = absurd (omega (arith, h.1, p.0))
trim_left-Solid (suc skip) (c ∷ d ∷ s) h p = trim_left-Solid skip (d ∷ s) h p.1
trim_left-Solid zero (c ∷ []) h p = rw (space_len-one c h.0) refl
trim_left-Solid zero (c ∷ d ∷ s) h p = elim (Bool-cases (space_len (c ∷ d ∷ s) == 0)) [
  | inl solid ↦ rw solid refl
  | inr white ↦ rw white (trim_left-Solid _ (d ∷ s) h (space_len-Continues c (d ∷ s)))
]

pub trim_right-Solid : (l : List ℕ) → Solid l → trim_right l ≡ l
unfolding trim_right
trim_right-Solid [] h = absurd h
trim_right-Solid (c ∷ []) h = rw (trim_left-Solid 0 (c ∷ []) h tt) refl
trim_right-Solid (c ∷ d ∷ s) h =
    rw (trim_left-Solid 0 (c ∷ d ∷ s) h tt, trim_right-Solid (d ∷ s) h) refl

pub Solid-append : (s t : List ℕ) → Solid t → Solid (s ++ t)
Solid-append [] t h = h
Solid-append (c ∷ []) (d ∷ t) h = h
Solid-append (c ∷ []) [] h = absurd h
Solid-append (c ∷ d ∷ s) t h = Solid-append (d ∷ s) t h

pub split_lines-line :
    (l s : List ℕ) → All (λ c. c == 10 ≡ false) l → split_lines (l ++ 10 ∷ s) ≡ l ∷ split_lines s
unfolding split_lines
split_lines-line [] s h = refl
split_lines-line (c ∷ l) s (hc, h) = rw (hc, split_lines-line l s h) refl
