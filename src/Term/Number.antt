-- ===== src/Term/Number.antt =====
-- The parameters of a control sequence: `bytes.Split` at ';' and `strconv.Atoi`.
use mkgo.Common.{
  ℕ, zero, suc, ◌+◌, ◌-◌, ◌*◌, List, [], ◌∷◌, ltb, leb, ◌==◌, ◌&&◌, if◌then◌else◌, Bool, true,
  false,
}

abbrev pub max_int : ℕ
max_int = 9223372036854775807

abbrev pub is_digit : ℕ → Bool
is_digit c = leb 48 c && leb c 57

-- The value that `Atoi` returns, and whether its error is nil. It returns 0 on a syntax error and the
-- largest `int` when the number is out of range, whichever it meets first from the left.
pub record Parsed : Type 0 where
  pub value : ℕ
  pub fine : Bool

abbrev pub bad_syntax : Parsed
bad_syntax = record { value = 0; fine = false }

abbrev pub bad_range : Parsed
bad_range = record { value = max_int; fine = false }

-- The digits from the left, with the value `n` of those before, a `uint64`.
unfoldable pub atoi_loop : ℕ → List ℕ → Parsed
atoi_loop n [] = if ltb max_int n then bad_range else record { value = n; fine = true }
atoi_loop n (c ∷ s) =
    let rest = atoi_loop (n * 10 + (c - 48)) s in
    if is_digit c
    then if ltb 18446744073709551615 (n * 10 + (c - 48)) then bad_range else rest
    else bad_syntax

-- `strconv.Atoi` of a text of the bytes that a control sequence collects, which has no sign.
unfoldable pub atoi : List ℕ → Parsed
atoi [] = bad_syntax
atoi (c ∷ s) = atoi_loop 0 (c ∷ s)

abbrev pub prepend : ℕ → List (List ℕ) → List (List ℕ)
prepend c [] = (c ∷ []) ∷ []
prepend c (p ∷ parts) = (c ∷ p) ∷ parts

-- `bytes.Split(b, ";")`: one part more than there are separators.
unfoldable pub split : List ℕ → List (List ℕ)
split [] = [] ∷ []
split (c ∷ s) = let rest = split s in if c == 59 then [] ∷ rest else prepend c rest

-- `get(i, def)`.
unfoldable pub param : ℕ → ℕ → List (List ℕ) → ℕ
param i def [] = def
param zero def ([] ∷ parts) = def
param zero def ((c ∷ p) ∷ parts) = (atoi (c ∷ p)).value
param (suc i) def (p ∷ parts) = param i def parts
