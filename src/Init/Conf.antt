-- ===== src/Init/Conf.antt =====
-- `ParseConf` of services/init/init.go, on the bytes of a text.
pub mod Words
pub mod RoundTrip
use mkgo.Common.{
  ℕ, zero, suc, ◌+◌, ◌-◌, ◌*◌, Bool, true, false, not, ◌&&◌, ◌||◌, List, [], ◌∷◌, ◌++◌, ltb, leb,
  ◌==◌, if◌then◌else◌, Option, none, some,
}
use mkgo.Kern.Client.Book.{name_eq}
use mkgo.Init.Supervisor.{Service}

-- White space of one byte, and of two and three: what `unicode.IsSpace` accepts, in UTF-8.
abbrev pub is_space : ℕ → Bool
is_space c = leb 9 c && leb c 13 || c == 32

abbrev pub is_space2 : ℕ → ℕ → Bool
is_space2 c d = c == 194 && (d == 133 || d == 160)

abbrev pub is_space3 : ℕ → ℕ → ℕ → Bool
is_space3 c d x =
    c == 225 && d == 154 && x == 128
    || c == 226 && d == 128 && (leb 128 x && leb x 138 || x == 168 || x == 169 || x == 175)
    || c == 226 && d == 129 && x == 159
    || c == 227 && d == 128 && x == 128

-- The bytes of the white space that a text begins with, 0 if it begins with none. The first byte of
-- a longer character is no continuation byte, so white space starts nowhere inside of one.
unfoldable pub space_len : List ℕ → ℕ
space_len [] = 0
space_len (c ∷ []) = if is_space c then 1 else 0
space_len (c ∷ d ∷ []) = if is_space c then 1 else if is_space2 c d then 2 else 0
space_len (c ∷ d ∷ x ∷ s) =
    if is_space c then 1 else if is_space2 c d then 2 else if is_space3 c d x then 3 else 0

abbrev pub no_bytes : List ℕ → Bool
no_bytes [] = true
no_bytes (c ∷ s) = false

-- `strings.Split(text, "\n")`.
abbrev pub onto_first : ℕ → List (List ℕ) → List (List ℕ)
onto_first c [] = (c ∷ []) ∷ []
onto_first c (l ∷ ls) = (c ∷ l) ∷ ls

unfoldable pub split_lines : List ℕ → List (List ℕ)
split_lines [] = [] ∷ []
split_lines (c ∷ s) = let rest = split_lines s in if c == 10 then [] ∷ rest else onto_first c rest

-- `strings.TrimSpace`. On the left, `skip` bytes of the white space are still to be left out.
unfoldable pub trim_left : ℕ → List ℕ → List ℕ
unfolding space_len
trim_left skip [] = []
trim_left (suc skip) (c ∷ s) = trim_left skip s
trim_left zero (c ∷ s) =
    let n = space_len (c ∷ s) in let rest = trim_left (n - 1) s in if n == 0 then c ∷ s else rest

-- On the right, what is white space to its end is left out.
unfoldable pub trim_right : List ℕ → List ℕ
unfolding trim_left
trim_right [] = []
trim_right (c ∷ s) =
    let rest = trim_right s in if no_bytes (trim_left 0 (c ∷ s)) then [] else c ∷ rest

-- `strings.Fields`; `word` holds the bytes of the field that is being read.
abbrev pub close_word : List ℕ → List (List ℕ) → List (List ℕ)
close_word [] rest = rest
close_word (c ∷ word) rest = (c ∷ word) ∷ rest

unfoldable pub fields_from : ℕ → List ℕ → List ℕ → List (List ℕ)
unfolding space_len
fields_from skip word [] = close_word word []
fields_from (suc skip) word (c ∷ s) = fields_from skip word s
fields_from zero word (c ∷ s) =
    let n = space_len (c ∷ s) in
    let rest = fields_from (n - 1) (if n == 0 then word ++ c ∷ [] else []) s in
    if n == 0 then rest else close_word word rest

-- `strconv.ParseUint(s, 16, 64)`.
unfoldable pub hex_digit : ℕ → Option ℕ
hex_digit c =
    if leb 48 c && leb c 57
    then some (c - 48)
    else if leb 97 c && leb c 102
    then some (c - 87)
    else if leb 65 c && leb c 70
    then some (c - 55)
    else none

abbrev pub hex_step : Option ℕ → ℕ → Option ℕ
hex_step none acc = none
hex_step (some d) acc =
    if ltb (acc * 16 + d) 18446744073709551616 then some (acc * 16 + d) else none

abbrev pub and_value {ℓ κ} : {A : Type ℓ} {B : Type κ} → Option A → (A → Option B) → Option B
and_value none f = none
and_value (some a) f = f a

unfoldable pub hex_loop : ℕ → List ℕ → Option ℕ
unfolding hex_digit
hex_loop acc [] = some acc
hex_loop acc (c ∷ s) = and_value (hex_step (hex_digit c) acc) (λ v. hex_loop v s)

unfoldable pub parse_hex : List ℕ → Option ℕ
unfolding hex_loop
parse_hex s = if no_bytes s then none else hex_loop 0 s

-- `strings.TrimPrefix(s, "0x")`.
abbrev pub trim_0x : List ℕ → List ℕ
trim_0x (a ∷ b ∷ s) = if a == 48 && b == 120 then s else a ∷ b ∷ s
trim_0x s = s

-- "respawn=yes" and "respawn=no".
abbrev pub respawn_yes : List ℕ
respawn_yes = b'r' ∷ b'e' ∷ b's' ∷ b'p' ∷ b'a' ∷ b'w' ∷ b'n' ∷ b'=' ∷ b'y' ∷ b'e' ∷ b's' ∷ []

abbrev pub respawn_no : List ℕ
respawn_no = b'r' ∷ b'e' ∷ b's' ∷ b'p' ∷ b'a' ∷ b'w' ∷ b'n' ∷ b'=' ∷ b'n' ∷ b'o' ∷ []

-- The fourth field; what stands behind it is not read.
unfoldable pub parse_policy : List (List ℕ) → Option Bool
parse_policy [] = some true
parse_policy (f ∷ fs) =
    if name_eq f respawn_yes then some true else if name_eq f respawn_no then some false else none

unfoldable pub parse_fields : List (List ℕ) → Option Service
unfolding parse_hex parse_policy
parse_fields (name ∷ path ∷ mask ∷ more) = and_value (parse_hex (trim_0x mask)) (λ m.
    and_value (parse_policy more)
      (λ respawn. some (record { name = name; path = path; capmask = m; respawn = respawn })))
parse_fields _ = none

-- A line that is blank or a comment is skipped.
abbrev pub is_skipped : List ℕ → Bool
is_skipped [] = true
is_skipped (c ∷ s) = c == b'#'

unfoldable pub parse_lines : List (List ℕ) → Option (List Service)
unfolding trim_left trim_right fields_from parse_fields
parse_lines [] = some []
parse_lines (raw ∷ ls) =
    let line = trim_right (trim_left 0 raw) in
    let rest = parse_lines ls in
    if is_skipped line
    then rest
    else and_value (parse_fields (fields_from 0 [] line))
        (λ svc. and_value rest (λ svcs. some (svc ∷ svcs)))

-- `ParseConf`; `none` is any of its errors.
unfoldable pub parse_conf : List ℕ → Option (List Service)
unfolding split_lines parse_lines
parse_conf text = parse_lines (split_lines text)
