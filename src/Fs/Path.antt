-- ===== src/Fs/Path.antt =====
-- `splitPath` of services/fs/fat16.go: the components of a path.
use mathlib.Core.List.{append-nil}
use mkgo.Common.{
  ℕ, ◌≡◌, ◌≢◌, inl, inr, refl, arith, Bool, true, false, ◌&&◌, ◌||◌, List, [], ◌∷◌, ◌++◌, ◌==◌,
  if◌then◌else◌, Option, none, some, Bool-cases, Option-cases, All,
}

-- Go's comparison of strings.
unfoldable pub same : List ℕ → List ℕ → Bool
same [] [] = true
same [] (y ∷ t) = false
same (x ∷ s) [] = false
same (x ∷ s) (y ∷ t) = x == y && same s t

-- Put a byte before the first of the parts.
unfoldable pub onto_first : ℕ → List (List ℕ) → List (List ℕ)
onto_first c [] = (c ∷ []) ∷ []
onto_first c (p ∷ ps) = (c ∷ p) ∷ ps

-- `strings.Split(s, "/")`.
unfoldable pub split : List ℕ → List (List ℕ)
unfolding onto_first
split [] = [] ∷ []
split (c ∷ s) = let rest = split s in if c == b'/' then [] ∷ rest else onto_first c rest

-- The loop over the parts: empty ones and `.` are skipped, and `..` is refused.
unfoldable pub components : List (List ℕ) → Option (List (List ℕ))
unfolding same
components [] = some []
components (p ∷ ps) =
    let rest = components ps in
    if same p [] || same p (b'.' ∷ [])
    then rest
    else if same p (b'.' ∷ b'.' ∷ [])
    then none
    else elim rest [ none ↦ none | some out ↦ some (p ∷ out) ]

unfoldable pub split_path : List ℕ → Option (List (List ℕ))
unfolding components split
split_path [] = none
split_path (c ∷ s) = if c == b'/' then components (split s) else none

-- A component names an entry of a directory: it is not empty, neither `.` nor `..`, and has no slash.
pub record IsName (s : List ℕ) : Type 0 where
  pub plain : All (λ c. c ≢ b'/') s
  pub not_empty : same s [] ≡ false
  pub not_dot : same s (b'.' ∷ []) ≡ false
  pub not_dots : same s (b'.' ∷ b'.' ∷ []) ≡ false

-- The path of the components.
abbrev pub join : List (List ℕ) → List ℕ
join [] = []
join (s ∷ names) = b'/' ∷ (s ++ join names)

split-plain : (s : List ℕ) → All (λ c. c ≢ b'/') s → split s ≡ s ∷ []
unfolding split
split-plain [] h = refl
split-plain (c ∷ s) h = ground (arith, split-plain s h.1)

split-slash : (s rest : List ℕ) → All (λ c. c ≢ b'/') s → split (s ++ b'/' ∷ rest) ≡ s ∷ split rest
unfolding split
split-slash [] rest h = refl
split-slash (c ∷ s) rest h = ground (arith, split-slash s rest h.1)

components-name :
    (s : List ℕ) (ps out : List (List ℕ))
    → IsName s
    → components ps ≡ some out
    → components (s ∷ ps) ≡ some (s ∷ out)
unfolding components
components-name s ps out n e = rw (n.not_empty, n.not_dot, n.not_dots, e) refl

nothing : components [] ≡ some []
unfolding components
nothing = refl

components-split :
    (s : List ℕ) (names : List (List ℕ))
    → IsName s
    → All IsName names
    → components (split (s ++ join names)) ≡ some (s ∷ names)
components-split s [] n h =
    rw (append-nil s, split-plain s n.plain) (components-name s [] [] n nothing)
components-split s (t ∷ names) n h =
    rw (split-slash s (t ++ join names) n.plain)
      (components-name s _ _ n (components-split t names h.0 h.1))

-- A path that is written from names, at least one, is split into those names.
pub split_path-join :
    (s : List ℕ) (names : List (List ℕ))
    → IsName s
    → All IsName names
    → split_path (join (s ∷ names)) ≡ some (s ∷ names)
unfolding split_path
split_path-join s names n h = components-split s names n h

abbrev SlashFree : List ℕ → Type 0
SlashFree s = All (λ c. c ≢ b'/') s

onto_first-SlashFree :
    (c : ℕ) (ps : List (List ℕ)) → c ≢ b'/' → All SlashFree ps → All SlashFree (onto_first c ps)
unfolding onto_first
onto_first-SlashFree c [] h a = ((h, tt), tt)
onto_first-SlashFree c (p ∷ ps) h a = ((h, a.0), a.1)

split-SlashFree : (s : List ℕ) → All SlashFree (split s)
unfolding split
split-SlashFree [] = (tt, tt)
split-SlashFree (c ∷ s) = elim (Bool-cases (c == b'/')) [
  | inl e ↦ rw e (tt, split-SlashFree s)
  | inr e ↦ rw e (onto_first-SlashFree c (split s) (ground arith) (split-SlashFree s))
]

components-IsName :
    (ps out : List (List ℕ)) → All SlashFree ps → components ps ≡ some out → All IsName out
unfolding components
components-IsName [] [] h e = tt
components-IsName [] (s ∷ out) h e = absurd (cc)
components-IsName (p ∷ ps) out h e = elim (Bool-cases (same p [] || same p (b'.' ∷ []))) [
  | inl skipped ↦ components-IsName ps out h.1 (rw skipped at e)
  | inr kept ↦ elim (Bool-cases (same p (b'.' ∷ b'.' ∷ []))) [
    | inl dots ↦ absurd (let e' = rw (kept, dots) at e in cc)
    | inr named ↦ elim (Option-cases (components ps)) [
      | inl stop ↦ absurd (let e' = rw (kept, named, stop) at e in cc)
      | inr (tail, go) ↦
          let e' : some (p ∷ tail) ≡ some out = rw (kept, named, go) at e in
          let n : IsName p = record {
            plain = h.0;
            not_empty = ground arith;
            not_dot = ground arith;
            not_dots = named;
          } in
          let q : p ∷ tail ≡ out = cc in rw (← q) (n, components-IsName ps tail h.1 go)
    ]
  ]
]

-- Every component of a path that is accepted is a name: it is not empty, neither `.` nor `..`, and
-- has no slash. So no path leads out of the root.
pub split_path-IsName :
    (s : List ℕ) (out : List (List ℕ)) → split_path s ≡ some out → All IsName out
unfolding split_path
split_path-IsName [] out e = cc
split_path-IsName (c ∷ s) out e = elim (Bool-cases (c == b'/')) [
  | inl h ↦ components-IsName (split s) out (split-SlashFree s) (rw h at e)
  | inr h ↦ absurd (let e' = rw h at e in cc)
]
