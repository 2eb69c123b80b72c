-- ===== src/Term/Cells.antt =====
-- Go slices of any element type: an access out of range is a run-time panic, here `none`.
use mkgo.Common.{
  ℕ, zero, suc, ◌+◌, ◌≤◌, ◌<◌, ◌≡◌, refl, ap, arith, List, [], ◌∷◌, length, Option, none, some,
}

-- The rest of a computation, unless it has panicked.
abbrev pub and_then {ℓ κ} : {A : Type ℓ} {B : Type κ} → Option A → (A → Option B) → Option B
and_then none f = none
and_then (some a) f = f a

module _ {ℓ} {A : Type ℓ} where
  abbrev pub consed : A → Option (List A) → Option (List A)
  consed a none = none
  consed a (some l) = some (a ∷ l)

  -- `l[i] = a`.
  unfoldable pub set_at : ℕ → A → List A → Option (List A)
  set_at i a [] = none
  set_at zero a (x ∷ l) = some (a ∷ l)
  set_at (suc i) a (x ∷ l) = consed x (set_at i a l)

  -- `for k := i; k < i+n; k++ { l[k] = a }`.
  unfoldable pub fill : ℕ → ℕ → A → List A → Option (List A)
  fill zero i a l = some l
  fill (suc n) i a l = and_then (set_at i a l) (λ m. fill n (i + 1) a m)

  -- `copy(dst, src)`.
  unfoldable pub copy_over : List A → List A → List A
  copy_over dst [] = dst
  copy_over [] (a ∷ src) = []
  copy_over (x ∷ dst) (a ∷ src) = a ∷ copy_over dst src

  -- `copy(dst[off:], src)`, where `off` is in range.
  unfoldable pub copy_from : ℕ → List A → List A → List A
  copy_from zero src dst = copy_over dst src
  copy_from (suc off) src [] = []
  copy_from (suc off) src (x ∷ dst) = x ∷ copy_from off src dst

  -- `make([]A, n)` with the zero value `a`.
  unfoldable pub make_list : ℕ → A → List A
  make_list zero a = []
  make_list (suc n) a = a ∷ make_list n a

  pub length-make_list : (n : ℕ) (a : A) → length (make_list n a) ≡ n
  unfolding make_list
  length-make_list zero a = refl
  length-make_list (suc n) a = ap suc (length-make_list n a)

  pub length-copy_over : (dst src : List A) → length (copy_over dst src) ≡ length dst
  unfolding copy_over
  length-copy_over dst [] = refl
  length-copy_over [] (a ∷ src) = refl
  length-copy_over (x ∷ dst) (a ∷ src) = ap suc (length-copy_over dst src)

  pub length-copy_from : (off : ℕ) (src dst : List A) → length (copy_from off src dst) ≡ length dst
  unfolding copy_from
  length-copy_from zero src dst = length-copy_over dst src
  length-copy_from (suc off) src [] = refl
  length-copy_from (suc off) src (x ∷ dst) = ap suc (length-copy_from off src dst)

  -- Copying a whole slice of the same length.
  pub copy_over-whole : (dst src : List A) → length dst ≡ length src → copy_over dst src ≡ src
  unfolding copy_over
  copy_over-whole [] [] h = refl
  copy_over-whole (x ∷ dst) [] h = absurd (omega arith)
  copy_over-whole [] (a ∷ src) h = absurd (omega arith)
  copy_over-whole (x ∷ dst) (a ∷ src) h =
      ap (λ (l : List A). a ∷ l) (copy_over-whole dst src (omega arith))

  -- An access in range succeeds and keeps the length.
  abbrev pub Keeps : List A → Option (List A) → Type ℓ
  Keeps l o = (m : List A) × (o ≡ some m) × (length m ≡ length l)

  pub set_at-Keeps : (i : ℕ) (a : A) (l : List A) → i < length l → Keeps l (set_at i a l)
  unfolding set_at
  set_at-Keeps i a [] h = absurd (omega arith)
  set_at-Keeps zero a (x ∷ l) h = (a ∷ l, refl, refl)
  set_at-Keeps (suc i) a (x ∷ l) h =
      let (m, e, k) = set_at-Keeps i a l (omega arith) in (x ∷ m, rw e refl, ap suc k)

  pub fill-Keeps : (n i : ℕ) (a : A) (l : List A) → i + n ≤ length l → Keeps l (fill n i a l)
  unfolding fill
  fill-Keeps zero i a l h = (l, refl, refl)
  fill-Keeps (suc n) i a l h =
      let (m, e, k) = set_at-Keeps i a l (omega arith) in
      let (m', e', k') = fill-Keeps n (i + 1) a m (omega arith) in (m', rw e e', omega arith)

  -- An access out of range panics.
  pub set_at-none : (i : ℕ) (a : A) (l : List A) → length l ≤ i → set_at i a l ≡ none
  unfolding set_at
  set_at-none i a [] h = refl
  set_at-none zero a (x ∷ l) h = absurd (omega arith)
  set_at-none (suc i) a (x ∷ l) h = let e = set_at-none i a l (omega arith) in rw e refl
