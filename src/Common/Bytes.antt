-- ===== src/Common/Bytes.antt =====
-- Go byte slices: `b[i]`, `b[lo:hi]` and `copy(b[off:], src)` on lists of numbers.
use Prim.Native.Nat.{ℕ, zero, suc, ◌+◌, ◌-◌, ◌≤◌, ◌<◌}
use mathlib.Core.Path.{◌≡◌, refl, ap}
use mathlib.Core.List.{List, [], ◌∷◌, ◌++◌}
use native.Mathlib.Omega.{arith}
use mkgo.Common.Lists.{get_or, length, take, drop, replicate}

abbrev pub IsByte : ℕ → Type 0
IsByte b = b < 256

-- `p[i]`; every use stands behind a length test, so the default is never read.
abbrev pub byte_at : List ℕ → ℕ → ℕ
byte_at p i = get_or p i 0

-- `p[lo:hi]`, again behind a length test.
abbrev pub slice : ℕ → ℕ → List ℕ → List ℕ
slice lo hi p = take (hi - lo) (drop lo p)

-- `copy(dst, src)`: as many bytes as both hold.
abbrev pub copy : List ℕ → List ℕ → List ℕ
copy dst [] = dst
copy [] (v ∷ src) = []
copy (b ∷ dst) (v ∷ src) = v ∷ copy dst src

-- `copy(dst[off:], src)`.
abbrev pub copy_at : ℕ → List ℕ → List ℕ → List ℕ
copy_at zero src dst = copy dst src
copy_at (suc off) src [] = []
copy_at (suc off) src (b ∷ dst) = b ∷ copy_at off src dst

-- `make([]byte, n)`.
abbrev pub make_bytes : ℕ → List ℕ
make_bytes n = replicate n 0

pub copy-make_bytes : (src : List ℕ) → copy (make_bytes (length src)) src ≡ src
copy-make_bytes [] = refl
copy-make_bytes (v ∷ src) = ap (λ (l : List ℕ). v ∷ l) (copy-make_bytes src)

-- A fresh slice of `k + n` bytes is one of `k` and one of `n`.
pub make_bytes_add : (k n : ℕ) → make_bytes (k + n) ≡ make_bytes k ++ make_bytes n
make_bytes_add zero n = let e : 0 + n ≡ n = omega arith in rw e
make_bytes_add (suc k) n =
    let e : suc k + n ≡ suc (k + n) = omega arith in
    rw e (ap (λ (l : List ℕ). 0 ∷ l) (make_bytes_add k n))

pub length-copy : (dst src : List ℕ) → length (copy dst src) ≡ length dst
length-copy dst [] = refl
length-copy [] (v ∷ src) = refl
length-copy (b ∷ dst) (v ∷ src) = ap suc (length-copy dst src)

-- A source as long as the destination replaces it.
pub copy_whole : (dst src : List ℕ) → length src ≡ length dst → copy dst src ≡ src
copy_whole [] [] e = refl
copy_whole (b ∷ dst) [] e = absurd (omega arith)
copy_whole [] (v ∷ src) e = absurd (omega arith)
copy_whole (b ∷ dst) (v ∷ src) e = ap (λ (l : List ℕ). v ∷ l) (copy_whole dst src (omega arith))

-- A shorter source leaves zeros behind.
pub copy_short :
    (n : ℕ) (src : List ℕ)
    → length src ≤ n
    → copy (make_bytes n) src ≡ src ++ make_bytes (n - length src)
copy_short n [] h = let e : n - 0 ≡ n = omega arith in rw e
copy_short zero (v ∷ src) h = absurd (omega arith)
copy_short (suc n) (v ∷ src) h =
    let e : suc n - suc (length src) ≡ n - length src = omega arith in
    rw e (ap (λ (l : List ℕ). v ∷ l) (copy_short n src (omega arith)))
