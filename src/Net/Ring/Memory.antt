-- ===== src/Net/Ring/Memory.antt =====
-- Reads and writes of a window's memory.
use mkgo.Common.{
  ℕ, zero, suc, ◌+◌, ◌≤◌, ◌<◌, ◌≡◌, ◌⊎◌, refl, arith, List, [], ◌∷◌, length, ◌==◌, true,
}
use mkgo.Kern.Frame.{le32}
use mkgo.Net.Ring.{Memory, update, load_bytes, store_bytes, load32, store32}

-- A read sees its own addresses alone.
pub load_bytes-agree :
    (n a : ℕ) (m m' : Memory)
    → ((i : ℕ) → a ≤ i → i < a + n → m i ≡ m' i)
    → load_bytes a n m ≡ load_bytes a n m'
unfolding load_bytes
load_bytes-agree zero a m m' h = refl
load_bytes-agree (suc n) a m m' h = rw (
  h a (omega arith) (omega arith),
  load_bytes-agree n (a + 1) m m' (λ i p q. h i (omega arith) (omega arith)),
)

pub load32-agree :
    (a : ℕ) (m m' : Memory) → ((i : ℕ) → a ≤ i → i < a + 4 → m i ≡ m' i) → load32 a m ≡ load32 a m'
unfolding load32
load32-agree a m m' h =
    let h0 = h a (omega arith) (omega arith) in
    let h1 = h (a + 1) (omega arith) (omega arith) in
    let h2 = h (a + 2) (omega arith) (omega arith) in
    let h3 = h (a + 3) (omega arith) (omega arith) in omega arith

-- A write changes its own addresses alone.
pub store_bytes-outside :
    (l : List ℕ) (a : ℕ) (m : Memory) (i : ℕ)
    → (i < a) ⊎ (a + length l ≤ i)
    → store_bytes a l m i ≡ m i
unfolding store_bytes update
store_bytes-outside [] a m i h = refl
store_bytes-outside (b ∷ l) a m i h = ground (arith, store_bytes-outside l (a + 1) m i)

pub store32-outside : (a v : ℕ) (m : Memory) (i : ℕ) → (i < a) ⊎ (a + 4 ≤ i) → store32 a v m i ≡ m i
unfolding store32
store32-outside a v m i h = store_bytes-outside (le32 v) a m i h

-- What was written is read back.
pub load_bytes-store_bytes :
    (l : List ℕ) (a : ℕ) (m : Memory) → load_bytes a (length l) (store_bytes a l m) ≡ l
unfolding load_bytes store_bytes update
load_bytes-store_bytes [] a m = refl
load_bytes-store_bytes (b ∷ l) a m =
    let m' = store_bytes (a + 1) l m in
    let tail_eq = load_bytes-agree (length l) (a + 1) (update a b m') m' (λ i p q. ground arith) in
    let own : a == a ≡ true = ground arith in rw (tail_eq, load_bytes-store_bytes l (a + 1) m, own)

pub load32-store32 : (a v : ℕ) (m : Memory) → v < 4294967296 → load32 a (store32 a v m) ≡ v
unfolding load32 store32 store_bytes update
load32-store32 a v m h = ground arith
