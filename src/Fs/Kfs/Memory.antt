-- ===== src/Fs/Kfs/Memory.antt =====
-- Reads and writes of consecutive bytes, as the sectors of a device are read and written.
use mathlib.Core.Path.{fun_ext}
use mkgo.Common.{
  ℕ, zero, suc, ◌+◌, ◌-◌, ◌≤◌, ◌<◌, ◌≡◌, refl, sym, ◌∙◌, ap, arith, List, [], ◌∷◌, ◌++◌, length,
  take, drop,
}
use mkgo.Common.Bytes.{copy, copy_at, slice, length-copy}
use mkgo.Net.Ring.{Memory, update, load_bytes, store_bytes}

pub length-load_bytes : (a n : ℕ) (m : Memory) → length (load_bytes a n m) ≡ n
unfolding load_bytes
length-load_bytes a zero m = refl
length-load_bytes a (suc n) m = ap suc (length-load_bytes (a + 1) n m)

pub load_bytes_add :
    (a n k : ℕ) (m : Memory) → load_bytes a (n + k) m ≡ load_bytes a n m ++ load_bytes (a + n) k m
unfolding load_bytes
load_bytes_add a zero k m =
    let e : 0 + k ≡ k = omega arith in let e' : a + 0 ≡ a = omega arith in rw (e, e')
load_bytes_add a (suc n) k m =
    let e : suc n + k ≡ suc (n + k) = omega arith in
    let e' : a + suc n ≡ a + 1 + n = omega arith in
    rw (e, e') (ap (λ (l : List ℕ). m a ∷ l) (load_bytes_add (a + 1) n k m))

pub take-load_bytes :
    (a n k : ℕ) (m : Memory) → n ≤ k → take n (load_bytes a k m) ≡ load_bytes a n m
unfolding load_bytes
take-load_bytes a zero k m h = refl
take-load_bytes a (suc n) zero m h = absurd (omega arith)
take-load_bytes a (suc n) (suc k) m h =
    ap (λ (l : List ℕ). m a ∷ l) (take-load_bytes (a + 1) n k m (omega arith))

pub drop-load_bytes :
    (a n k : ℕ) (m : Memory) → n ≤ k → drop n (load_bytes a k m) ≡ load_bytes (a + n) (k - n) m
unfolding load_bytes
drop-load_bytes a zero k m h =
    let e : k - 0 ≡ k = omega arith in let e' : a + 0 ≡ a = omega arith in rw (e, e')
drop-load_bytes a (suc n) zero m h = absurd (omega arith)
drop-load_bytes a (suc n) (suc k) m h =
    let e : suc k - suc n ≡ k - n = omega arith in
    let e' : a + suc n ≡ a + 1 + n = omega arith in
    rw (e, e') (drop-load_bytes (a + 1) n k m (omega arith))

-- A part of what was read is what a read of that part gives.
pub slice-load_bytes :
    (a lo n k : ℕ) (m : Memory)
    → lo + n ≤ k
    → slice lo (lo + n) (load_bytes a k m) ≡ load_bytes (a + lo) n m
slice-load_bytes a lo n k m h =
    let e : lo + n - lo ≡ n = omega arith in
    rw (e, drop-load_bytes a lo k m (omega arith))
      (take-load_bytes (a + lo) n (k - lo) m (omega arith))

update_same : (a : ℕ) (m : Memory) → update a (m a) m ≡ m
unfolding update
update_same a m = fun_ext λ i. ground (arith, ap m)

update-store_bytes :
    (a b c : ℕ) (l : List ℕ) (m : Memory)
    → a < c
    → update a b (store_bytes c l m) ≡ store_bytes c l (update a b m)
unfolding update store_bytes
update-store_bytes a b c [] m h = refl
update-store_bytes a b c (x ∷ l) m h =
    fun_ext (λ i. ground arith)
    ∙ ap (λ (w : Memory). update c x w) (update-store_bytes a b (c + 1) l m (omega arith))

-- Two writes, one behind the other, are one.
pub store_bytes-append :
    (a : ℕ) (xs ys : List ℕ) (m : Memory)
    → store_bytes (a + length xs) ys (store_bytes a xs m) ≡ store_bytes a (xs ++ ys) m
unfolding store_bytes
store_bytes-append a [] ys m = let e : a + 0 ≡ a = omega arith in rw e
store_bytes-append a (x ∷ xs) ys m =
    let e : a + suc (length xs) ≡ a + 1 + length xs = omega arith in
    rw e (
      sym (update-store_bytes a x (a + 1 + length xs) ys _ (omega arith))
      ∙ ap (λ (w : Memory). update a x w) (store_bytes-append (a + 1) xs ys m))

store_bytes-load_bytes : (a n : ℕ) (m : Memory) → store_bytes a (load_bytes a n m) m ≡ m
unfolding store_bytes load_bytes
store_bytes-load_bytes a zero m = refl
store_bytes-load_bytes a (suc n) m =
    ap (λ (w : Memory). update a (m a) w) (store_bytes-load_bytes (a + 1) n m) ∙ update_same a m

store_bytes-copy :
    (a n : ℕ) (c : List ℕ) (m : Memory)
    → length c ≤ n
    → store_bytes a (copy (load_bytes a n m) c) m ≡ store_bytes a c m
unfolding store_bytes load_bytes
store_bytes-copy a n [] m h = store_bytes-load_bytes a n m
store_bytes-copy a zero (x ∷ c) m h = absurd (omega arith)
store_bytes-copy a (suc n) (x ∷ c) m h =
    ap (λ (w : Memory). update a x w) (store_bytes-copy (a + 1) n c m (omega arith))

-- A range that is read, changed in one place and written back has changed in that place.
pub store_bytes-copy_at :
    (a off n : ℕ) (c : List ℕ) (m : Memory)
    → off + length c ≤ n
    → store_bytes a (copy_at off c (load_bytes a n m)) m ≡ store_bytes (a + off) c m
unfolding store_bytes load_bytes
store_bytes-copy_at a zero n c m h =
    let e : a + 0 ≡ a = omega arith in rw e (store_bytes-copy a n c m (omega arith))
store_bytes-copy_at a (suc off) zero c m h = absurd (omega arith)
store_bytes-copy_at a (suc off) (suc n) c m h =
    let e : a + suc off ≡ a + 1 + off = omega arith in
    rw e (
      ap (λ (w : Memory). update a (m a) w) (store_bytes-copy_at (a + 1) off n c m (omega arith))
      ∙ update-store_bytes a (m a) (a + 1 + off) c m (omega arith)
      ∙ ap (store_bytes (a + 1 + off) c) (update_same a m))

pub length-copy_at : (off : ℕ) (c dst : List ℕ) → length (copy_at off c dst) ≡ length dst
length-copy_at zero c dst = length-copy dst c
length-copy_at (suc off) c [] = refl
length-copy_at (suc off) c (x ∷ dst) = ap suc (length-copy_at off c dst)
