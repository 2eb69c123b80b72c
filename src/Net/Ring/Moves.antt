-- ===== src/Net/Ring/Moves.antt =====
-- What a window holds, and what one call does to it.
use mkgo.Common.{ℕ, ◌+◌, ◌%◌, ◌-◌, ◌≤◌, ◌<◌, ◌≡◌, ◌≢◌, ◌⊎◌, ◌∙◌, arith, List, [], ◌∷◌, ◌++◌, length}
use mkgo.Net.Ring.{
  Memory, head, tail, next, slot_base, slot_data_len, win_slots, load_bytes, load32,
}
use mkgo.Net.Ring.Memory.{load_bytes-agree, load32-agree}

-- The slot of index `n` holds the frame.
pub record SlotIs (n : ℕ) (f : List ℕ) (m : Memory) : Type 0 where
  pub slot_len : load32 (slot_base n) m ≡ length f
  pub slot_bytes : load_bytes (slot_base n + 4) (length f) m ≡ f
  pub slot_fits : length f ≤ slot_data_len

-- The slots from `h` on hold the frames, in order.
abbrev pub Slots : ℕ → List (List ℕ) → Memory → Type 0
Slots h [] m = Unit {0}
Slots h (f ∷ q) m = SlotIs h f m × Slots (next h) q m

-- The distance of two indices, which wraps.
abbrev pub gap : ℕ → ℕ → ℕ
gap h t = (t + 4294967296 - h) % 4294967296

-- The window holds the queue.
pub record Holds (q : List (List ℕ)) (m : Memory) : Type 0 where
  pub head_range : head m < 4294967296
  pub tail_range : tail m < 4294967296
  pub held : gap (head m) (tail m) ≡ length q
  pub bounded : length q ≤ win_slots
  pub slots : Slots (head m) q m

SlotIs-agree :
    (n : ℕ) (f : List ℕ) (m m' : Memory)
    → ((i : ℕ) → slot_base n ≤ i → i < slot_base n + 1530 → m' i ≡ m i)
    → SlotIs n f m
    → SlotIs n f m'
SlotIs-agree n f m m' h s = record {
  slot_len = load32-agree (slot_base n) m' m (λ i p q. h i p (omega arith)) ∙ s.slot_len;
  slot_bytes =
      load_bytes-agree (length f) (slot_base n + 4) m' m
        (λ i p q. h i (omega arith) (omega (arith, s.slot_fits)))
      ∙ s.slot_bytes;
  slot_fits = s.slot_fits;
}

-- The index words are no part of a slot.
pub Slots-header :
    (q : List (List ℕ)) (h : ℕ) (m m' : Memory)
    → ((i : ℕ) → 8 ≤ i → m' i ≡ m i)
    → Slots h q m
    → Slots h q m'
unfolding slot_base
Slots-header [] h m m' e s = tt
Slots-header (f ∷ q) h m m' e (s, rest) =
    (SlotIs-agree h f m m' (λ i p r. e i (omega arith)) s, Slots-header q (next h) m m' e rest)

-- Slots of different numbers are apart.
apart :
    (h t i : ℕ)
    → h % 256 ≢ t % 256
    → slot_base h ≤ i
    → i < slot_base h + 1530
    → (i < slot_base t) ⊎ (slot_base t + 1530 ≤ i)
unfolding slot_base
apart h t i ne p q = ground arith

gap_next :
    (h t k : ℕ)
    → h < 4294967296
    → t < 4294967296
    → k + 1 ≤ gap h t
    → (k ≤ gap (next h) t) × (gap (next h) t < gap h t)
gap_next h t k p q r = (omega arith, omega arith)

gap_ne :
    (h t : ℕ) → h < 4294967296 → t < 4294967296 → 1 ≤ gap h t → gap h t < 256 → h % 256 ≢ t % 256
gap_ne h t p q r s = λ e. absurd (omega arith)

-- A write of the producer's slot leaves the queued slots alone.
pub Slots-kept :
    (q : List (List ℕ)) (h t : ℕ) (m m' : Memory)
    → h < 4294967296
    → t < 4294967296
    → length q ≤ gap h t
    → gap h t < win_slots
    → ((i : ℕ) → 8 ≤ i → (i < slot_base t) ⊎ (slot_base t + 1530 ≤ i) → m' i ≡ m i)
    → Slots h q m
    → Slots h q m'
unfolding slot_base
Slots-kept [] h t m m' hr ht l g e s = tt
Slots-kept (f ∷ q) h t m m' hr ht l g e (s, rest) =
    let (l', g') = gap_next h t (length q) hr ht (omega arith) in
    let ne = gap_ne h t hr ht (omega arith) g in
    (
      SlotIs-agree h f m m' (λ i p r. e i (omega arith) (apart h t i ne p r)) s,
      Slots-kept q (next h) t m m' (omega arith) ht l' (omega arith) e rest,
    )

pub Slots-snoc :
    (q : List (List ℕ)) (h t : ℕ) (f : List ℕ) (m : Memory)
    → h < 4294967296
    → t < 4294967296
    → gap h t ≡ length q
    → Slots h q m
    → SlotIs t f m
    → Slots h (q ++ f ∷ []) m
Slots-snoc [] h t f m hr ht g s k = let e : t ≡ h = omega (arith, g) in (rw (← e) k, tt)
Slots-snoc (x ∷ q) h t f m hr ht g (s, rest) k =
    (s, Slots-snoc q (next h) t f m (omega arith) ht (omega (arith, g)) rest k)
