-- ===== src/Net/Ring/Refines.antt =====
-- A window is a bounded queue of frames.
use mkgo.Common.{
  ℕ, ◌+◌, ◌≤◌, ◌<◌, ◌≡◌, ◌⊎◌, inl, inr, refl, ap, ◌∙◌, arith, Bool, true, false, ◌||◌, List, [],
  ◌∷◌, ◌++◌, length, length-append, ltb, leb, ◌==◌, if◌then◌else◌, Option, none, some, Bool-cases,
}
use mkgo.Net.Ring.{
  Memory, head, tail, next, slot_base, slot_data_len, win_slots, clamp_len, store_bytes, load32,
  store32, recv, send,
}
use mkgo.Net.Ring.Memory.{
  load_bytes-agree, load32-agree, store_bytes-outside, store32-outside, load_bytes-store_bytes,
  load32-store32,
}
use mkgo.Net.Ring.Moves.{SlotIs, Holds, Slots-header, Slots-kept, Slots-snoc}

-- The queue that a window promises to be.
abbrev pub queue_recv : List (List ℕ) → Option (List ℕ) × List (List ℕ)
queue_recv [] = (none, [])
queue_recv (f ∷ q) = (some f, q)

abbrev pub queue_send : List ℕ → List (List ℕ) → Bool × List (List ℕ)
queue_send f q =
    if length f == 0 || ltb slot_data_len (length f) || leb win_slots (length q)
    then (false, q)
    else (true, q ++ f ∷ [])

-- The consumer's step, with the slot shut.
set_head-Holds :
    (f : List ℕ) (q : List (List ℕ)) (m : Memory)
    → Holds (f ∷ q) m
    → Holds q (store32 0 (next (head m)) m)
set_head-Holds f q m h =
    let m' = store32 0 (next (head m)) m in
    let e = load32-store32 0 (next (head m)) m (omega arith) in
    let e' = load32-agree 4 m' m (λ i p r. store32-outside 0 _ m i (inr (omega arith))) in
    record {
      head_range = omega (arith, e);
      tail_range = omega (arith, e', h.tail_range);
      held = omega (arith, e, e', h.held, h.head_range, h.tail_range);
      bounded = omega (arith, h.bounded);
      slots = rw e (
          Slots-header q (next (head m)) m m' (λ i p. store32-outside 0 _ m i (inr (omega arith)))
            h.slots.1);
    }

recv-Holds :
    (q : List (List ℕ)) (m : Memory)
    → Holds q m
    → ((recv m).0 ≡ (queue_recv q).0) × Holds (queue_recv q).1 (recv m).1
unfolding recv
recv-Holds [] m h =
    let empty : head m == tail m ≡ true = ground (arith, h.held, h.head_range, h.tail_range) in
    rw empty (refl, h)
recv-Holds (f ∷ q) m h =
    let more : head m == tail m ≡ false = ground (arith, h.held, h.head_range, h.tail_range) in
    let s = h.slots.0 in
    let len : clamp_len (load32 (slot_base (head m)) m) ≡ length f = ground (arith, s) in
    rw more (rw (len, s.slot_bytes) refl, set_head-Holds f q m h)

-- The memory after the producer's three writes.
abbrev written : List ℕ → Memory → Memory
written f m =
    let t = tail m in
    store32 4 (next t) (store_bytes (slot_base t + 4) f (store32 (slot_base t) (length f) m))

module _ (f : List ℕ) (m : Memory) (fits : length f ≤ slot_data_len) where
  -- They touch the tail word and the tail's slot.
  written-outside :
      (i : ℕ)
      → (i < 4) ⊎ (8 ≤ i)
      → (i < slot_base (tail m)) ⊎ (slot_base (tail m) + 1530 ≤ i)
      → written f m i ≡ m i
  unfolding slot_base
  written-outside i low out =
      let t = tail m in
      let m1 = store32 (slot_base t) (length f) m in
      let m2 = store_bytes (slot_base t + 4) f m1 in
      store32-outside 4 (next t) m2 i (ground arith)
      ∙ store_bytes-outside f (slot_base t + 4) m1 i (ground arith)
      ∙ store32-outside (slot_base t) (length f) m i (ground arith)

  written-head : head (written f m) ≡ head m
  unfolding slot_base
  written-head =
      load32-agree 0 (written f m) m
        (λ i p r. written-outside i (inl (omega arith)) (inl (omega arith)))

  written-tail : tail (written f m) ≡ next (tail m)
  written-tail = load32-store32 4 (next (tail m)) _ (omega arith)

  written-slot : SlotIs (tail m) f (written f m)
  unfolding slot_base
  written-slot =
      let t = tail m in
      let m1 = store32 (slot_base t) (length f) m in
      let m2 = store_bytes (slot_base t + 4) f m1 in
      record {
        slot_len =
            load32-agree (slot_base t) (written f m) m1 (λ i p r.
              store32-outside 4 (next t) m2 i (inr (omega arith))
              ∙ store_bytes-outside f (slot_base t + 4) m1 i (inl (omega arith)))
            ∙ load32-store32 (slot_base t) (length f) m (omega arith);
        slot_bytes =
            load_bytes-agree (length f) (slot_base t + 4) (written f m) m2
              (λ i p r. store32-outside 4 (next t) m2 i (inr (omega arith)))
            ∙ load_bytes-store_bytes f (slot_base t + 4) m1;
        slot_fits = fits;
      }

written-Holds :
    (f : List ℕ) (q : List (List ℕ)) (m : Memory)
    → length f ≤ slot_data_len
    → length q < win_slots
    → Holds q m
    → Holds (q ++ f ∷ []) (written f m)
written-Holds f q m fits room h =
    let e = written-head f m fits in
    let e' = written-tail f m fits in
    let k = length-append q (f ∷ []) in
    let kept =
      Slots-kept q (head m) (tail m) m (written f m) h.head_range h.tail_range
        (omega (arith, h.held)) (omega (arith, h.held))
        (λ i p out. written-outside f m fits i (inr p) out) h.slots in
    record {
      head_range = omega (arith, e, h.head_range);
      tail_range = omega (arith, e');
      held = omega (arith, e, e', k, h.held, h.head_range, h.tail_range, room);
      bounded = omega (arith, k);
      slots = rw e (
          Slots-snoc q (head m) (tail m) f (written f m) h.head_range h.tail_range h.held kept
            (written-slot f m fits));
    }

send-Holds :
    (f : List ℕ) (q : List (List ℕ)) (m : Memory)
    → Holds q m
    → ((send f m).0 ≡ (queue_send f q).0) × Holds (queue_send f q).1 (send f m).1
unfolding send
send-Holds f q m h = elim (Bool-cases (length f == 0 || ltb slot_data_len (length f))) [
  | inl bad ↦ rw bad (refl, h)
  | inr fine ↦ elim (Bool-cases (leb win_slots (length q))) [
    | inl full ↦ let full' = ap (leb win_slots) h.held ∙ full in rw (fine, full, full') (refl, h)
    | inr room ↦
        let room' = ap (leb win_slots) h.held ∙ room in
        rw (fine, room, room') (refl, written-Holds f q m (ground arith) (ground arith) h)
  ]
]

-- A run of calls of both sides, and what it returns.
pub data Op : Type 0 where
  produce : List ℕ → Op
  consume : Op

pub data Reply : Type 0 where
  sent : Bool → Reply
  received : Option (List ℕ) → Reply

unfoldable pub ring_run : List Op → Memory → List Reply
ring_run [] m = []
ring_run (produce f ∷ ops) m = let (ok, m') = send f m in sent ok ∷ ring_run ops m'
ring_run (consume ∷ ops) m = let (f, m') = recv m in received f ∷ ring_run ops m'

unfoldable pub queue_run : List Op → List (List ℕ) → List Reply
queue_run [] q = []
queue_run (produce f ∷ ops) q = let (ok, q') = queue_send f q in sent ok ∷ queue_run ops q'
queue_run (consume ∷ ops) q = let (f, q') = queue_recv q in received f ∷ queue_run ops q'

-- A window in which the slots between head and tail hold the frames of a queue answers every
-- sequence of `Send` and `Recv` as a queue of at most 256 frames does, in first-in, first-out order:
-- frames come out whole, a frame that is empty or longer than 1526 bytes or meets a full queue is
-- refused and changes nothing. The indices may have wrapped any number of times.
pub ring_run-eq-queue_run :
    (ops : List Op) (q : List (List ℕ)) (m : Memory) → Holds q m → ring_run ops m ≡ queue_run ops q
unfolding ring_run queue_run
ring_run-eq-queue_run [] q m h = refl
ring_run-eq-queue_run (produce f ∷ ops) q m h =
    let (same, h') = send-Holds f q m h in rw (same, ring_run-eq-queue_run ops _ _ h')
ring_run-eq-queue_run (consume ∷ ops) q m h =
    let (same, h') = recv-Holds q m h in rw (same, ring_run-eq-queue_run ops _ _ h')

-- A window whose indices agree holds the empty queue.
pub empty-Holds : (m : Memory) → head m < 4294967296 → tail m ≡ head m → Holds [] m
empty-Holds m h e = record {
  head_range = h;
  tail_range = omega (arith, e);
  held = omega (arith, e);
  bounded = omega arith;
  slots = tt;
}
