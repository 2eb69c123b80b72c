-- ===== src/Net/Ring.antt =====
-- services/net/packet.go: the packet windows, and the wires of the tests.
pub mod Memory
pub mod Moves
pub mod Refines
use mkgo.Common.{
  ℕ, zero, suc, ◌+◌, ◌*◌, ◌%◌, ◌-◌, Bool, true, false, ◌||◌, List, [], ◌∷◌, ◌++◌, length, map, ltb,
  leb, ◌==◌, if◌then◌else◌, get_or, Option, none, some,
}
use mkgo.Kern.Frame.{le32}

-- The bytes of a window; `NewWindowRing` has checked that there are `ring_size` of them.
abbrev pub Memory : Type 0
Memory = ℕ → ℕ

abbrev pub win_slots : ℕ
win_slots = 256

abbrev pub slot_data_len : ℕ
slot_data_len = 1526

abbrev pub slot_stride : ℕ
slot_stride = 1536

abbrev pub ring_header_len : ℕ
ring_header_len = 8

abbrev pub ring_size : ℕ
ring_size = ring_header_len + win_slots * slot_stride

-- `NewWindowRing` on a buffer of that many bytes: is it accepted?
unfoldable pub new_window_ring : ℕ → Bool
new_window_ring len = leb ring_size len

-- `mem[a] = b`.
unfoldable pub update : ℕ → ℕ → Memory → Memory
update a b m i = if i == a then b else m i

-- `mem[a : a+n]`, read and written.
unfoldable pub load_bytes : ℕ → ℕ → Memory → List ℕ
load_bytes a zero m = []
load_bytes a (suc n) m = m a ∷ load_bytes (a + 1) n m

unfoldable pub store_bytes : ℕ → List ℕ → Memory → Memory
unfolding update
store_bytes a [] m = m
store_bytes a (b ∷ l) m = update a b (store_bytes (a + 1) l m)

-- `lib.Get32(mem[a:])` and `lib.Put32(mem[a:], v)`.
unfoldable pub load32 : ℕ → Memory → ℕ
load32 a m = m a + m (a + 1) * 256 + m (a + 2) * 65536 + m (a + 3) * 16777216

unfoldable pub store32 : ℕ → ℕ → Memory → Memory
unfolding store_bytes
store32 a v m = store_bytes a (le32 v) m

abbrev pub head : Memory → ℕ
head m = load32 0 m

abbrev pub tail : Memory → ℕ
tail m = load32 4 m

-- `h + 1` of a `uint32`.
abbrev pub next : ℕ → ℕ
next n = (n + 1) % 4294967296

unfoldable pub slot_base : ℕ → ℕ
slot_base n = ring_header_len + n % win_slots * slot_stride

-- `Recv`.
abbrev pub clamp_len : ℕ → ℕ
clamp_len u = if ltb slot_data_len u then slot_data_len else u

unfoldable pub recv : Memory → Option (List ℕ) × Memory
unfolding load32 store32 slot_base load_bytes
recv m =
    let h = head m in
    if h == tail m then (none, m) else (
      some (load_bytes (slot_base h + 4) (clamp_len (load32 (slot_base h) m)) m),
      store32 0 (next h) m,
    )

-- `Send`; `t - h` wraps.
unfoldable pub send : List ℕ → Memory → Bool × Memory
unfolding load32 store32 slot_base store_bytes
send frame m =
    let t = tail m in
    if length frame == 0 || ltb slot_data_len (length frame)
    then (false, m)
    else if leb win_slots ((t + 4294967296 - head m) % 4294967296)
    then (false, m)
    else (
      true,
      store32 4 (next t)
          (store_bytes (slot_base t + 4) frame (store32 (slot_base t) (length frame) m)),
    )

-- `Wire`: the frames that are under way, oldest first.
unfoldable pub wire_send : List ℕ → List (List ℕ) → List (List ℕ)
wire_send frame frames = frames ++ frame ∷ []

unfoldable pub wire_recv : List (List ℕ) → Option (List ℕ) × List (List ℕ)
wire_recv [] = (none, [])
wire_recv (f ∷ frames) = (some f, frames)

-- `Segment`: the inbox of every attached port, in the order of `Attach`.
unfoldable pub attach : List (List (List ℕ)) → List (List (List ℕ))
attach ports = ports ++ [] ∷ []

-- `SegmentPort.Send`: every port is handed the frame, the sender too.
unfoldable pub segment_send : List ℕ → List (List (List ℕ)) → List (List (List ℕ))
unfolding wire_send
segment_send frame ports = map (wire_send frame) ports

-- `SegmentPort.Recv` at the port `i`.
unfoldable pub segment_recv : ℕ → List (List (List ℕ)) → Option (List ℕ) × List (List (List ℕ))
unfolding wire_recv
segment_recv i [] = (none, [])
segment_recv zero (inbox ∷ ports) = let (f, inbox') = wire_recv inbox in (f, inbox' ∷ ports)
segment_recv (suc i) (inbox ∷ ports) = let (f, ports') = segment_recv i ports in (f, inbox ∷ ports')
