-- ===== src/Fs/Kfs/Replay.antt =====
-- The scan of the log: what `readAt` reads, the record that a frame holds, and where `replay` ends.
use mkgo.Common.{
  ℕ, zero, suc, ◌+◌, ◌-◌, ◌*◌, ◌/◌, ◌%◌, ◌≤◌, ◌<◌, ◌≡◌, refl, sym, ◌∙◌, ap, arith, true, false,
  List, [], ◌∷◌, ◌++◌, length, take, drop, length-append, take-length_append, drop-length_append,
  ltb, leb, ◌==◌, ◌||◌, Option, some, min,
}
use mkgo.Kern.Frame.{le32, get32}
use mkgo.Net.Ring.{Memory, load_bytes}
use mkgo.Fs.Platform.{Platform, IsFaultless}
use mkgo.Fs.Kfs.{max_payload}
use mkgo.Fs.Kfs.Log.{Kfs, frame, read_loop, read_at, read_payload, next_record}
use mkgo.Fs.Kfs.Append.{length-frame}
use mkgo.Fs.Kfs.Memory.{load_bytes_add, take-load_bytes, drop-load_bytes, slice-load_bytes}

-- The bytes stand at the address.
abbrev pub Written : ℕ → List ℕ → Memory → Type 0
Written at b m = load_bytes at (length b) m ≡ b

pub Written-left : (at : ℕ) (b c : List ℕ) (m : Memory) → Written at (b ++ c) m → Written at b m
Written-left at b c m h =
    sym (take-load_bytes at (length b) (length (b ++ c)) m (omega (arith, length-append b c)))
    ∙ ap (take (length b)) h
    ∙ take-length_append b c

pub Written-right :
    (at : ℕ) (b c : List ℕ) (m : Memory) → Written at (b ++ c) m → Written (at + length b) c m
Written-right at b c m h =
    let l : length (b ++ c) - length b ≡ length c = omega (arith, length-append b c) in
    ap (λ (n : ℕ). load_bytes (at + length b) n m) (sym l)
    ∙ sym (drop-load_bytes at (length b) (length (b ++ c)) m (omega (arith, length-append b c)))
    ∙ ap (drop (length b)) h
    ∙ drop-length_append b c

pub Written-append :
    (at : ℕ) (b c : List ℕ) (m : Memory)
    → Written at b m
    → Written (at + length b) c m
    → Written at (b ++ c) m
Written-append at b c m h k =
    rw (length-append b c, load_bytes_add at (length b) (length c) m, h, k) refl

-- Four bytes give back the number.
get32-le32 : (v : ℕ) → v < 4294967296 → get32 (le32 v) 0 ≡ v
get32-le32 v h = omega arith

no_bytes : (at : ℕ) (m : Memory) → ◌≡◌ {A = Option (List ℕ)} (some []) (some (load_bytes at 0 m))
unfolding load_bytes
no_bytes at m = refl

module _ (e : Platform) (F : IsFaultless e) where
  pub read_loop-eq-load_bytes :
      (fuel si n : ℕ) (d : e.Disk)
      → n ≤ fuel
      → si + n ≤ e.num_blocks d * 512
      → read_loop e fuel si n d ≡ some (load_bytes si n (F.bytes d))
  unfolding read_loop
  read_loop-eq-load_bytes fuel si zero d h k = no_bytes si (F.bytes d)
  read_loop-eq-load_bytes zero si (suc n) d h k = absurd (omega arith)
  read_loop-eq-load_bytes (suc fuel) si (suc n) d h k =
      let m = min (512 - si % 512) (suc n) in
      let whole : m + (suc n - m) ≡ suc n = omega arith in
      let at : si / 512 * 512 + si % 512 ≡ si = omega arith in
      rw (F.read_within d (si / 512) (omega arith), read_loop)
        (rw
          (
            read_loop-eq-load_bytes fuel (si + m) (suc n - m) d (omega arith) (omega arith),
            slice-load_bytes (si / 512 * 512) (si % 512) m 512 (F.bytes d) (omega arith),
            at,
          )
          (ap (λ (l : List ℕ). some l)
            (sym (load_bytes_add si m (suc n - m) (F.bytes d))
              ∙ ap (λ (l : ℕ). load_bytes si l (F.bytes d)) whole)))

  -- The volume knows its device, and has in memory the superblock at most.
  pub record OnDevice (k : Kfs e) : Type 0 where
    pub blocks : k.num_blocks ≡ e.num_blocks k.disk
    pub log_size : k.log_end ≡ e.num_blocks k.disk * 512
    pub cached : length k.log_data ≤ 512

  pub read_at-eq-load_bytes :
      (off n : ℕ) (k : Kfs e)
      → OnDevice k
      → 512 ≤ off
      → 0 < n
      → off + n ≤ k.log_end
      → read_at e off n k ≡ some (load_bytes off n (F.bytes k.disk))
  unfolding read_at
  read_at-eq-load_bytes off n k v h p q =
      let inside : leb k.num_blocks (off / 512) ≡ false = ground (arith, v.blocks, v.log_size) in
      let device : leb (off + n) (length k.log_data) ≡ false = ground (arith, v.cached) in
      rw (inside, device)
        (read_loop-eq-load_bytes n off n k.disk (omega arith) (omega (arith, v.log_size)))

  abbrev header : ℕ → List ℕ → List ℕ
  header typ payload = le32 (length payload) ++ (le32 (e.crc32 payload) ++ typ ∷ [])

  -- The record that is framed at a place of the log is the one that the scan reads there.
  pub next_record-frame :
      (pos typ : ℕ) (payload : List ℕ) (k : Kfs e)
      → OnDevice k
      → 512 ≤ pos
      → 0 < length payload
      → length payload ≤ max_payload
      → pos + length (frame e typ payload) ≤ k.log_end
      → Written pos (frame e typ payload) (F.bytes k.disk)
      → next_record e pos k ≡ some (typ, payload)
  unfolding next_record read_payload frame
  next_record-frame pos typ payload k v h some_bytes short room w =
      let len = length-frame e F typ payload in
      let hdr = header typ payload in
      let m = F.bytes k.disk in
      let crc = F.crc32_range payload in
      let read_header : read_at e pos 9 k ≡ some hdr =
        read_at-eq-load_bytes pos 9 k v h (omega arith) (omega arith)
        ∙ ap (λ (l : List ℕ). some l) (Written-left pos hdr payload m w) in
      let read_rest : read_at e (pos + 9) (length payload) k ≡ some payload =
        read_at-eq-load_bytes (pos + 9) (length payload) k v (omega arith) some_bytes (omega arith)
        ∙ ap (λ (l : List ℕ). some l) (Written-right pos hdr payload m w) in
      let plen : get32 hdr 0 ≡ length payload = omega arith in
      let sum : get32 hdr 4 ≡ e.crc32 payload = omega arith in
      let fits : ltb k.log_end (pos + 9) ≡ false = ground arith in
      let holds : ltb max_payload (length payload) || ltb k.log_end (pos + 9 + length payload)
          ≡ false =
        ground arith in
      let checks : e.crc32 payload == get32 hdr 4 ≡ true = ground arith in
      rw (fits, read_header) (rw plen (rw holds (rw read_rest (rw checks refl))))
