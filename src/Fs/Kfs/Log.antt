-- ===== src/Fs/Kfs/Log.antt =====
-- services/fs/kfs.go: the log on the device. `append`, the replay and the two ways to a volume.
use mkgo.Common.{
  ℕ, zero, suc, ◌+◌, ◌-◌, ◌*◌, ◌/◌, ◌%◌, Bool, true, false, ◌&&◌, ◌||◌, not, List, [], ◌∷◌, ◌++◌,
  length, ltb, leb, ◌==◌, if◌then◌else◌, Option, none, some, take, drop, min,
}
use mkgo.Common.Bytes.{byte_at, copy_at, make_bytes, slice}
use mkgo.Kern.Frame.{le32, le64, get32}
use mkgo.Fs.Path.{same}
use mkgo.Fs.Platform.{Platform}
use mkgo.Fs.Kfs.{
  Tables, Contents, Inode, no_tables, applied, refused, panics, apply, inode_payload, log_start,
  sector_size, hdr_len, max_payload, cp_every, rec_checkpoint, rec_inode, root_ino, kind_dir,
}

-- The errors of the file system, and those of the device.
pub data Error : Type 0 where
  no_entry exists not_dir is_dir no_space bad_name not_empty bad_superblock io : Error

pub data Result (A : Type 0) : Type 0 where
  ok : A → Result A
  err : Error → Result A

module _ (e : Platform) where
  -- `KFS`.
  pub record Kfs : Type 0 where
    pub disk : e.Disk
    pub num_blocks : ℕ
    pub tables : Tables
    pub contents : Contents
    pub log_data : List ℕ
    pub w_off : ℕ
    pub recs : ℕ
    pub log_end : ℕ

  -- A method returns its error, if any, and what it left behind.
  abbrev pub M : Type 0 → Type 0
  M A = Kfs → Result A × Kfs

  abbrev pub continue : {A B : Type 0} → Result A → (A → M B) → M B
  continue (ok a) f k = f a k
  continue (err x) f k = (err x, k)

  abbrev pub and_then : {A B : Type 0} → M A → (A → M B) → M B
  and_then m f k = let (r, k') = m k in continue r f k'

  -- The framed bytes of a record.
  unfoldable pub frame : ℕ → List ℕ → List ℕ
  frame typ payload = le32 (length payload) ++ (le32 (e.crc32 payload) ++ typ ∷ payload)

  abbrev pub written : Bool × e.Disk → Result (Unit {0}) × e.Disk
  written (false, d) = (err io, d)
  written (true, d) = (ok tt, d)

  -- The loop that reads a sector, changes some of its bytes and writes it back. Every round takes a
  -- byte at least.
  unfoldable pub rmw : ℕ → ℕ → List ℕ → e.Disk → Result (Unit {0}) × e.Disk
  rmw fuel si [] d = (ok tt, d)
  rmw zero si (b ∷ rest) d = (err io, d)
  rmw (suc fuel) si (b ∷ rest) d =
      let off = si % sector_size in
      let n = min (sector_size - off) (length (b ∷ rest)) in
      elim (e.read (si / sector_size) d) [
        | none ↦ (err io, d)
        | some sec ↦
            let (r, d') =
              written (e.write (si / sector_size) (copy_at off (take n (b ∷ rest)) sec) d) in
            let more = rmw fuel (si + n) (drop n (b ∷ rest)) d' in
            elim r [ err x ↦ (err x, d') | ok x ↦ more ]
      ]

  -- The fast path writes whole sectors at once.
  unfoldable pub put_raw : ℕ → List ℕ → e.Disk → Result (Unit {0}) × e.Disk
  unfolding rmw
  put_raw start raw d =
      if start % sector_size == 0 && length raw % sector_size == 0
      then written (e.write (start / sector_size) raw d)
      else rmw (length raw) start raw d

  -- The cursor moves when the bytes are written.
  abbrev pub advance : ℕ → Result (Unit {0}) × e.Disk → Kfs → Result (Unit {0}) × Kfs
  advance n (ok x, d) k = (ok tt, record k { disk = d; w_off = k.w_off + n })
  advance n (err x, d) k = (err x, record k { disk = d })

  unfoldable pub write_record : ℕ → List ℕ → M (Unit {0})
  unfolding frame put_raw
  write_record typ payload k =
      let n = hdr_len + length payload in
      if ltb k.log_end (k.w_off + n)
      then (err no_space, k)
      else advance n (put_raw k.w_off (frame typ payload) k.disk) k

  -- `appendCheckpoint`; `append` of a checkpoint does nothing more than write it.
  unfoldable pub append_checkpoint : M (Unit {0})
  unfolding write_record
  append_checkpoint k = write_record rec_checkpoint (le32 k.tables.next_ino) k

  -- Every 64th record is followed by a checkpoint.
  unfoldable pub pace : M (Unit {0})
  unfolding append_checkpoint
  pace k =
      let k' = record k { recs = k.recs + 1 } in
      if k'.recs % cp_every == 0 then append_checkpoint k' else (ok tt, k')

  -- `append` of a record that is not a checkpoint.
  unfoldable pub append : ℕ → List ℕ → M (Unit {0})
  unfolding write_record pace
  append typ payload = and_then (write_record typ payload) (λ x. pace)

  -- The loop of `readAt` over the sectors. Every round takes a byte at least.
  unfoldable pub read_loop : ℕ → ℕ → ℕ → e.Disk → Option (List ℕ)
  read_loop fuel si zero d = some []
  read_loop zero si (suc n) d = none
  read_loop (suc fuel) si (suc n) d =
      let m = min (512 - si % 512) (suc n) in
      elim (e.read (si / 512) d) [
        | none ↦ none
        | some sec ↦ elim (read_loop fuel (si + m) (suc n - m) d) [
          | none ↦ none
          | some rest ↦ some (slice (si % 512) (si % 512 + m) sec ++ rest)
        ]
      ]

  -- `readAt` of `n` bytes.
  unfoldable pub read_at : ℕ → ℕ → Kfs → Option (List ℕ)
  unfolding read_loop
  read_at off n k =
      if leb k.num_blocks (off / 512)
      then none
      else if leb (off + n) (length k.log_data)
      then some (slice off (off + n) k.log_data)
      else read_loop n off n k.disk

  -- The payload behind a header, if its checksum holds.
  unfoldable pub read_payload : ℕ → List ℕ → Kfs → Option (ℕ × List ℕ)
  read_payload pos hdr k =
      let plen = get32 hdr 0 in
      if ltb max_payload plen || ltb k.log_end (pos + hdr_len + plen)
      then none
      else elim (read_at (pos + hdr_len) plen k) [
        | none ↦ none
        | some payload ↦
            if e.crc32 payload == get32 hdr 4 then some (byte_at hdr 8, payload) else none
      ]

  -- One round of `replay` up to `apply`: the record at `pos`, or `none` where the scan ends.
  unfoldable pub next_record : ℕ → Kfs → Option (ℕ × List ℕ)
  next_record pos k =
      if ltb k.log_end (pos + hdr_len)
      then none
      else elim (read_at pos hdr_len k) [ none ↦ none | some hdr ↦ read_payload pos hdr k ]

  -- The loop of `replay`; `none` is a panic. Every round takes nine bytes at least.
  unfoldable pub replay_loop : ℕ → ℕ → Kfs → Option Kfs
  replay_loop zero pos k = some (record k { w_off = pos })
  replay_loop (suc fuel) pos k = elim (next_record pos k) [
    | none ↦ some (record k { w_off = pos })
    | some (typ, payload) ↦ elim (apply typ payload k.tables k.contents) [
      | applied t c ↦
          replay_loop fuel (pos + (hdr_len + length payload))
            (record k { tables = t; contents = c })
      | refused ↦ some (record k { w_off = pos })
      | panics ↦ none
    ]
  ]

  unfoldable pub replay : Kfs → Option Kfs
  replay k = replay_loop (suc k.log_end) k.w_off k

  -- The bytes `KFS1`.
  abbrev pub magic : List ℕ
  magic = 75 ∷ 70 ∷ 83 ∷ 49 ∷ []

  -- What a mount comes to.
  pub data Mounted : Type 0 where
    volume : Kfs → Mounted
    fails : Error → Mounted
    crashes : Mounted

  abbrev pub outcome : Option Kfs → Mounted
  outcome (some k) = volume k
  outcome none = crashes

  abbrev pub fresh : e.Disk → List ℕ → Kfs
  fresh d sb = record {
    disk = d;
    num_blocks = e.num_blocks d;
    tables = no_tables;
    contents = λ i. [];
    log_data = sb;
    w_off = log_start;
    recs = 0;
    log_end = e.num_blocks d * 512;
  }

  unfoldable pub mount_sb : e.Disk → List ℕ → Mounted
  mount_sb d sb =
      if not (same (slice 0 4 sb) magic && get32 sb 4 == e.block_size d)
      then fails bad_superblock
      else if not (get32 sb 16 == log_start / 512)
      then fails bad_superblock
      else outcome (replay (fresh d sb))

  -- `MountKFS`.
  unfoldable pub mount : e.Disk → Mounted
  mount d = elim (e.read 0 d) [ none ↦ fails io | some sb ↦ mount_sb d sb ]

  -- The superblock that `FormatKFS` writes.
  unfoldable pub superblock : ℕ → ℕ → List ℕ
  superblock bs n =
      let sb = copy_at 0 magic (make_bytes 512) in
      let sb = copy_at 4 (le32 bs) sb in
      let sb = copy_at 8 (le64 n) sb in
      let sb = copy_at 16 (le32 (log_start / 512)) sb in copy_at 20 (le32 1) sb

  abbrev pub root : Inode
  root = record { ino = root_ino; uid = 0; kind = kind_dir; size = 0 }

  -- `FormatKFS`, with the volume that it has built and drops.
  unfoldable pub format : e.Disk → Result (Unit {0}) × Kfs
  unfolding append append_checkpoint superblock
  format d =
      let bs = e.block_size d in
      let n = e.num_blocks d in
      let k = record (fresh d []) { tables = record no_tables { next_ino = root_ino + 1 } } in
      if not (bs == 512) || ltb n 16
      then (err bad_superblock, k)
      else let (r, d') = written (e.write 0 (superblock bs n) d) in
        continue r (λ x. and_then (append rec_inode (inode_payload root)) (λ y. append_checkpoint))
          (record k { disk = d' })
