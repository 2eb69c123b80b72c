-- ===== src/Fs/Kfs/Format.antt =====
-- A device that `FormatKFS` has written, and the volume that a mount makes of it.
use mkgo.Common.{
  ℕ, ◌+◌, ◌*◌, ◌%◌, ◌≤◌, ◌≡◌, inl, inr, refl, sym, ◌∙◌, ap, arith, true, false, not, ◌||◌, List, [],
  length, ltb, ◌==◌, none, some, Bool-cases, ◌⊎◌, if◌then◌else◌,
}
use mkgo.Kern.Frame.{le32}
use mkgo.Net.Ring.{Memory, load_bytes, store_bytes}
use mkgo.Net.Ring.Memory.{load_bytes-store_bytes, store_bytes-outside}
use mkgo.Fs.Platform.{Platform, IsFaultless}
use mkgo.Fs.Kfs.{
  Inode, Tables, applied, no_tables, put_inode, inode_payload, root_ino, rec_inode, log_start,
  rec_checkpoint,
}
use mkgo.Fs.Kfs.Log.{
  Kfs, M, Result, ok, and_then, continue, written, append, append_checkpoint, write_record, pace,
  superblock, fresh, root, format, mount, volume,
}
use mkgo.Fs.Kfs.Append.{Puts, written-Puts}
use mkgo.Fs.Kfs.Payloads.{IsSmall, apply-inode_payload, length-inode_payload}
use mkgo.Fs.Kfs.Replay.{Written}
use mkgo.Fs.Kfs.Recover.{no_contents}
use mkgo.Fs.Kfs.Frames.{frames, apply_all}
use mkgo.Fs.Kfs.Durable.{Log, Log-forget, write_record-succeeds, checkpoint_idle}
use mkgo.Fs.Kfs.Nodes.{Durable, Sane}
use mkgo.Fs.Kfs.Sessions.{mounted, mounted-Log}
use mkgo.Fs.Kfs.Remount.{mount-Log}

module _ (e : Platform) (F : IsFaultless e) where
  -- A device that nothing was written to, of 512-byte sectors.
  pub record IsBlank (d : e.Disk) : Type 0 where
    pub sectors : e.block_size d ≡ 512
    pub enough : 16 ≤ e.num_blocks d
    pub zeros : (i : ℕ) → F.bytes d i ≡ 0

  -- The volume that is formatted, with its superblock written.
  abbrev start : e.Disk → Kfs e
  start d = record (fresh e d []) { tables = record no_tables { next_ino = root_ino + 1 } }

  abbrev headed : e.Disk → e.Disk
  headed d = (written e (e.write 0 (superblock e 512 (e.num_blocks d)) d)).1

  length-superblock_512 : (n : ℕ) → length (superblock e 512 n) ≡ 512
  unfolding superblock
  length-superblock_512 n = refl

  headed-Puts :
      (d : e.Disk)
      → IsBlank d
      → Puts e F 0
          (superblock e 512 (e.num_blocks d))
          d
          (written e (e.write 0 (superblock e 512 (e.num_blocks d)) d))
  headed-Puts d b =
      written-Puts e F 0 1 (superblock e 512 (e.num_blocks d)) d
        (length-superblock_512 (e.num_blocks d)) (omega (arith, b.enough))

  no_frames : (m : Memory) → Written log_start (frames e F []) m
  unfolding frames load_bytes
  no_frames m = refl

  no_length : log_start ≡ log_start + length (frames e F [])
  unfolding frames
  no_length = omega arith

  no_records : apply_all [] no_tables (no_contents e F) ≡ applied no_tables (no_contents e F)
  unfolding apply_all
  no_records = refl

  -- An empty log stands behind the superblock.
  headed-Log :
      (d : e.Disk)
      → IsBlank d
      → Log e F (record (start d) { disk = headed d }) no_tables (no_contents e F)
  headed-Log d b =
      let (good, s) = headed-Puts d b in
      let sb = superblock e 512 (e.num_blocks d) in
      let len = length-superblock_512 (e.num_blocks d) in
      record {
        device = record {
          blocks = sym s.same_blocks;
          log_size = ap (λ (n : ℕ). n * 512) (sym s.same_blocks);
          cached = omega arith;
        };
        super = record {
          sectors = s.same_size ∙ b.sectors;
          some_sector = omega (arith, s.same_blocks, b.enough);
          first =
              ap (load_bytes 0 512) s.stored
              ∙ ap (λ (n : ℕ). load_bytes 0 n (store_bytes 0 sb (F.bytes d))) (sym len)
              ∙ load_bytes-store_bytes sb 0 (F.bytes d)
              ∙ ap (superblock e 512) (sym s.same_blocks);
        };
        recs = [];
        short = tt;
        written = no_frames (F.bytes (headed d));
        cursor = no_length;
        room = omega (arith, b.enough);
        replays = no_records;
        blank = λ i h.
            ap (λ (f : Memory). f i) s.stored
            ∙ store_bytes-outside sb 0 (F.bytes d) i (inr (omega (arith, len)))
            ∙ b.zeros i;
      }

  root-IsSmall : IsSmall (root e)
  root-IsSmall = record {
    ino_range = omega arith;
    uid_range = omega arith;
    size_range = omega arith;
  }

  abbrev pub rooted : Tables
  rooted = put_inode (root e) no_tables

  rooted_next : rooted.next_ino ≡ 2
  unfolding put_inode
  rooted_next = refl

  rooted-Sane : Sane rooted
  unfolding put_inode
  rooted-Sane = record {
    has_root = omega arith;
    counted = omega arith;
    keyed = λ i n h. ground arith;
    small = λ i n h. small_root i n h (Bool-cases (i == 1));
    no_entries = λ i h. refl;
  }
    where
      small_root :
          (i : ℕ) (n : Inode)
          → (if i == 1 then some (root e) else none) ≡ some n
          → ((i == 1) ≡ true) ⊎ ((i == 1) ≡ false)
          → IsSmall n
      small_root i n h (inl same) =
          let h' = rw same at h in let q : root e ≡ n = cc in rw (← q) root-IsSmall
      small_root i n h (inr other) = absurd (let h' = rw other at h in cc)

  abbrev headed_volume : e.Disk → Kfs e
  headed_volume d = record (start d) { disk = headed d }

  format_run :
      (d : e.Disk)
      → IsBlank d
      → format e d
        ≡ and_then e
            (append e rec_inode (inode_payload (root e)))
            (λ x. append_checkpoint e)
            (headed_volume d)
  unfolding format
  format_run d b =
      let fits : (not (512 == 512) || ltb (e.num_blocks d) 16) ≡ false = ground (arith, b.enough) in
      rw b.sectors (
        rw fits (
          ap
            (λ (w : Result (Unit {0}) × e.Disk).
              continue e w.0
                (λ x.
                  and_then e (append e rec_inode (inode_payload (root e)))
                    (λ y. append_checkpoint e))
                (record (start d) { disk = w.1 }))
            (headed-Puts d b).0))

  and_then_ok :
      (m : M e (Unit {0})) (f : Unit {0} → M e (Unit {0})) (k k' : Kfs e)
      → m k ≡ (ok tt, k')
      → and_then e m f k ≡ f tt k'
  and_then_ok m f k k' h = ap (λ (w : Result (Unit {0}) × Kfs e). continue e w.0 f w.1) h

  -- The first record needs no checkpoint.
  pace_first : (k : Kfs e) → k.recs ≡ 0 → pace e k ≡ (ok tt, record k { recs = k.recs + 1 })
  unfolding pace
  pace_first k h = let quiet : (k.recs + 1) % 64 == 0 ≡ false = ground arith in rw quiet refl

  appended :
      (p : List ℕ) (k k' : Kfs e)
      → write_record e rec_inode p k ≡ (ok tt, k')
      → k'.recs ≡ 0
      → append e rec_inode p k ≡ (ok tt, record k' { recs = k'.recs + 1 })
  unfolding append
  appended p k k' h r =
      and_then_ok (write_record e rec_inode p) (λ x. pace e) k k' h ∙ pace_first k' r

  checkpointed :
      (k k' : Kfs e)
      → write_record e rec_checkpoint (le32 k.tables.next_ino) k ≡ (ok tt, k')
      → append_checkpoint e k ≡ (ok tt, k')
  unfolding append_checkpoint
  checkpointed k k' h = h

  formatted :
      (d : e.Disk)
      → IsBlank d
      → (k : Kfs e) × (format e d ≡ (ok tt, k)) × Log e F k rooted (no_contents e F)
  formatted d b =
      let k0 = headed_volume d in
      let p = inode_payload (root e) in
      let len = length-inode_payload (root e) in
      let (k1, good1, a1, off1, recs1, end1) =
        write_record-succeeds e F rec_inode p k0 no_tables rooted (no_contents e F)
          (no_contents e F) (headed-Log d b) (omega arith)
          (apply-inode_payload (root e) no_tables (no_contents e F) root-IsSmall)
          (omega (arith, b.enough)) in
      let k2 = record k1 { recs = k1.recs + 1 } in
      let next : k1.tables.next_ino ≡ 2 = ap (λ (t : Tables). t.next_ino) a1.same_tables in
      let cp = le32 k1.tables.next_ino in
      let (k3, good3, a3, off3, recs3, end3) =
        write_record-succeeds e F rec_checkpoint cp k2 rooted rooted (no_contents e F)
          (no_contents e F)
          (Log-forget e F k1 rooted k1.tables (no_contents e F) k1.contents (k1.recs + 1) a1.log)
          (omega arith, omega arith)
          (checkpoint_idle e F k1.tables.next_ino rooted (no_contents e F) (rooted_next ∙ sym next)
            (omega arith))
          (omega (arith, b.enough)) in
      (
        k3,
        format_run d b
            ∙ and_then_ok (append e rec_inode p) (λ x. append_checkpoint e) k0 k2
                (appended p k0 k1 good1 recs1)
            ∙ checkpointed k2 k3 good3,
        a3.log,
      )

  -- Formatting a blank device of at least 16 sectors, without faults, succeeds. A mount of it then
  -- gives a durable volume that holds the root directory and nothing else.
  pub mount-format :
      (d : e.Disk)
      → IsBlank d
      → ((format e d).0 ≡ ok tt)
        × ((v : Kfs e) × (mount e (format e d).1.disk ≡ volume v)
            × (v.tables ≡ rooted)
            × Durable e F v)
  mount-format d b =
      let (k, good, l) = formatted d b in
      let c = no_contents e F in
      (
        ap (λ (w : Result (Unit {0}) × Kfs e). w.0) good,
        (
          mounted e F k rooted c,
          ap (λ (w : Result (Unit {0}) × Kfs e). mount e w.1.disk) good
              ∙ mount-Log e F k rooted c l,
          refl,
          record { contents = c; log = mounted-Log e F k rooted c l; sane = rooted-Sane },
        ),
      )
