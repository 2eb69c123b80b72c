-- ===== src/Fs/Kfs/Recover.antt =====
-- Mounting a volume whose log holds a list of records.
use mkgo.Common.{
  ℕ, suc, ◌+◌, ◌*◌, ◌≤◌, ◌<◌, ◌≡◌, refl, ◌∙◌, ap, arith, List, [], ◌∷◌, length, length-append, some,
  All,
}
use mkgo.Net.Ring.{load_bytes}
use mkgo.Fs.Path.{same}
use mkgo.Fs.Platform.{Platform, IsFaultless}
use mkgo.Fs.Kfs.{Tables, Contents, applied, panics, apply, no_tables, log_start}
use mkgo.Fs.Kfs.Log.{
  frame, next_record, replay_loop, replay, superblock, mount_sb, mount, outcome, volume, crashes,
  fresh,
}
use mkgo.Fs.Kfs.Append.{length-frame}
use mkgo.Fs.Kfs.Replay.{Written, OnDevice}
use mkgo.Fs.Kfs.Frames.{
  Rec, IsShort, apply_all, frames, Stops, next_record-tables, next_record-tables, loop_ends,
  loop_panics, replay_loop-frames,
}

module _ (e : Platform) (F : IsFaultless e) where
  length-frames : (rs : List Rec) → length rs ≤ length (frames e F rs)
  unfolding frames
  length-frames [] = omega arith
  length-frames ((typ, p) ∷ rs) = omega (
    arith,
    length-append (frame e typ p) (frames e F rs),
    length-frame e F typ p,
    length-frames rs,
  )

  -- The superblock, at the head of a device of 512-byte sectors.
  pub record HasSuperblock (d : e.Disk) : Type 0 where
    pub sectors : e.block_size d ≡ 512
    pub some_sector : 0 < e.num_blocks d
    pub first : load_bytes 0 512 (F.bytes d) ≡ superblock e 512 (e.num_blocks d)

  abbrev pub no_contents : Contents
  no_contents i = []

  pub length-superblock : (n : ℕ) → length (superblock e 512 n) ≤ 512
  unfolding superblock
  length-superblock n = omega arith

  superblock_accepted :
      (d : e.Disk) (n : ℕ)
      → e.block_size d ≡ 512
      → mount_sb e d (superblock e 512 n) ≡ outcome e (replay e (fresh e d (superblock e 512 n)))
  unfolding mount_sb superblock same
  superblock_accepted d n h = rw h refl

  -- The scan of a mount, from the place behind the records.
  mount_scan :
      (d : e.Disk) (rs : List Rec) (t : Tables) (c : Contents)
      → HasSuperblock d
      → All IsShort rs
      → Written log_start (frames e F rs) (F.bytes d)
      → log_start + length (frames e F rs) ≤ e.num_blocks d * 512
      → apply_all rs no_tables no_contents ≡ applied t c
      → (f : ℕ) × (mount e d
          ≡ outcome e (
              replay_loop e
                (suc f)
                (log_start + length (frames e F rs))
                (record (fresh e d (superblock e 512 (e.num_blocks d))) {
                  tables = t;
                  contents = c;
                })))
  unfolding mount replay
  mount_scan d rs t c s short w room done =
      let k = fresh e d (superblock e 512 (e.num_blocks d)) in
      let v : OnDevice e F k = record {
        blocks = refl;
        log_size = refl;
        cached = length-superblock _;
      } in
      let (f, run) =
        replay_loop-frames e F (suc k.log_end) log_start rs k t c (omega (arith, length-frames rs))
          v (omega arith) short w room done in
      (
        f,
        rw (F.read_within d 0 s.some_sector, mount)
            (rw s.first (superblock_accepted d (e.num_blocks d) s.sectors ∙ ap (outcome e) run)),
      )

  -- On a device without faults with a sound superblock, whose log starts with the frames of some
  -- records (not empty, and short enough for the replay) that `apply` accepts one after the other,
  -- and where no record can be read behind them or only one that `apply` refuses, be it the blank
  -- rest of the log or what a crash has torn: a mount succeeds, the tables and the contents are what
  -- the records do one after the other, and the next record will be appended behind them.
  pub mount-frames :
      (d : e.Disk) (rs : List Rec) (t : Tables) (c : Contents)
      → HasSuperblock d
      → All IsShort rs
      → Written log_start (frames e F rs) (F.bytes d)
      → log_start + length (frames e F rs) ≤ e.num_blocks d * 512
      → apply_all rs no_tables no_contents ≡ applied t c
      → Stops e F
          (log_start + length (frames e F rs))
          t
          c
          (fresh e d (superblock e 512 (e.num_blocks d)))
      → mount e d
        ≡ volume (record (fresh e d (superblock e 512 (e.num_blocks d))) {
          w_off = log_start + length (frames e F rs);
          tables = t;
          contents = c;
        })
  mount-frames d rs t c s short w room done stop =
      let (f, run) = mount_scan d rs t c s short w room done in
      let k = fresh e d (superblock e 512 (e.num_blocks d)) in
      run
      ∙ ap (outcome e) (
          loop_ends e F f (log_start + length (frames e F rs))
            (record k { tables = t; contents = c })
            (rw (next_record-tables e F (log_start + length (frames e F rs)) k t c) stop))

  -- A record behind them that panics takes the mount down.
  pub mount-panics :
      (d : e.Disk) (rs : List Rec) (r : Rec) (t : Tables) (c : Contents)
      → HasSuperblock d
      → All IsShort rs
      → Written log_start (frames e F rs) (F.bytes d)
      → log_start + length (frames e F rs) ≤ e.num_blocks d * 512
      → apply_all rs no_tables no_contents ≡ applied t c
      → next_record e
          (log_start + length (frames e F rs))
          (fresh e d (superblock e 512 (e.num_blocks d)))
        ≡ some r
      → apply r.0 r.1 t c ≡ panics
      → mount e d ≡ crashes
  mount-panics d rs r t c s short w room done next a =
      let (f, run) = mount_scan d rs t c s short w room done in
      let k = fresh e d (superblock e 512 (e.num_blocks d)) in
      let q = log_start + length (frames e F rs) in
      run
      ∙ ap (outcome e) (
          loop_panics e F f q (record k { tables = t; contents = c }) r
            (next_record-tables e F q k t c ∙ next) a)
