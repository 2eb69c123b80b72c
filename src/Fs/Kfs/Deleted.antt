-- ===== src/Fs/Kfs/Deleted.antt =====
-- A removal, and a write at a far offset, as a later mount sees them.
use mkgo.Common.{
  ℕ, ◌+◌, ◌%◌, ◌≤◌, ◌<◌, ◌≡◌, inl, inr, refl, sym, ◌∙◌, ap, arith, ◌&&◌, not, List, length, ◌==◌,
  Option, none, some, Bool-cases,
}
use mkgo.Fs.Platform.{Platform, IsFaultless}
use mkgo.Fs.Kfs.{
  Inode, Tables, Contents, Applied, refused, panics, log_start, rec_dirent, rec_data,
  delete_payload, data_payload, trunc_sent, kind_dir, remove_dirent,
}
use mkgo.Fs.Kfs.Log.{Kfs, and_then, append, mount, volume, crashes, superblock, fresh, next_record}
use mkgo.Fs.Kfs.Payloads.{
  apply-delete_payload, length-delete_payload, apply-data_payload_panics, length-data_payload,
}
use mkgo.Fs.Kfs.Ops.{
  set_tables, set_contents, append_dirent_delete, delete_entry, delete, new_size, resize,
  write_inode, write_entry, write_file,
}
use mkgo.Fs.Kfs.Paths.{dir_inode, live_children}
use mkgo.Fs.Kfs.Replay.{OnDevice, next_record-frame}
use mkgo.Fs.Kfs.Recover.{length-superblock, mount-frames, mount-panics}
use mkgo.Fs.Kfs.Frames.{frames}
use mkgo.Fs.Kfs.After.{After, After-weaken, and_then-After}
use mkgo.Fs.Kfs.Nodes.{Durable}
use mkgo.Fs.Kfs.Walk.{IsPlace}
use mkgo.Fs.Kfs.Keeps.{at_path-After}
use mkgo.Fs.Kfs.Ride.{Rides, tables_ride, contents_ride, resize_ride, chain}
use mkgo.Fs.Kfs.Lost.{Stuck, Stuck-forget, append-Stuck, append_first}
use mkgo.Fs.Kfs.Sessions.{Op, session, session_ride}

module _ (e : Platform) (F : IsFaultless e) where
  abbrev sound : Kfs e → Kfs e
  sound k = fresh e k.disk (superblock e 512 (e.num_blocks k.disk))

  module _ (t : Tables) (c : Contents) (a : Applied) (q : ℕ) where
    logs : (typ : ℕ) (p : List ℕ) → Rides e (Stuck e F t c a q) (append e typ p)
    logs typ p k s = append-Stuck e F t c a q typ p k s

    forgets :
        (k : Kfs e) (u : Tables) (x : Contents)
        → Stuck e F t c a q k
        → Stuck e F t c a q (record k { tables = u; contents = x })
    forgets k u x s = Stuck-forget e F t u c x a q k.recs k s

    bad_next : (k : Kfs e) (s : Stuck e F t c a q k) → next_record e q (sound k) ≡ some s.bad
    bad_next k s =
        let v : OnDevice e F (sound k) = record {
          blocks = refl;
          log_size = refl;
          cached = length-superblock e F _;
        } in
        next_record-frame e F q s.bad.0 s.bad.1 (sound k) v (omega (arith, s.place)) s.bad_short.0
          s.bad_short.1 (omega (arith, s.behind, s.room, s.device.log_size)) s.bad_written

  -- The tables that a later mount finds, and where it goes on in the log.
  abbrev pub MountsTo : Tables → ℕ → Kfs e → Type 0
  MountsTo t q k = (v : Kfs e) × (mount e k.disk ≡ volume v) × (v.tables ≡ t) × (v.w_off ≡ q)

  Stuck-MountsTo :
      (t : Tables) (c : Contents) (q : ℕ) (k : Kfs e) → Stuck e F t c refused q k → MountsTo t q k
  Stuck-MountsTo t c q k s =
      let next : next_record e (log_start + length (frames e F s.recs)) (sound k) ≡ some s.bad =
        ap (λ (n : ℕ). next_record e n (sound k)) (sym s.place) ∙ bad_next t c refused q k s in
      (
        record (sound k) {
          w_off = log_start + length (frames e F s.recs);
          tables = t;
          contents = c;
        },
        mount-frames e F k.disk s.recs t c s.super s.short s.written
            (omega (arith, s.place, s.behind, s.room, s.device.log_size)) s.replays
            (inr (s.bad, next, s.fails)),
        refl,
        sym s.place,
      )

  Stuck-crashes :
      (t : Tables) (c : Contents) (q : ℕ) (k : Kfs e)
      → Stuck e F t c panics q k
      → mount e k.disk ≡ crashes
  Stuck-crashes t c q k s =
      let next : next_record e (log_start + length (frames e F s.recs)) (sound k) ≡ some s.bad =
        ap (λ (n : ℕ). next_record e n (sound k)) (sym s.place) ∙ bad_next t c panics q k s in
      mount-panics e F k.disk s.recs s.bad t c s.super s.short s.written
        (omega (arith, s.place, s.behind, s.room, s.device.log_size)) s.replays next s.fails

  delete_entry-Stuck :
      (m parent : ℕ) (leaf : List ℕ) (entry : Option ℕ) (k : Kfs e) (d : Durable e F k)
      → m ≤ 65525
      → IsPlace m k.tables parent leaf
      → After e (Stuck e F k.tables d.contents refused k.w_off) (delete_entry e parent leaf entry k)
  unfolding delete_entry append_dirent_delete
  delete_entry-Stuck m parent leaf none k d h p = tt
  delete_entry-Stuck m parent leaf (some ino) k d h p =
      let P = Stuck e F k.tables d.contents refused k.w_off in
      let ls = logs k.tables d.contents refused k.w_off in
      let fs = forgets k.tables d.contents refused k.w_off in
      elim (Bool-cases (
        dir_inode (k.tables.inodes ino)
        && not (length (live_children k.tables (k.tables.children ino)) == 0))) [
          | inl full ↦ rw (full, After) tt
          | inr empty ↦ rw empty (
              and_then-After e (append_dirent_delete e parent leaf) (λ x. set_contents e ino) P P k
                (and_then-After e (append e rec_dirent (delete_payload parent leaf))
                  (λ x. set_tables e (remove_dirent parent leaf)) P P k
                  (append_first e F k.tables d.contents refused rec_dirent
                    (delete_payload parent leaf) k d.log
                    (omega (arith, length-delete_payload parent leaf, p.leaf_len))
                    (apply-delete_payload parent leaf k.tables d.contents
                      (omega (arith, p.leaf_len))))
                  (tables_ride e P ls fs (remove_dirent parent leaf)))
                (contents_ride e P ls fs ino))
        ]

  -- On a device without faults, when a removal on a durable volume succeeds (by a path that fits a
  -- record) and so do the operations behind it, whatever they are, then a mount of the device finds
  -- the tables of before the removal, and goes on in the log at the place of the removal: the record
  -- that `Delete` writes is one that the replay refuses. The removed entry is there again, and all
  -- that was created, written or owned since is lost.
  pub delete-lost :
      (path : List ℕ) (ops : List Op) (k : Kfs e)
      → Durable e F k
      → length path ≤ 65525
      → After e (MountsTo k.tables k.w_off) (and_then e (delete e path) (λ x. session e F ops) k)
  unfolding delete
  delete-lost path ops k d h =
      let P = Stuck e F k.tables d.contents refused k.w_off in
      let ls = logs k.tables d.contents refused k.w_off in
      let fs = forgets k.tables d.contents refused k.w_off in
      After-weaken e P (MountsTo k.tables k.w_off)
        (and_then e (delete e path) (λ x. session e F ops) k)
        (and_then-After e (delete e path) (λ x. session e F ops) P P k
          (at_path-After e F path (delete_entry e) P k d.sane
            (λ parent leaf entry p. delete_entry-Stuck (length path) parent leaf entry k d h p))
          (session_ride e F P ls fs ops))
        (Stuck-MountsTo k.tables d.contents k.w_off)

  write_inode-Stuck :
      (ino off : ℕ) (b : List ℕ) (n : Option Inode) (k : Kfs e) (d : Durable e F k)
      → length b ≤ 65520
      → off < trunc_sent
      → 9223372036854775808 ≤ off + length b
      → After e (Stuck e F k.tables d.contents panics k.w_off) (write_inode e ino off b n k)
  unfolding write_inode
  write_inode-Stuck ino off b none k d hb hs ho = tt
  write_inode-Stuck ino off b (some n) k d hb hs ho =
      let P = Stuck e F k.tables d.contents panics k.w_off in
      let ls = logs k.tables d.contents panics k.w_off in
      let fs = forgets k.tables d.contents panics k.w_off in
      let p = data_payload ino off b in
      let size = new_size e n.size ((off + length b) % 18446744073709551616) in
      elim (Bool-cases (n.kind == kind_dir)) [
        | inl dir ↦ rw (dir, After) tt
        | inr file ↦ rw file (
            and_then-After e (append e rec_data p)
              (λ x. and_then e (resize e ino n size) (λ y. set_contents e ino)) P P k
              (append_first e F k.tables d.contents panics rec_data p k d.log
                (omega (arith, length-data_payload ino off b))
                (apply-data_payload_panics ino off b k.tables d.contents (omega arith) hs ho))
              (chain e P ls fs (resize e ino n size) (λ y. set_contents e ino)
                (resize_ride e P ls fs ino n size) (contents_ride e P ls fs ino)))
      ]

  write_entry-Stuck :
      (off : ℕ) (b : List ℕ) (parent : ℕ) (leaf : List ℕ) (entry : Option ℕ) (k : Kfs e)
      (d : Durable e F k)
      → length b ≤ 65520
      → off < trunc_sent
      → 9223372036854775808 ≤ off + length b
      → After e
          (Stuck e F k.tables d.contents panics k.w_off)
          (write_entry e off b parent leaf entry k)
  unfolding write_entry
  write_entry-Stuck off b parent leaf none k d hb hs ho = tt
  write_entry-Stuck off b parent leaf (some ino) k d hb hs ho =
      write_inode-Stuck ino off b (k.tables.inodes ino) k d hb hs ho

  -- On a device without faults, when a write of at most 65520 bytes on a durable volume that ends at
  -- 2^63 or above, at an offset below 2^64 - 1 (the sentinel of a truncation), succeeds, and so do
  -- the operations behind it, whatever they are, then mounting the device panics.
  pub write_file-crashes :
      (path : List ℕ) (off : ℕ) (b : List ℕ) (ops : List Op) (k : Kfs e)
      → Durable e F k
      → length b ≤ 65520
      → off < trunc_sent
      → 9223372036854775808 ≤ off + length b
      → After e
          (λ k'. mount e k'.disk ≡ crashes)
          (and_then e (write_file e path off b) (λ x. session e F ops) k)
  unfolding write_file
  write_file-crashes path off b ops k d hb hs ho =
      let P = Stuck e F k.tables d.contents panics k.w_off in
      let ls = logs k.tables d.contents panics k.w_off in
      let fs = forgets k.tables d.contents panics k.w_off in
      After-weaken e P _ (and_then e (write_file e path off b) (λ x. session e F ops) k)
        (and_then-After e (write_file e path off b) (λ x. session e F ops) P P k
          (at_path-After e F path (write_entry e off b) P k d.sane
            (λ parent leaf entry p. write_entry-Stuck off b parent leaf entry k d hb hs ho))
          (session_ride e F P ls fs ops))
        (Stuck-crashes k.tables d.contents k.w_off)
