-- ===== src/Fs/Tests.antt =====
-- Witnesses and tests of the file system, on a disk in memory.
mod Disk
use mathlib.Core.Path.{subst}
use mkgo.Common.{
  ℕ, ◌+◌, ◌*◌, ◌/◌, ◌%◌, ◌≤◌, ◌<◌, ◌≡◌, inl, refl, sym, ◌∙◌, ap, arith, Bool, true, false, ◌&&◌,
  List, [], ◌∷◌, ◌++◌, length, ltb, leb, ◌==◌, if◌then◌else◌, none, some, All,
}
use mkgo.Kern.Frame.{le32, append_lstr}
use mkgo.Net.Ring.{Memory, load_bytes, store_bytes}
use mkgo.Net.Ring.Memory.{load_bytes-agree, load_bytes-store_bytes, store_bytes-outside}
use mkgo.Fs.Platform.{Platform, IsFaultless}
use mkgo.Fs.Path.{
  IsName, same, split, components, onto_first, split_path, join, split_path-join, split_path-IsName,
}
use mkgo.Fs.Kfs.{
  delete_payload, remove_dirent, bury, Inode, Tables, no_tables, applied, apply, apply_inode,
  apply_dirent, apply_entry, apply_data, apply_checkpoint, put_inode, inode_payload, dirent_payload,
  data_payload, find_dirent, find_among, add_dirent,
}
use mkgo.Fs.Kfs.Log.{
  Result, err, Kfs, Mounted, ok, fresh, format, mount, mount_sb, volume, fails, crashes, append,
  pace, append_checkpoint, put_raw, rmw, replay, replay_loop, superblock, write_record, and_then,
  frame, next_record, read_payload, read_at, read_loop,
}
use mkgo.Fs.Kfs.Ops.{
  delete_entry, append_dirent_delete, delete, write_file, create, mkdir, set_uid, create_entry,
  mkdir_entry, write_entry, write_inode, owner_entry, owner_inode, set_owner, log_node,
  append_dirent, resize, new_size,
}
use mkgo.Fs.Kfs.Paths.{live_children, walk_parent, walk_dirs}
use mkgo.Fs.Kfs.Append.{Logged, write_record-Logged}
use mkgo.Fs.Kfs.Replay.{Written, Written-left}
use mkgo.Fs.Kfs.Recover.{mount-frames}
use mkgo.Fs.Kfs.Frames.{Rec, frames, apply_all}
use mkgo.Fs.Kfs.After.{After}
use mkgo.Fs.Kfs.Nodes.{Durable}
use mkgo.Fs.Kfs.Format.{IsBlank, rooted, mount-format}
use mkgo.Fs.Kfs.Sessions.{
  IsFair, session-Durable, Op, creates, makes_dir, writes, owns, perform, session, Remounts,
  session-Remounts,
}
use mkgo.Fs.Kfs.Deleted.{MountsTo, delete-lost, write_file-crashes}
use mkgo.Fs.Tests.Disk.{RamDisk, ram, ram_faultless}

-- A blank disk of 64 sectors.
abbrev blank_disk : RamDisk
blank_disk = (64, λ i. 0)

blank_disk-IsBlank : IsBlank ram ram_faultless blank_disk
blank_disk-IsBlank = record { sectors = refl; enough = omega arith; zeros = λ i. refl }

mount-format_example :
    ((format ram blank_disk).0 ≡ ok tt)
    × ((v : Kfs ram) × (mount ram (format ram blank_disk).1.disk ≡ volume v)
        × (v.tables ≡ rooted ram ram_faultless)
        × Durable ram ram_faultless v)
mount-format_example = mount-format ram ram_faultless blank_disk blank_disk-IsBlank

abbrev etc : List ℕ
etc = b'/' ∷ b'e' ∷ []

abbrev motd : List ℕ
motd = b'/' ∷ b'e' ∷ b'/' ∷ b'm' ∷ []

abbrev work : List Op
work = makes_dir etc ∷ creates motd ∷ writes motd 0 (72 ∷ 105 ∷ []) ∷ owns motd 7 ∷ []

-- The volume that was formatted and mounted.
abbrev the_volume : Mounted ram → Kfs ram
the_volume (volume k) = k
the_volume (fails x) = fresh ram blank_disk []
the_volume crashes = fresh ram blank_disk []

abbrev new_volume : Kfs ram
new_volume = the_volume (mount ram (format ram blank_disk).1.disk)

new_volume_same : (mount-format ram ram_faultless blank_disk blank_disk-IsBlank).1.0 ≡ new_volume
new_volume_same =
    sym (ap the_volume (mount-format ram ram_faultless blank_disk blank_disk-IsBlank).1.1)

new_volume-Durable : Durable ram ram_faultless new_volume
new_volume-Durable =
    subst (Durable ram ram_faultless) new_volume_same
      (mount-format ram ram_faultless blank_disk blank_disk-IsBlank).1.3

new_volume_next : new_volume.tables.next_ino ≡ 2
unfolding put_inode
new_volume_next =
    ap (λ (k : Kfs ram). k.tables.next_ino) (sym new_volume_same)
    ∙ ap (λ (t : Tables). t.next_ino)
        (mount-format ram ram_faultless blank_disk blank_disk-IsBlank).1.2

work-IsFair : All IsFair work
work-IsFair = (omega arith, (omega arith, ((omega arith, omega arith), (omega arith, tt))))

session-Remounts_example :
    After ram (Remounts ram ram_faultless) (session ram ram_faultless work new_volume)
session-Remounts_example =
    session-Remounts ram ram_faultless work new_volume new_volume-Durable work-IsFair
      (omega (arith, new_volume_next))

-- The volume behind the work.
abbrev worked : Kfs ram
worked = (session ram ram_faultless work new_volume).1

-- A file beside the one that is removed.
abbrev more : List Op
more = creates (b'/' ∷ b'n' ∷ []) ∷ []

-- The work succeeds, and so do a removal and a far write behind it.
runs_done :
    ((session ram ram_faultless work new_volume).0 ≡ ok tt)
    × ((and_then ram (delete ram motd) (λ x. session ram ram_faultless more) worked).0 ≡ ok tt)
    × ((and_then ram
          (write_file ram motd 9223372036854775808 (7 ∷ []))
          (λ x. session ram ram_faultless more)
          worked).0
        ≡ ok tt)
unfolding session perform mount mount_sb format append write_record pace append_checkpoint frame
    put_raw rmw replay replay_loop next_record read_payload read_at read_loop load_bytes store_bytes
    superblock apply apply_inode apply_dirent apply_entry apply_data apply_checkpoint put_inode
    inode_payload dirent_payload data_payload find_dirent find_among add_dirent create mkdir
    write_file set_uid create_entry mkdir_entry write_entry write_inode owner_entry owner_inode
    set_owner log_node append_dirent resize new_size walk_parent walk_dirs split_path split
    components onto_first same append_lstr delete delete_entry append_dirent_delete delete_payload
    remove_dirent live_children bury
runs_done = (refl, refl, refl)

After-done :
    (P : Kfs ram → Type 0) (r : Result (Unit {0}) × Kfs ram) → r.0 ≡ ok tt → After ram P r → P r.1
After-done P (ok x, k) h p = p
After-done P (err x, k) h p = absurd (cc)

worked-Durable : Durable ram ram_faultless worked
worked-Durable =
    After-done (Durable ram ram_faultless) (session ram ram_faultless work new_volume) runs_done.0 (
      session-Durable ram ram_faultless work new_volume new_volume-Durable work-IsFair
        (omega (arith, new_volume_next)))

delete-lost_example :
    After ram
      (MountsTo ram ram_faultless worked.tables worked.w_off)
      (and_then ram (delete ram motd) (λ x. session ram ram_faultless more) worked)
delete-lost_example = delete-lost ram ram_faultless motd more worked worked-Durable (omega arith)

write_file-crashes_example :
    After ram
      (λ k. mount ram k.disk ≡ crashes)
      (and_then ram
        (write_file ram motd 9223372036854775808 (7 ∷ []))
        (λ x. session ram ram_faultless more)
        worked)
write_file-crashes_example =
    write_file-crashes ram ram_faultless motd 9223372036854775808 (7 ∷ []) more worked
      worked-Durable (omega arith) (omega arith) (omega arith)

abbrev first_volume : Kfs ram
first_volume = fresh ram blank_disk []

write_record-Logged_example :
    (k : Kfs ram) × (write_record ram 1 (7 ∷ 8 ∷ 9 ∷ []) first_volume ≡ (ok tt, k))
    × Logged ram ram_faultless 1 (7 ∷ 8 ∷ 9 ∷ []) first_volume k
write_record-Logged_example =
    write_record-Logged ram ram_faultless 1 (7 ∷ 8 ∷ 9 ∷ []) first_volume refl (omega arith)

-- A disk whose log holds one inode, and behind it a record that a crash has torn.
abbrev torn : List ℕ
torn = le32 4 ++ (le32 99 ++ 3 ∷ 5 ∷ [])

abbrev file_node : Inode
file_node = record { ino = 5; uid = 7; kind = 0; size = 3 }

abbrev one_inode : List Rec
one_inode = (1, inode_payload file_node) ∷ []

abbrev torn_disk : RamDisk
torn_disk = (
  64,
  store_bytes 512 (frames ram ram_faultless one_inode ++ torn)
      (store_bytes 0 (superblock ram 512 64) (λ i. 0)),
)

abbrev head_only : Memory
head_only = store_bytes 0 (superblock ram 512 64) (λ i. 0)

abbrev torn_log : List ℕ
torn_log = frames ram ram_faultless one_inode ++ torn

superblock_len : (n : ℕ) → length (superblock ram 512 n) ≡ 512
unfolding superblock
superblock_len n = refl

torn_first : load_bytes 0 512 torn_disk.1 ≡ superblock ram 512 64
torn_first =
    load_bytes-agree 512 0 torn_disk.1 head_only
      (λ i p q. store_bytes-outside torn_log 512 head_only i (inl (omega arith)))
    ∙ ap (λ (n : ℕ). load_bytes 0 n head_only) (sym (superblock_len 64))
    ∙ load_bytes-store_bytes (superblock ram 512 64) 0 (λ i. 0)

torn_written : Written 512 (frames ram ram_faultless one_inode) torn_disk.1
torn_written =
    Written-left 512 (frames ram ram_faultless one_inode) torn torn_disk.1
      (load_bytes-store_bytes torn_log 512 head_only)

torn_applied :
    apply_all one_inode no_tables (λ i. []) ≡ applied (put_inode file_node no_tables) (λ i. [])
unfolding apply_all apply inode_payload put_inode
torn_applied = refl

torn_stops :
    next_record ram
      (512 + length (frames ram ram_faultless one_inode))
      (fresh ram torn_disk (superblock ram 512 64))
    ≡ none
unfolding next_record read_payload read_at read_loop load_bytes store_bytes superblock frames frame
    inode_payload
torn_stops = refl

file_node_len : (0 < length (inode_payload file_node)) × (length (inode_payload file_node) ≤ 65536)
unfolding inode_payload
file_node_len = (omega arith, omega arith)

one_inode_len : length (frames ram ram_faultless one_inode) ≡ 22
unfolding frames frame inode_payload
one_inode_len = refl

mount-frames_example :
    mount ram torn_disk
    ≡ volume (record (fresh ram torn_disk (superblock ram 512 64)) {
      w_off = 512 + length (frames ram ram_faultless one_inode);
      tables = put_inode file_node no_tables;
    })
mount-frames_example =
    mount-frames ram ram_faultless torn_disk one_inode (put_inode file_node no_tables) (λ i. [])
      (record { sectors = refl; some_sector = omega arith; first = torn_first })
      ((file_node_len.0, file_node_len.1), tt) torn_written (omega (arith, one_inode_len))
      torn_applied (inl torn_stops)

abbrev docs : List (List ℕ)
docs = (b'a' ∷ b'b' ∷ []) ∷ (b'.' ∷ b'c' ∷ []) ∷ []

docs-IsName : All IsName docs
unfolding same
docs-IsName = (
  record {
    plain = (omega arith, (omega arith, tt));
    not_empty = refl;
    not_dot = refl;
    not_dots = refl;
  },
  (
    record {
      plain = (omega arith, (omega arith, tt));
      not_empty = refl;
      not_dot = refl;
      not_dots = refl;
    },
    tt,
  ),
)

split_path-join_example : split_path (join docs) ≡ some docs
split_path-join_example =
    split_path-join (b'a' ∷ b'b' ∷ []) ((b'.' ∷ b'c' ∷ []) ∷ []) docs-IsName.0 docs-IsName.1

-- `/a//./b`.
abbrev untidy : List ℕ
untidy = b'/' ∷ b'a' ∷ b'/' ∷ b'/' ∷ b'.' ∷ b'/' ∷ b'b' ∷ []

untidy_split : split_path untidy ≡ some ((b'a' ∷ []) ∷ (b'b' ∷ []) ∷ [])
unfolding split_path
untidy_split = refl

split_path-IsName_example : All IsName ((b'a' ∷ []) ∷ (b'b' ∷ []) ∷ [])
split_path-IsName_example = split_path-IsName untidy ((b'a' ∷ []) ∷ (b'b' ∷ []) ∷ []) untidy_split

-- No path climbs.
climb : split_path (b'/' ∷ b'a' ∷ b'/' ∷ b'.' ∷ b'.' ∷ []) ≡ none
unfolding split_path
climb = refl
