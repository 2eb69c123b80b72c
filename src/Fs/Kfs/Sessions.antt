-- ===== src/Fs/Kfs/Sessions.antt =====
-- A session on a volume: what was done to it is there again when its device is mounted.
use mkgo.Common.{ℕ, ◌+◌, ◌≤◌, ◌<◌, ◌≡◌, refl, arith, List, [], ◌∷◌, length, All}
use mkgo.Fs.Platform.{Platform, IsFaultless}
use mkgo.Fs.Kfs.{Tables, Contents}
use mkgo.Fs.Kfs.Log.{Kfs, M, ok, and_then, append, mount, volume, fresh, superblock}
use mkgo.Fs.Kfs.Ops.{create, mkdir, delete, write_file, set_uid}
use mkgo.Fs.Kfs.Recover.{length-superblock}
use mkgo.Fs.Kfs.Durable.{Log}
use mkgo.Fs.Kfs.After.{After, After-weaken, and_then-After}
use mkgo.Fs.Kfs.Remount.{mount-Log}
use mkgo.Fs.Kfs.Nodes.{Durable}
use mkgo.Fs.Kfs.Ride.{Rides, create_ride, mkdir_ride, delete_ride, write_file_ride, set_uid_ride}
use mkgo.Fs.Kfs.Keeps.{Kept}
use mkgo.Fs.Kfs.Keeps.Writes.{write_file-Durable, set_uid-Durable}
use mkgo.Fs.Kfs.Keeps.Creates.{create-Durable, mkdir-Durable}

-- The operations of a session.
pub data Op : Type 0 where
  creates : List ℕ → Op
  makes_dir : List ℕ → Op
  writes : List ℕ → ℕ → List ℕ → Op
  owns : List ℕ → ℕ → Op
  deletes : List ℕ → Op

-- What the server's messages hold: short paths and pieces of files, and a `uint32` for an owner. A
-- removal is not replayed, see `Deleted`.
abbrev pub IsFair : Op → Type 0
IsFair (creates path) = length path ≤ 65525
IsFair (makes_dir path) = length path ≤ 65525
IsFair (writes path off b) = (length b ≤ 65520) × (off + length b < 9223372036854775808)
IsFair (owns path owner) = owner < 4294967296
IsFair (deletes path) = ⊥

module _ (e : Platform) (F : IsFaultless e) where
  unfoldable pub perform : Op → M e (Unit {0})
  perform (creates path) = create e path
  perform (makes_dir path) = mkdir e path
  perform (writes path off b) = write_file e path off b
  perform (owns path owner) = set_uid e path owner
  perform (deletes path) = delete e path

  -- The operations in their order, up to the first that fails.
  unfoldable pub session : List Op → M e (Unit {0})
  session [] k = (ok tt, k)
  session (op ∷ ops) k = and_then e (perform op) (λ x. session ops) k

  perform_ride :
      (P : Kfs e → Type 0)
      → ((typ : ℕ) (p : List ℕ) → Rides e P (append e typ p))
      → ((k : Kfs e) (t : Tables) (c : Contents) → P k → P (record k { tables = t; contents = c }))
      → (op : Op) → Rides e P (perform op)
  unfolding perform
  perform_ride P logs forgets (creates path) = create_ride e P logs forgets path
  perform_ride P logs forgets (makes_dir path) = mkdir_ride e P logs forgets path
  perform_ride P logs forgets (writes path off b) = write_file_ride e P logs forgets path off b
  perform_ride P logs forgets (owns path owner) = set_uid_ride e P logs forgets path owner
  perform_ride P logs forgets (deletes path) = delete_ride e P logs forgets path

  perform-Durable :
      (op : Op) (k : Kfs e)
      → Durable e F k
      → IsFair op
      → k.tables.next_ino + 1 < 4294967296
      → After e (Kept e F k) (perform op k)
  unfolding perform
  perform-Durable (creates path) k d f h = create-Durable e F path k d f h
  perform-Durable (makes_dir path) k d f h = mkdir-Durable e F path k d f h
  perform-Durable (writes path off b) k d f h = write_file-Durable e F path off b k d f.0 f.1
  perform-Durable (owns path owner) k d f h = set_uid-Durable e F path owner k d f
  perform-Durable (deletes path) k d f h = absurd f

  pub session-Durable :
      (ops : List Op) (k : Kfs e)
      → Durable e F k
      → All IsFair ops
      → k.tables.next_ino + length ops < 4294967296
      → After e (Durable e F) (session ops k)
  unfolding session
  session-Durable [] k d f h = d
  session-Durable (op ∷ ops) k d f h =
      and_then-After e (perform op) (λ x. session ops) (Kept e F k) (Durable e F) k
        (perform-Durable op k d f.0 (omega arith))
        (λ k' (d', n). session-Durable ops k' d' f.1 (omega arith))

  -- A session keeps what its operations keep.
  pub session_ride :
      (P : Kfs e → Type 0)
      → ((typ : ℕ) (p : List ℕ) → Rides e P (append e typ p))
      → ((k : Kfs e) (t : Tables) (c : Contents) → P k → P (record k { tables = t; contents = c }))
      → (ops : List Op) → Rides e P (session ops)
  unfolding session
  session_ride P logs forgets [] k p = p
  session_ride P logs forgets (op ∷ ops) k p =
      and_then-After e (perform op) (λ x. session ops) P P k (perform_ride P logs forgets op k p)
        (session_ride P logs forgets ops)

  -- A mount of the device finds the tables that the volume has in memory, and goes on where it
  -- stands in the log.
  abbrev pub Remounts : Kfs e → Type 0
  Remounts k =
      (v : Kfs e) × (mount e k.disk ≡ volume v)
      × (v.tables ≡ k.tables)
      × (v.w_off ≡ k.w_off)
      × Durable e F v

  abbrev pub mounted : Kfs e → Tables → Contents → Kfs e
  mounted k t c = record (fresh e k.disk (superblock e 512 (e.num_blocks k.disk))) {
    w_off = k.w_off;
    tables = t;
    contents = c;
  }

  pub mounted-Log :
      (k : Kfs e) (t : Tables) (c : Contents) → Log e F k t c → Log e F (mounted k t c) t c
  mounted-Log k t c l = record {
    device = record { blocks = refl; log_size = refl; cached = length-superblock e F _ };
    super = l.super;
    recs = l.recs;
    short = l.short;
    written = l.written;
    cursor = l.cursor;
    room = omega (arith, l.room, l.device.log_size);
    replays = l.replays;
    blank = l.blank;
  }

  pub Durable-Remounts : (k : Kfs e) → Durable e F k → Remounts k
  Durable-Remounts k d = (
    mounted k k.tables d.contents,
    mount-Log e F k k.tables d.contents d.log,
    refl,
    refl,
    record { contents = d.contents; log = mounted-Log k k.tables d.contents d.log; sane = d.sane },
  )

  -- On a device without faults, any sequence of creations, new directories, writes and changes of
  -- owner, with no removal, that succeeds on a durable volume, one whose log replays to the tables
  -- in memory with blanks behind it, is there after a remount: mounting the device gives the inodes
  -- with their sizes and owners, the directory entries and the next inode number that the volume had
  -- in memory, and the same place in the log. The mounted volume is durable again. (Paths and pieces
  -- of files are short enough for a record, offsets lie below 2^63, owners below 2^32, and the inode
  -- numbers do not run out. The mount is taken to have the memory for the contents of the files,
  -- gaps before far writes included.)
  pub session-Remounts :
      (ops : List Op) (k : Kfs e)
      → Durable e F k
      → All IsFair ops
      → k.tables.next_ino + length ops < 4294967296
      → After e Remounts (session ops k)
  session-Remounts ops k d f h =
      After-weaken e (Durable e F) Remounts (session ops k) (session-Durable ops k d f h)
        Durable-Remounts
