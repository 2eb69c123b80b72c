-- ===== src/Fs/Kfs/Ops.antt =====
-- services/fs/kfs.go: the operations that change a mounted volume.
use mkgo.Common.{
  ℕ, ◌+◌, ◌%◌, ◌&&◌, not, List, [], length, ltb, ◌==◌, if◌then◌else◌, Option, none, some,
}
use mkgo.Fs.Platform.{Platform}
use mkgo.Fs.Kfs.{
  Tables, Inode, inode_payload, dirent_payload, delete_payload, data_payload, assign, find_dirent,
  dirent_at, add_dirent, remove_dirent, rec_inode, rec_dirent, rec_data, kind_file, kind_dir,
  trunc_sent,
}
use mkgo.Fs.Kfs.Log.{M, ok, err, no_entry, exists, is_dir, not_empty, and_then, append}
use mkgo.Fs.Kfs.Paths.{dir_inode, walk_parent, live_children}

module _ (e : Platform) where
  abbrev pub set_tables : (Tables → Tables) → M e (Unit {0})
  set_tables f k = (ok tt, record k { tables = f k.tables })

  abbrev pub set_inode : ℕ → Inode → M e (Unit {0})
  set_inode ino n = set_tables (λ t. record t { inodes = assign ino (some n) t.inodes })

  abbrev pub set_contents : ℕ → M e (Unit {0})
  set_contents ino k = (ok tt, record k { contents = assign ino [] k.contents })

  -- What the path names: the directory, the last component and, if it is there, the entry's inode
  -- number.
  abbrev pub at_path : List ℕ → (ℕ → List ℕ → Option ℕ → M e (Unit {0})) → M e (Unit {0})
  at_path path f k = elim (walk_parent path k.tables) [
    | err x ↦ (err x, k)
    | ok (parent, leaf) ↦
        f parent leaf
          (elim (find_dirent parent leaf k.tables) [
            | none ↦ none
            | some i ↦ some (dirent_at k.tables i).ino
          ])
          k
  ]

  -- `appendDirent`.
  unfoldable pub append_dirent : ℕ → List ℕ → ℕ → M e (Unit {0})
  append_dirent parent name ino =
      and_then e (append e rec_dirent (dirent_payload parent name ino))
        (λ x. set_tables (add_dirent parent name ino))

  -- `appendDirentDelete`.
  unfoldable pub append_dirent_delete : ℕ → List ℕ → M e (Unit {0})
  append_dirent_delete parent name =
      and_then e (append e rec_dirent (delete_payload parent name))
        (λ x. set_tables (remove_dirent parent name))

  abbrev pub fresh_inode : ℕ → ℕ → Inode
  fresh_inode kind ino = record { ino = ino; uid = 0; kind = kind; size = 0 }

  -- The part that `Create` and `Mkdir` share, behind `allocIno`.
  unfoldable pub log_node : ℕ → ℕ → List ℕ → ℕ → M e (Unit {0})
  unfolding append_dirent
  log_node kind parent leaf ino =
      and_then e (append e rec_inode (inode_payload (fresh_inode kind ino))) (λ x.
        and_then e (append_dirent parent leaf ino) (λ y. set_inode ino (fresh_inode kind ino)))

  -- `allocIno` of a `uint32`.
  abbrev pub with_ino : (ℕ → M e (Unit {0})) → M e (Unit {0})
  with_ino f k =
      f k.tables.next_ino
        (record k { tables = record k.tables { next_ino = (k.tables.next_ino + 1) % 4294967296 } })

  -- `truncate`.
  unfoldable pub shrink_inode : ℕ → Option Inode → M e (Unit {0})
  shrink_inode ino none k = (ok tt, k)
  shrink_inode ino (some n) k =
      if n.size == 0
      then (ok tt, k)
      else and_then e (append e rec_inode (inode_payload (record n { ino = ino; size = 0 })))
          (λ x. set_inode ino (record n { size = 0 })) k

  unfoldable pub shrink : ℕ → M e (Unit {0})
  unfolding shrink_inode
  shrink ino k = shrink_inode ino (k.tables.inodes ino) k

  unfoldable pub truncate : ℕ → M e (Unit {0})
  unfolding shrink
  truncate ino =
      and_then e (append e rec_data (data_payload ino trunc_sent []))
        (λ x. and_then e (shrink ino) (λ y. set_contents ino))

  -- `Create`.
  unfoldable pub create_entry : ℕ → List ℕ → Option ℕ → M e (Unit {0})
  unfolding truncate log_node
  create_entry parent leaf (some ino) k =
      if dir_inode (k.tables.inodes ino) then (err is_dir, k) else truncate ino k
  create_entry parent leaf none k =
      with_ino (λ ino. and_then e (log_node kind_file parent leaf ino) (λ x. set_contents ino)) k

  unfoldable pub create : List ℕ → M e (Unit {0})
  unfolding create_entry
  create path = at_path path create_entry

  -- `Mkdir`.
  unfoldable pub mkdir_entry : ℕ → List ℕ → Option ℕ → M e (Unit {0})
  unfolding log_node
  mkdir_entry parent leaf (some ino) k = (err exists, k)
  mkdir_entry parent leaf none k =
      with_ino
        (λ ino.
          and_then e (log_node kind_dir parent leaf ino)
            (λ x. set_tables (λ t. record t { children = assign ino [] t.children })))
        k

  unfoldable pub mkdir : List ℕ → M e (Unit {0})
  unfolding mkdir_entry
  mkdir path = at_path path mkdir_entry

  -- `Delete`.
  unfoldable pub delete_entry : ℕ → List ℕ → Option ℕ → M e (Unit {0})
  unfolding append_dirent_delete live_children
  delete_entry parent leaf none k = (err no_entry, k)
  delete_entry parent leaf (some ino) k =
      if dir_inode (k.tables.inodes ino)
        && not (length (live_children k.tables (k.tables.children ino)) == 0)
      then (err not_empty, k)
      else and_then e (append_dirent_delete parent leaf) (λ x. set_contents ino) k

  unfoldable pub delete : List ℕ → M e (Unit {0})
  unfolding delete_entry
  delete path = at_path path delete_entry

  -- The size of a file of `size` bytes behind a write that ends at `end`.
  unfoldable pub new_size : ℕ → ℕ → ℕ
  new_size size end = if ltb size end then end % 4294967296 else size

  unfoldable pub resize : ℕ → Inode → ℕ → M e (Unit {0})
  resize ino n size k =
      if size == n.size
      then (ok tt, k)
      else and_then e (append e rec_inode (inode_payload (record n { ino = ino; size = size })))
          (λ x. set_inode ino (record n { size = size })) k

  unfoldable pub write_inode : ℕ → ℕ → List ℕ → Option Inode → M e (Unit {0})
  unfolding resize new_size
  write_inode ino off b none k = (err is_dir, k)
  write_inode ino off b (some n) k =
      if n.kind == kind_dir
      then (err is_dir, k)
      else and_then e (append e rec_data (data_payload ino off b))
          (λ x.
            and_then e (resize ino n (new_size n.size ((off + length b) % 18446744073709551616)))
              (λ y. set_contents ino))
          k

  -- `WriteFile`.
  unfoldable pub write_entry : ℕ → List ℕ → ℕ → List ℕ → Option ℕ → M e (Unit {0})
  unfolding write_inode
  write_entry off b parent leaf none k = (err no_entry, k)
  write_entry off b parent leaf (some ino) k = write_inode ino off b (k.tables.inodes ino) k

  unfoldable pub write_file : List ℕ → ℕ → List ℕ → M e (Unit {0})
  unfolding write_entry
  write_file path off b = at_path path (write_entry off b)

  -- `SetUID`.
  unfoldable pub set_owner : ℕ → Inode → ℕ → M e (Unit {0})
  set_owner ino n owner =
      and_then e (append e rec_inode (inode_payload (record n { uid = owner })))
        (λ x. set_inode ino (record n { uid = owner }))

  unfoldable pub owner_inode : ℕ → ℕ → Option Inode → M e (Unit {0})
  unfolding set_owner
  owner_inode ino owner none k = (err no_entry, k)
  owner_inode ino owner (some n) k = set_owner ino n owner k

  unfoldable pub owner_entry : ℕ → ℕ → List ℕ → Option ℕ → M e (Unit {0})
  unfolding owner_inode
  owner_entry owner parent leaf none k = (err no_entry, k)
  owner_entry owner parent leaf (some ino) k = owner_inode ino owner (k.tables.inodes ino) k

  unfoldable pub set_uid : List ℕ → ℕ → M e (Unit {0})
  unfolding owner_entry
  set_uid path owner = at_path path (owner_entry owner)
