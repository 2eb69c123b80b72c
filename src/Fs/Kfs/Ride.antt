-- ===== src/Fs/Kfs/Ride.antt =====
-- What every operation keeps that keeps it under `append` and looks at nothing in memory.
use mkgo.Common.{
  ℕ, Bool, true, false, List, [], length, ◌==◌, not, ◌&&◌, if◌then◌else◌, Option, none, some,
}
use mkgo.Fs.Platform.{Platform}
use mkgo.Fs.Kfs.{
  Inode, Tables, Contents, inode_payload, dirent_payload, delete_payload, data_payload, rec_inode,
  rec_dirent, rec_data, trunc_sent, find_dirent, dirent_at, kind_dir, kind_file, assign,
}
use mkgo.Fs.Kfs.Log.{Kfs, M, Result, ok, err, not_empty, and_then, append}
use mkgo.Fs.Kfs.Ops.{
  at_path, set_tables, set_inode, set_contents, append_dirent, append_dirent_delete, fresh_inode,
  log_node, with_ino, shrink_inode, shrink, truncate, create_entry, mkdir_entry, delete_entry,
  resize, write_inode, write_entry, set_owner, owner_inode, owner_entry, create, mkdir, delete,
  write_file, set_uid,
}
use mkgo.Fs.Kfs.Paths.{dir_inode, live_children, walk_parent}
use mkgo.Fs.Kfs.After.{After, and_then-After}

module _ (e : Platform) (P : Kfs e → Type 0) where
  -- The property holds after an operation that succeeds.
  abbrev pub Rides : M e (Unit {0}) → Type 0
  Rides m = (k : Kfs e) → P k → After e P (m k)

  module _ (logs : (typ : ℕ) (p : List ℕ) → Rides (append e typ p))
      (forgets : (k : Kfs e) (t : Tables) (c : Contents)
        → P k
        → P (record k { tables = t; contents = c })) where
    pub chain :
        (m : M e (Unit {0})) (f : Unit {0} → M e (Unit {0}))
        → Rides m
        → Rides (f tt)
        → Rides (and_then e m f)
    chain m f h g k p = and_then-After e m f P P k (h k p) g

    pub tables_ride : (f : Tables → Tables) → Rides (set_tables e f)
    tables_ride f k p = forgets k (f k.tables) k.contents p

    pub contents_ride : (ino : ℕ) → Rides (set_contents e ino)
    contents_ride ino k p = forgets k k.tables _ p

    relog_ride :
        (ino : ℕ) (n n' : Inode)
        → Rides (and_then e (append e rec_inode (inode_payload n)) (λ x. set_inode e ino n'))
    relog_ride ino n n' =
        chain (append e rec_inode (inode_payload n)) _ (logs rec_inode (inode_payload n))
          (tables_ride _)

    dirent_ride : (parent : ℕ) (name : List ℕ) (ino : ℕ) → Rides (append_dirent e parent name ino)
    unfolding append_dirent
    dirent_ride parent name ino =
        chain (append e rec_dirent (dirent_payload parent name ino)) _ (logs rec_dirent _)
          (tables_ride _)

    node_ride :
        (kind parent : ℕ) (leaf : List ℕ) (ino : ℕ) → Rides (log_node e kind parent leaf ino)
    unfolding log_node
    node_ride kind parent leaf ino =
        chain (append e rec_inode (inode_payload (fresh_inode e kind ino))) _ (logs rec_inode _)
          (chain (append_dirent e parent leaf ino) _ (dirent_ride parent leaf ino) (tables_ride _))

    either :
        (b : Bool) (r r' : Result (Unit {0}) × Kfs e)
        → After e P r
        → After e P r'
        → After e P (if b then r else r')
    either true r r' h h' = h
    either false r r' h h' = h'

    shrink_inode_ride : (ino : ℕ) (n : Option Inode) → Rides (shrink_inode e ino n)
    unfolding shrink_inode
    shrink_inode_ride ino none k p = p
    shrink_inode_ride ino (some n) k p = either (n.size == 0) _ _ p (relog_ride ino _ _ k p)

    shrink_ride : (ino : ℕ) → Rides (shrink e ino)
    unfolding shrink
    shrink_ride ino k p = shrink_inode_ride ino (k.tables.inodes ino) k p

    truncate_ride : (ino : ℕ) → Rides (truncate e ino)
    unfolding truncate
    truncate_ride ino =
        chain (append e rec_data (data_payload ino trunc_sent [])) _ (logs rec_data _)
          (chain (shrink e ino) _ (shrink_ride ino) (contents_ride ino))

    ino_ride : (f : ℕ → M e (Unit {0})) → ((ino : ℕ) → Rides (f ino)) → Rides (with_ino e f)
    ino_ride f h k p = h k.tables.next_ino _ (forgets k _ k.contents p)

    create_entry_ride :
        (parent : ℕ) (leaf : List ℕ) (entry : Option ℕ) → Rides (create_entry e parent leaf entry)
    unfolding create_entry
    create_entry_ride parent leaf (some ino) k p =
        either (dir_inode (k.tables.inodes ino)) _ _ tt (truncate_ride ino k p)
    create_entry_ride parent leaf none k p =
        ino_ride
          (λ ino. and_then e (log_node e kind_file parent leaf ino) (λ x. set_contents e ino))
          (λ ino.
            chain (log_node e kind_file parent leaf ino) (λ x. set_contents e ino)
              (node_ride kind_file parent leaf ino) (contents_ride ino))
          k p

    abbrev no_entries : ℕ → Tables → Tables
    no_entries ino t = record t { children = assign ino [] t.children }

    mkdir_entry_ride :
        (parent : ℕ) (leaf : List ℕ) (entry : Option ℕ) → Rides (mkdir_entry e parent leaf entry)
    unfolding mkdir_entry
    mkdir_entry_ride parent leaf (some ino) k p = tt
    mkdir_entry_ride parent leaf none k p =
        ino_ride
          (λ ino.
            and_then e (log_node e kind_dir parent leaf ino) (λ x. set_tables e (no_entries ino)))
          (λ ino.
            chain (log_node e kind_dir parent leaf ino) (λ x. set_tables e (no_entries ino))
              (node_ride kind_dir parent leaf ino) (tables_ride (no_entries ino)))
          k p

    pub resize_ride : (ino : ℕ) (n : Inode) (size : ℕ) → Rides (resize e ino n size)
    unfolding resize
    resize_ride ino n size k p = either (size == n.size) _ _ p (relog_ride ino _ _ k p)

    write_inode_ride :
        (ino off : ℕ) (b : List ℕ) (n : Option Inode) → Rides (write_inode e ino off b n)
    unfolding write_inode
    write_inode_ride ino off b none k p = tt
    write_inode_ride ino off b (some n) k p = either (n.kind == kind_dir) _ _ tt (
        chain (append e rec_data (data_payload ino off b)) _ (logs rec_data _)
          (chain (resize e ino n _) _ (resize_ride ino n _) (contents_ride ino)) k p)

    write_entry_ride :
        (off : ℕ) (b : List ℕ) (parent : ℕ) (leaf : List ℕ) (entry : Option ℕ)
        → Rides (write_entry e off b parent leaf entry)
    unfolding write_entry
    write_entry_ride off b parent leaf none k p = tt
    write_entry_ride off b parent leaf (some ino) k p =
        write_inode_ride ino off b (k.tables.inodes ino) k p

    owner_inode_ride : (ino owner : ℕ) (n : Option Inode) → Rides (owner_inode e ino owner n)
    unfolding owner_inode set_owner
    owner_inode_ride ino owner none k p = tt
    owner_inode_ride ino owner (some n) k p = relog_ride ino _ _ k p

    owner_entry_ride :
        (owner parent : ℕ) (leaf : List ℕ) (entry : Option ℕ)
        → Rides (owner_entry e owner parent leaf entry)
    unfolding owner_entry
    owner_entry_ride owner parent leaf none k p = tt
    owner_entry_ride owner parent leaf (some ino) k p =
        owner_inode_ride ino owner (k.tables.inodes ino) k p

    delete_entry_ride :
        (parent : ℕ) (leaf : List ℕ) (entry : Option ℕ) → Rides (delete_entry e parent leaf entry)
    unfolding delete_entry append_dirent_delete
    delete_entry_ride parent leaf none k p = tt
    delete_entry_ride parent leaf (some ino) k p =
        either
          (dir_inode (k.tables.inodes ino)
            && not (length (live_children k.tables (k.tables.children ino)) == 0))
          (err not_empty, k) _ tt
          (chain (append_dirent_delete e parent leaf) (λ x. set_contents e ino)
            (chain (append e rec_dirent (delete_payload parent leaf)) _ (logs rec_dirent _)
              (tables_ride _))
            (contents_ride ino) k p)

    path_ride :
        (path : List ℕ) (f : ℕ → List ℕ → Option ℕ → M e (Unit {0}))
        → ((parent : ℕ) (leaf : List ℕ) (entry : Option ℕ) → Rides (f parent leaf entry))
        → Rides (at_path e path f)
    path_ride path f h k p =
        elim (walk_parent path k.tables)
          as (λ r. After e P (elim r [
            | err x ↦ (err x, k)
            | ok (parent, leaf) ↦
                f parent leaf
                  (elim (find_dirent parent leaf k.tables) [
                    | none ↦ none
                    | some i ↦ some (dirent_at k.tables i).ino
                  ])
                  k
          ])) [ err x ↦ tt | ok (parent, leaf) ↦ h parent leaf _ k p ]

    -- The operations of a volume.
    pub create_ride : (path : List ℕ) → Rides (create e path)
    unfolding create
    create_ride path = path_ride path (create_entry e) create_entry_ride

    pub mkdir_ride : (path : List ℕ) → Rides (mkdir e path)
    unfolding mkdir
    mkdir_ride path = path_ride path (mkdir_entry e) mkdir_entry_ride

    pub delete_ride : (path : List ℕ) → Rides (delete e path)
    unfolding delete
    delete_ride path = path_ride path (delete_entry e) delete_entry_ride

    pub write_file_ride : (path : List ℕ) (off : ℕ) (b : List ℕ) → Rides (write_file e path off b)
    unfolding write_file
    write_file_ride path off b = path_ride path (write_entry e off b) (write_entry_ride off b)

    pub set_uid_ride : (path : List ℕ) (owner : ℕ) → Rides (set_uid e path owner)
    unfolding set_uid
    set_uid_ride path owner = path_ride path (owner_entry e owner) (owner_entry_ride owner)
