-- ===== src/Fs/Kfs/Paths.antt =====
-- services/fs/kfs.go: the paths of a mounted volume, and what it reports of its entries.
use mkgo.Common.{ℕ, Bool, false, List, [], ◌∷◌, ◌==◌, if◌then◌else◌, Option, none, some}
use mkgo.Fs.Path.{same, split_path}
use mkgo.Fs.Kfs.{Tables, Inode, find_dirent, dirent_at, root_ino, kind_dir}
use mkgo.Fs.Kfs.Log.{Result, ok, err, no_entry, not_dir, bad_name}

-- `k.inodes[ino] != nil && k.inodes[ino].kind == kfsKindDir`.
abbrev pub dir_inode : Option Inode → Bool
dir_inode none = false
dir_inode (some n) = n.kind == kind_dir

-- The loop over all components but the last.
unfoldable pub walk_dirs : ℕ → List (List ℕ) → Tables → Result (ℕ × List ℕ)
walk_dirs cur [] t = err bad_name
walk_dirs cur (leaf ∷ []) t = ok (cur, leaf)
walk_dirs cur (part ∷ next ∷ rest) t = elim (find_dirent cur part t) [
  | none ↦ err no_entry
  | some i ↦
      let ino = (dirent_at t i).ino in
      let below = walk_dirs ino (next ∷ rest) t in
      if dir_inode (t.inodes ino) then below else err not_dir
]

-- `walkParent`: the directory and the name of a path's last component.
unfoldable pub walk_parent : List ℕ → Tables → Result (ℕ × List ℕ)
unfolding walk_dirs
walk_parent path t = elim (split_path path) [
  | none ↦ err bad_name
  | some parts ↦ walk_dirs root_ino parts t
]

-- The loop of `walk`.
unfoldable pub walk_all : ℕ → List (List ℕ) → Tables → Option ℕ
walk_all cur [] t = some cur
walk_all cur (part ∷ rest) t = elim (find_dirent cur part t) [
  | none ↦ none
  | some i ↦ walk_all (dirent_at t i).ino rest t
]

-- `walk`; the missing entry is told apart from the bad path.
unfoldable pub walk : List ℕ → Tables → Result (Option ℕ)
unfolding walk_all
walk path t = elim (split_path path) [
  | none ↦ err bad_name
  | some parts ↦ ok (walk_all root_ino parts t)
]

-- `StatInfo`.
pub record StatInfo : Type 0 where
  pub name : List ℕ
  pub attr : ℕ
  pub size : ℕ
  pub cluster : ℕ

abbrev pub attr_dir : ℕ
attr_dir = 16

-- The entry of a directory that `List` and `Stat` report; without an inode, size and kind are zero.
unfoldable pub entry_info : List ℕ → ℕ → Option Inode → StatInfo
entry_info name ino none = record { name = name; attr = 0; size = 0; cluster = ino }
entry_info name ino (some n) = record {
  name = name;
  attr = if n.kind == kind_dir then attr_dir else 0;
  size = n.size;
  cluster = ino;
}

unfoldable pub live_children : Tables → List ℕ → List ℕ
live_children t [] = []
live_children t (i ∷ rest) =
    if (dirent_at t i).dead then live_children t rest else i ∷ live_children t rest

-- `Stat`.
unfoldable pub stat : List ℕ → Tables → Result StatInfo
unfolding walk_parent entry_info
stat path t =
    if same path (b'/' ∷ [])
    then ok (record { name = []; attr = attr_dir; size = 0; cluster = 0 })
    else elim (walk_parent path t) [
      | err x ↦ err x
      | ok (parent, leaf) ↦ elim (find_dirent parent leaf t) [
        | none ↦ err no_entry
        | some i ↦ elim (t.inodes (dirent_at t i).ino) [
          | none ↦ err no_entry
          | some n ↦ ok (entry_info leaf (dirent_at t i).ino (some n))
        ]
      ]
    ]

abbrev infos : Tables → List ℕ → List StatInfo
unfolding entry_info
infos t [] = []
infos t (i ∷ rest) =
    let d = dirent_at t i in entry_info d.name d.ino (t.inodes d.ino) ∷ infos t rest

-- `List`.
unfoldable pub list : List ℕ → Tables → Result (List StatInfo)
unfolding walk live_children infos
list path t =
    if same path (b'/' ∷ [])
    then ok (infos t (live_children t (t.children root_ino)))
    else elim (walk path t) [
      | err x ↦ err x
      | ok none ↦ err no_entry
      | ok (some ino) ↦
          if dir_inode (t.inodes ino)
          then ok (infos t (live_children t (t.children ino)))
          else err not_dir
    ]

-- `UID`.
unfoldable pub uid : List ℕ → Tables → Result ℕ
unfolding walk_parent
uid path t = elim (walk_parent path t) [
  | err x ↦ err x
  | ok (parent, leaf) ↦ elim (find_dirent parent leaf t) [
    | none ↦ err no_entry
    | some i ↦ elim (t.inodes (dirent_at t i).ino) [ none ↦ err no_entry | some n ↦ ok n.uid ]
  ]
]
