-- ===== src/Fs/Kfs/Walk.antt =====
-- Where a walk over a path ends: in a directory of the tables, with a component of the path.
use mkgo.Common.{
  ℕ, suc, ◌≤◌, ◌<◌, ◌≡◌, inl, inr, arith, true, ◌||◌, List, [], ◌∷◌, length, ◌==◌, some, Bool-cases,
  Option-cases, All,
}
use mkgo.Fs.Path.{same, onto_first, split, components, split_path}
use mkgo.Fs.Kfs.{Tables, root_ino, find_dirent, dirent_at}
use mkgo.Fs.Kfs.Log.{Result, ok, err}
use mkgo.Fs.Kfs.Paths.{dir_inode, walk_dirs, walk_parent}
use mkgo.Fs.Kfs.Nodes.{Sane}

-- No component is longer than the path.
abbrev IsWithin : ℕ → List (List ℕ) → Type 0
IsWithin m ps = All (λ p. length p ≤ m) ps

IsWithin-mono : (m n : ℕ) (ps : List (List ℕ)) → m ≤ n → IsWithin m ps → IsWithin n ps
IsWithin-mono m n [] h w = tt
IsWithin-mono m n (p ∷ ps) h w = (omega arith, IsWithin-mono m n ps h w.1)

onto_first-IsWithin :
    (c m : ℕ) (ps : List (List ℕ)) → IsWithin m ps → IsWithin (suc m) (onto_first c ps)
unfolding onto_first
onto_first-IsWithin c m [] w = (omega arith, tt)
onto_first-IsWithin c m (p ∷ ps) w = (omega arith, IsWithin-mono m (suc m) ps (omega arith) w.1)

split-IsWithin : (s : List ℕ) → IsWithin (length s) (split s)
unfolding split
split-IsWithin [] = (omega arith, tt)
split-IsWithin (c ∷ s) = elim (Bool-cases (c == b'/')) [
  | inl e ↦ rw e (
    omega arith,
    IsWithin-mono (length s) (suc (length s)) (split s) (omega arith) (split-IsWithin s),
  )
  | inr e ↦ rw e (onto_first-IsWithin c (length s) (split s) (split-IsWithin s))
]

components-IsWithin :
    (m : ℕ) (ps out : List (List ℕ)) → IsWithin m ps → components ps ≡ some out → IsWithin m out
unfolding components
components-IsWithin m [] [] w e = tt
components-IsWithin m [] (s ∷ out) w e = absurd (cc)
components-IsWithin m (p ∷ ps) out w e = elim (Bool-cases (same p [] || same p (b'.' ∷ []))) [
  | inl skipped ↦ components-IsWithin m ps out w.1 (rw skipped at e)
  | inr kept ↦ elim (Bool-cases (same p (b'.' ∷ b'.' ∷ []))) [
    | inl dots ↦ absurd (let e' = rw (kept, dots) at e in cc)
    | inr named ↦ elim (Option-cases (components ps)) [
      | inl stop ↦ absurd (let e' = rw (kept, named, stop) at e in cc)
      | inr (tail, go) ↦
          let e' : some (p ∷ tail) ≡ some out = rw (kept, named, go) at e in
          let q : p ∷ tail ≡ out = cc in rw (← q) (w.0, components-IsWithin m ps tail w.1 go)
    ]
  ]
]

split_path-IsWithin :
    (s : List ℕ) (out : List (List ℕ)) → split_path s ≡ some out → IsWithin (length s) out
unfolding split_path
split_path-IsWithin [] out e = cc
split_path-IsWithin (c ∷ s) out e = elim (Bool-cases (c == b'/')) [
  | inl h ↦
      IsWithin-mono (length s) (suc (length s)) out (omega arith)
        (components-IsWithin (length s) (split s) out (split-IsWithin s) (rw h at e))
  | inr h ↦ absurd (let e' = rw h at e in cc)
]

-- The directory has an inode number that is in use, and the name is one of the components.
pub record IsPlace (m : ℕ) (t : Tables) (parent : ℕ) (leaf : List ℕ) : Type 0 where
  pub in_use : parent < t.next_ino
  pub leaf_len : length leaf ≤ m

dir_inode-in_use :
    (t : Tables) (ino : ℕ) → Sane t → dir_inode (t.inodes ino) ≡ true → ino < t.next_ino
dir_inode-in_use t ino s h = elim (Option-cases (t.inodes ino)) [
  | inl gone ↦ absurd (let h' = rw gone at h in cc)
  | inr (n, found) ↦ (s.keyed ino n found).1
]

-- What a walk's result has to satisfy.
abbrev pub Place : ℕ → Tables → Result (ℕ × List ℕ) → Type 0
Place m t (ok (parent, leaf)) = IsPlace m t parent leaf
Place m t (err x) = Unit

walk_dirs-Place :
    (m cur : ℕ) (ps : List (List ℕ)) (t : Tables)
    → Sane t
    → cur < t.next_ino
    → IsWithin m ps
    → Place m t (walk_dirs cur ps t)
unfolding walk_dirs
walk_dirs-Place m cur [] t s h w = tt
walk_dirs-Place m cur (leaf ∷ []) t s h w = record { in_use = h; leaf_len = w.0 }
walk_dirs-Place m cur (part ∷ next ∷ rest) t s h w = elim (Option-cases (find_dirent cur part t)) [
  | inl gone ↦ rw (gone, Place) tt
  | inr (i, found) ↦
      let ino = (dirent_at t i).ino in
      elim (Bool-cases (dir_inode (t.inodes ino))) [
        | inl dir ↦
            rw (found, dir, Place)
              (walk_dirs-Place m ino (next ∷ rest) t s (dir_inode-in_use t ino s dir) w.1)
        | inr other ↦ rw (found, other, Place) tt
      ]
]

pub walk_parent-Place :
    (path : List ℕ) (t : Tables) → Sane t → Place (length path) t (walk_parent path t)
unfolding walk_parent
walk_parent-Place path t s = elim (Option-cases (split_path path)) [
  | inl bad ↦ rw (bad, Place) tt
  | inr (ps, good) ↦
      rw (good, Place)
        (walk_dirs-Place (length path) root_ino ps t s s.has_root
          (split_path-IsWithin path ps good))
]
