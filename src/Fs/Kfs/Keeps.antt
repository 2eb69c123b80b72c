-- ===== src/Fs/Kfs/Keeps.antt =====
-- What the operations share in keeping the tables of a volume and its log in step.
pub mod Creates
pub mod Writes
use mathlib.Core.Path.{subst}
use mkgo.Common.{
  ℕ, ◌+◌, ◌%◌, ◌≤◌, ◌<◌, ◌≡◌, inl, inr, refl, sym, ◌∙◌, ap, arith, List, [], length, ◌==◌, Option,
  none, some, Bool-cases,
}
use mkgo.Fs.Platform.{Platform, IsFaultless}
use mkgo.Fs.Kfs.{
  Inode, Tables, Contents, applied, apply, assign, inode_payload, data_payload, rec_inode, rec_data,
  max_payload, kind_file, kind_dir, trunc_sent, find_dirent, dirent_at,
}
use mkgo.Fs.Kfs.Log.{Kfs, M, Result, ok, err, and_then, append}
use mkgo.Fs.Kfs.Payloads.{
  IsSmall, apply-data_payload, apply-data_payload_sentinel, length-data_payload,
}
use mkgo.Fs.Kfs.Ops.{
  set_tables, set_inode, set_contents, at_path, log_node, with_ino, shrink_inode, shrink, truncate,
  create_entry, create, mkdir_entry, mkdir, write_entry, owner_inode, owner_entry, new_size, resize,
  write_inode, write_file, set_owner, set_uid,
}
use mkgo.Fs.Kfs.Paths.{dir_inode, walk_parent}
use mkgo.Fs.Kfs.Durable.{Log-forget, Appended, append-Appended}
use mkgo.Fs.Kfs.After.{After, After-weaken, and_then-After}
use mkgo.Fs.Kfs.Nodes.{Sane, Durable, Behind, Behind-Durable, set_contents-Behind, replace-Durable}
use mkgo.Fs.Kfs.NewNodes.{node_tables, allocated, log_node-Behind, node_tables-Sane, assign_same}
use mkgo.Fs.Kfs.Walk.{IsPlace, Place, walk_parent-Place}

module _ (e : Platform) (F : IsFaultless e) where
  -- The volume is durable, and at most one inode number was taken.
  abbrev pub Kept : Kfs e → Kfs e → Type 0
  Kept k k' = Durable e F k' × (k'.tables.next_ino ≤ k.tables.next_ino + 1)

  -- An operation on the entry that a path names.
  pub at_path-After :
      (path : List ℕ) (f : ℕ → List ℕ → Option ℕ → M e (Unit {0})) (P : Kfs e → Type 0) (k : Kfs e)
      → Sane k.tables
      → ((parent : ℕ) (leaf : List ℕ) (entry : Option ℕ)
          → IsPlace (length path) k.tables parent leaf
          → After e P (f parent leaf entry k))
      → After e P (at_path e path f k)
  at_path-After path f P k s h =
      cases (walk_parent path k.tables) (walk_parent-Place path k.tables s)
    where
      cases :
          (r : Result (ℕ × List ℕ))
          → Place (length path) k.tables r
          → After e P (elim r [
            | err x ↦ (err x, k)
            | ok (parent, leaf) ↦
                f parent leaf
                  (elim (find_dirent parent leaf k.tables) [
                    | none ↦ none
                    | some i ↦ some (dirent_at k.tables i).ino
                  ])
                  k
          ])
      cases (ok (parent, leaf)) p = h parent leaf _ p
      cases (err x) p = tt

  -- A record of data leaves the tables alone.
  pub data-Durable :
      (p : List ℕ) (c' : Contents) (k : Kfs e) (d : Durable e F k)
      → (0 < length p) × (length p ≤ max_payload)
      → apply rec_data p k.tables d.contents ≡ applied k.tables c'
      → After e (λ k'. Durable e F k' × (k'.tables ≡ k.tables)) (append e rec_data p k)
  data-Durable p c' k d s a =
      After-weaken e (Appended e F k k.tables c') _ (append e rec_data p k)
        (append-Appended e F rec_data p k k.tables k.tables d.contents c' d.log s a refl
          d.sane.counted)
        (λ k' b. (
          Behind-Durable e F k.tables k.tables c' k'
              (record { log = b.log; in_memory = b.same_tables }) refl d.sane,
          b.same_tables,
        ))

  pub set_contents-Durable :
      (ino : ℕ) (k : Kfs e) → Durable e F k → After e (Durable e F) (set_contents e ino k)
  set_contents-Durable ino k d = record {
    contents = d.contents;
    log = Log-forget e F k k.tables k.tables d.contents (assign ino [] k.contents) k.recs d.log;
    sane = d.sane;
  }

  -- The inode of an entry is logged again with another size.
  pub resized-Durable :
      (ino size : ℕ) (n : Inode) (k : Kfs e)
      → Durable e F k
      → k.tables.inodes ino ≡ some n
      → size < 4294967296
      → After e (Kept k) (
          and_then e
            (append e rec_inode (inode_payload (record n { ino = ino; size = size })))
            (λ x. set_inode e ino (record n { size = size }))
            k)
  resized-Durable ino size n k d h q =
      let (own, used) = d.sane.keyed ino n h in
      let n' = record n { ino = ino; size = size } in
      let same_inode : n' ≡ record n { size = size } =
        ap (λ (i : ℕ). record n { ino = i; size = size }) (sym own) in
      let small : IsSmall n' = record {
        ino_range = omega (arith, d.sane.counted);
        uid_range = (d.sane.small ino n h).uid_range;
        size_range = q;
      } in
      subst
        (λ (m : Inode).
          After e (Kept k)
            (and_then e (append e rec_inode (inode_payload n')) (λ x. set_inode e ino m) k))
        same_inode
        (After-weaken e _ (Kept k)
          (and_then e (append e rec_inode (inode_payload n')) (λ x. set_inode e ino n') k)
          (replace-Durable e F n' k d small used) (λ k' p. (p.0, omega (arith, p.1))))
