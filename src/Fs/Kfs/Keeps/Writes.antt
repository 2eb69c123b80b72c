-- ===== src/Fs/Kfs/Keeps/Writes.antt =====
-- `WriteFile` and `SetUID` keep the tables of a volume and its log in step.
use mathlib.Core.Path.{subst}
use mkgo.Common.{
  ℕ, ◌+◌, ◌%◌, ◌≤◌, ◌<◌, ◌≡◌, inl, inr, refl, ◌∙◌, ap, arith, List, length, ◌==◌, Option, none,
  some, Bool-cases,
}
use mkgo.Fs.Platform.{Platform, IsFaultless}
use mkgo.Fs.Kfs.{Inode, Tables, inode_payload, data_payload, rec_inode, rec_data, kind_dir}
use mkgo.Fs.Kfs.Log.{Kfs, and_then, append}
use mkgo.Fs.Kfs.Payloads.{IsSmall, apply-data_payload, length-data_payload}
use mkgo.Fs.Kfs.Ops.{
  set_inode, set_contents, write_entry, owner_inode, owner_entry, new_size, resize, write_inode,
  write_file, set_owner, set_uid,
}
use mkgo.Fs.Kfs.After.{After, After-weaken, and_then-After}
use mkgo.Fs.Kfs.Nodes.{Durable, replace-Durable}
use mkgo.Fs.Kfs.Keeps.{Kept, at_path-After, data-Durable, set_contents-Durable, resized-Durable}

module _ (e : Platform) (F : IsFaultless e) where
  owned-Durable :
      (ino owner : ℕ) (n : Inode) (k : Kfs e)
      → Durable e F k
      → k.tables.inodes ino ≡ some n
      → owner < 4294967296
      → After e (Kept e F k) (set_owner e ino n owner k)
  unfolding set_owner
  owned-Durable ino owner n k d h q =
      let (own, used) = d.sane.keyed ino n h in
      let n' = record n { uid = owner } in
      let small : IsSmall n' = record {
        ino_range = (d.sane.small ino n h).ino_range;
        uid_range = q;
        size_range = (d.sane.small ino n h).size_range;
      } in
      subst
        (λ (i : ℕ).
          After e (Kept e F k)
            (and_then e (append e rec_inode (inode_payload n')) (λ x. set_inode e i n') k))
        own
        (After-weaken e _ (Kept e F k)
          (and_then e (append e rec_inode (inode_payload n')) (λ x. set_inode e n.ino n') k)
          (replace-Durable e F n' k d small (omega arith)) (λ k' p. (p.0, omega (arith, p.1))))

  resize-Durable :
      (ino size : ℕ) (n : Inode) (k : Kfs e)
      → Durable e F k
      → k.tables.inodes ino ≡ some n
      → size < 4294967296
      → After e (Kept e F k) (resize e ino n size k)
  unfolding resize
  resize-Durable ino size n k d h q = elim (Bool-cases (size == n.size)) [
    | inl equal ↦ rw (equal, After) (d, omega arith)
    | inr other ↦ rw other (resized-Durable e F ino size n k d h q)
  ]

  new_size_range : (size end : ℕ) → size < 4294967296 → new_size e size end < 4294967296
  unfolding new_size
  new_size_range size end h = ground arith

  written-Durable :
      (ino off : ℕ) (b : List ℕ) (n : Inode) (k : Kfs e)
      → Durable e F k
      → k.tables.inodes ino ≡ some n
      → length b ≤ 65520
      → off + length b < 9223372036854775808
      → After e (Kept e F k) (write_inode e ino off b (some n) k)
  unfolding write_inode
  written-Durable ino off b n k d h hb ho =
      let p = data_payload ino off b in
      let (c', a) = apply-data_payload ino off b k.tables d.contents (omega arith) ho in
      let end = (off + length b) % 18446744073709551616 in
      let size = new_size e n.size end in
      let range = new_size_range n.size end (d.sane.small ino n h).size_range in
      elim (Bool-cases (n.kind == kind_dir)) [
        | inl dir ↦ rw (dir, After) tt
        | inr file ↦ rw file (
            and_then-After e (append e rec_data p) _ _ (Kept e F k) k
              (data-Durable e F p c' k d (omega (arith, length-data_payload ino off b)) a)
              (λ k1 (d1, t1).
                let next = ap (λ (t : Tables). t.next_ino) t1 in
                let found = ap (λ (t : Tables). t.inodes ino) t1 ∙ h in
                and_then-After e (resize e ino n size) (λ y. set_contents e ino) (Kept e F k1)
                  (Kept e F k) k1 (resize-Durable ino size n k1 d1 found range)
                  (λ k2 (d2, n2). (set_contents-Durable e F ino k2 d2, omega arith))))
      ]

  no_inode :
      (ino off : ℕ) (b : List ℕ) (k : Kfs e) → After e (Kept e F k) (write_inode e ino off b none k)
  unfolding write_inode
  no_inode ino off b k = tt

  write_inode-Durable :
      (ino off : ℕ) (b : List ℕ) (k : Kfs e) (n : Option Inode)
      → Durable e F k
      → k.tables.inodes ino ≡ n
      → length b ≤ 65520
      → off + length b < 9223372036854775808
      → After e (Kept e F k) (write_inode e ino off b n k)
  write_inode-Durable ino off b k (some n) d h hb ho = written-Durable ino off b n k d h hb ho
  write_inode-Durable ino off b k none d h hb ho = no_inode ino off b k

  write_entry-Durable :
      (off : ℕ) (b : List ℕ) (parent : ℕ) (leaf : List ℕ) (entry : Option ℕ) (k : Kfs e)
      → Durable e F k
      → length b ≤ 65520
      → off + length b < 9223372036854775808
      → After e (Kept e F k) (write_entry e off b parent leaf entry k)
  unfolding write_entry
  write_entry-Durable off b parent leaf none k d hb ho = tt
  write_entry-Durable off b parent leaf (some ino) k d hb ho =
      write_inode-Durable ino off b k (k.tables.inodes ino) d refl hb ho

  owner_inode-Durable :
      (ino owner : ℕ) (k : Kfs e) (n : Option Inode)
      → Durable e F k
      → k.tables.inodes ino ≡ n
      → owner < 4294967296
      → After e (Kept e F k) (owner_inode e ino owner n k)
  unfolding owner_inode
  owner_inode-Durable ino owner k (some n) d h q = owned-Durable ino owner n k d h q
  owner_inode-Durable ino owner k none d h q = tt

  owner_entry-Durable :
      (owner parent : ℕ) (leaf : List ℕ) (entry : Option ℕ) (k : Kfs e)
      → Durable e F k
      → owner < 4294967296
      → After e (Kept e F k) (owner_entry e owner parent leaf entry k)
  unfolding owner_entry
  owner_entry-Durable owner parent leaf none k d q = tt
  owner_entry-Durable owner parent leaf (some ino) k d q =
      owner_inode-Durable ino owner k (k.tables.inodes ino) d refl q

  -- And writing to a file: at most 65520 bytes, the most that a record can hold, below offset 2^63.
  pub write_file-Durable :
      (path : List ℕ) (off : ℕ) (b : List ℕ) (k : Kfs e)
      → Durable e F k
      → length b ≤ 65520
      → off + length b < 9223372036854775808
      → After e (Kept e F k) (write_file e path off b k)
  unfolding write_file
  write_file-Durable path off b k d hb ho =
      at_path-After e F path (write_entry e off b) (Kept e F k) k d.sane
        (λ parent leaf entry p. write_entry-Durable off b parent leaf entry k d hb ho)

  -- And changing the owner of an entry.
  pub set_uid-Durable :
      (path : List ℕ) (owner : ℕ) (k : Kfs e)
      → Durable e F k
      → owner < 4294967296
      → After e (Kept e F k) (set_uid e path owner k)
  unfolding set_uid
  set_uid-Durable path owner k d q =
      at_path-After e F path (owner_entry e owner) (Kept e F k) k d.sane
        (λ parent leaf entry p. owner_entry-Durable owner parent leaf entry k d q)
