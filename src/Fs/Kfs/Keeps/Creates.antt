-- ===== src/Fs/Kfs/Keeps/Creates.antt =====
-- `Create`, `truncate` and `Mkdir` keep the tables of a volume and its log in step.
use mkgo.Common.{
  ℕ, ◌+◌, ◌≤◌, ◌<◌, ◌≡◌, inl, inr, refl, ◌∙◌, ap, arith, List, [], length, ◌==◌, Option, none, some,
  Bool-cases,
}
use mkgo.Fs.Platform.{Platform, IsFaultless}
use mkgo.Fs.Kfs.{Inode, Tables, assign, data_payload, rec_data, kind_file, kind_dir, trunc_sent}
use mkgo.Fs.Kfs.Log.{Kfs, and_then, append}
use mkgo.Fs.Kfs.Payloads.{apply-data_payload_sentinel, length-data_payload}
use mkgo.Fs.Kfs.Ops.{
  set_tables, set_contents, log_node, with_ino, shrink_inode, shrink, truncate, create_entry,
  create, mkdir_entry, mkdir,
}
use mkgo.Fs.Kfs.Paths.{dir_inode}
use mkgo.Fs.Kfs.Durable.{Log-forget}
use mkgo.Fs.Kfs.After.{After, and_then-After}
use mkgo.Fs.Kfs.Nodes.{Durable, Behind, Behind-Durable, set_contents-Behind}
use mkgo.Fs.Kfs.NewNodes.{node_tables, allocated, log_node-Behind, node_tables-Sane, assign_same}
use mkgo.Fs.Kfs.Walk.{IsPlace}
use mkgo.Fs.Kfs.Keeps.{Kept, at_path-After, data-Durable, set_contents-Durable, resized-Durable}

module _ (e : Platform) (F : IsFaultless e) where
  shrink_inode-Durable :
      (ino : ℕ) (k : Kfs e) (n : Option Inode)
      → Durable e F k
      → k.tables.inodes ino ≡ n
      → After e (Kept e F k) (shrink_inode e ino n k)
  unfolding shrink_inode
  shrink_inode-Durable ino k none d h = (d, omega arith)
  shrink_inode-Durable ino k (some n) d h = elim (Bool-cases (n.size == 0)) [
    | inl empty ↦ rw (empty, After) (d, omega arith)
    | inr full ↦ rw full (resized-Durable e F ino 0 n k d h (omega arith))
  ]

  shrink-Durable : (ino : ℕ) (k : Kfs e) → Durable e F k → After e (Kept e F k) (shrink e ino k)
  unfolding shrink
  shrink-Durable ino k d = shrink_inode-Durable ino k (k.tables.inodes ino) d refl

  truncate-Durable : (ino : ℕ) (k : Kfs e) → Durable e F k → After e (Kept e F k) (truncate e ino k)
  unfolding truncate
  truncate-Durable ino k d =
      let p = data_payload ino trunc_sent [] in
      let (c', a) = apply-data_payload_sentinel ino k.tables d.contents in
      and_then-After e (append e rec_data p) _ _ (Kept e F k) k
        (data-Durable e F p c' k d (omega (arith, length-data_payload ino trunc_sent [])) a)
        (λ k1 (d1, t1).
          let next = ap (λ (t : Tables). t.next_ino) t1 in
          and_then-After e (shrink e ino) (λ y. set_contents e ino) (Kept e F k1) (Kept e F k) k1
            (shrink-Durable ino k1 d1)
            (λ k2 (d2, n2). (set_contents-Durable e F ino k2 d2, omega arith)))

  new_node-Durable :
      (kind parent : ℕ) (leaf : List ℕ) (k : Kfs e) (d : Durable e F k) (k' : Kfs e)
      → parent < k.tables.next_ino
      → k.tables.next_ino + 1 < 4294967296
      → let t' = node_tables e F kind parent leaf k.tables.next_ino k.tables in
        Behind e F t' d.contents t' k' → Kept e F k k'
  new_node-Durable kind parent leaf k d k' hp hi b =
      let t' = node_tables e F kind parent leaf k.tables.next_ino k.tables in
      let (sane, next, none_in) = node_tables-Sane e F kind parent leaf k.tables d.sane hp hi in
      (
        Behind-Durable e F t' t' d.contents k' b refl sane,
        omega (arith, ap (λ (t : Tables). t.next_ino) b.in_memory),
      )

  created-Durable :
      (parent : ℕ) (leaf : List ℕ) (k : Kfs e)
      → Durable e F k
      → parent < k.tables.next_ino
      → length leaf ≤ 65525
      → k.tables.next_ino + 1 < 4294967296
      → After e (Kept e F k) (
          with_ino e
            (λ ino. and_then e (log_node e kind_file parent leaf ino) (λ x. set_contents e ino))
            k)
  created-Durable parent leaf k d hp hl hi =
      let ino = k.tables.next_ino in
      let t' = node_tables e F kind_file parent leaf ino k.tables in
      and_then-After e (log_node e kind_file parent leaf ino) (λ x. set_contents e ino)
        (Behind e F t' d.contents t') (Kept e F k) (allocated e F k)
        (log_node-Behind e F kind_file parent leaf k d hp hl hi)
        (λ k' b.
          new_node-Durable kind_file parent leaf k d _ hp hi
            (set_contents-Behind e F ino t' t' d.contents k' b))

  made-Durable :
      (parent : ℕ) (leaf : List ℕ) (k : Kfs e)
      → Durable e F k
      → parent < k.tables.next_ino
      → length leaf ≤ 65525
      → k.tables.next_ino + 1 < 4294967296
      → After e (Kept e F k) (
          with_ino e
            (λ ino.
              and_then e
                (log_node e kind_dir parent leaf ino)
                (λ x. set_tables e (λ t. record t { children = assign ino [] t.children })))
            k)
  made-Durable parent leaf k d hp hl hi =
      let ino = k.tables.next_ino in
      let t' = node_tables e F kind_dir parent leaf ino k.tables in
      let none_in = (node_tables-Sane e F kind_dir parent leaf k.tables d.sane hp hi).2 in
      let f : Tables → Tables = λ t. record t { children = assign ino [] t.children } in
      let same_children = assign_same ino [] t'.children none_in in
      and_then-After e (log_node e kind_dir parent leaf ino) (λ x. set_tables e f)
        (Behind e F t' d.contents t') (Kept e F k) (allocated e F k)
        (log_node-Behind e F kind_dir parent leaf k d hp hl hi)
        (λ k' b.
          new_node-Durable kind_dir parent leaf k d (record k' { tables = f k'.tables }) hp hi
            (record {
              log = Log-forget e F k' t' (f k'.tables) d.contents k'.contents k'.recs b.log;
              in_memory =
                  ap f b.in_memory
                  ∙ ap (λ (c : ℕ → List ℕ). record t' { children = c }) same_children;
            }))

  create_entry-Durable :
      (m parent : ℕ) (leaf : List ℕ) (entry : Option ℕ) (k : Kfs e)
      → Durable e F k
      → m ≤ 65525
      → k.tables.next_ino + 1 < 4294967296
      → IsPlace m k.tables parent leaf
      → After e (Kept e F k) (create_entry e parent leaf entry k)
  unfolding create_entry
  create_entry-Durable m parent leaf none k d hl hi p =
      created-Durable parent leaf k d p.in_use (omega (arith, p.leaf_len)) hi
  create_entry-Durable m parent leaf (some ino) k d hl hi p =
      elim (Bool-cases (dir_inode (k.tables.inodes ino))) [
        | inl dir ↦ rw (dir, After) tt
        | inr file ↦ rw file (truncate-Durable ino k d)
      ]

  mkdir_entry-Durable :
      (m parent : ℕ) (leaf : List ℕ) (entry : Option ℕ) (k : Kfs e)
      → Durable e F k
      → m ≤ 65525
      → k.tables.next_ino + 1 < 4294967296
      → IsPlace m k.tables parent leaf
      → After e (Kept e F k) (mkdir_entry e parent leaf entry k)
  unfolding mkdir_entry
  mkdir_entry-Durable m parent leaf none k d hl hi p =
      made-Durable parent leaf k d p.in_use (omega (arith, p.leaf_len)) hi
  mkdir_entry-Durable m parent leaf (some ino) k d hl hi p = tt

  -- A volume is durable when its log replays to the tables in memory. From such a volume, creating
  -- or emptying a file leaves one, if the operation succeeds.
  pub create-Durable :
      (path : List ℕ) (k : Kfs e)
      → Durable e F k
      → length path ≤ 65525
      → k.tables.next_ino + 1 < 4294967296
      → After e (Kept e F k) (create e path k)
  unfolding create
  create-Durable path k d hl hi =
      at_path-After e F path (create_entry e) (Kept e F k) k d.sane
        (λ parent leaf entry p. create_entry-Durable (length path) parent leaf entry k d hl hi p)

  -- So does making a directory.
  pub mkdir-Durable :
      (path : List ℕ) (k : Kfs e)
      → Durable e F k
      → length path ≤ 65525
      → k.tables.next_ino + 1 < 4294967296
      → After e (Kept e F k) (mkdir e path k)
  unfolding mkdir
  mkdir-Durable path k d hl hi =
      at_path-After e F path (mkdir_entry e) (Kept e F k) k d.sane
        (λ parent leaf entry p. mkdir_entry-Durable (length path) parent leaf entry k d hl hi p)
