-- ===== src/Fs/Kfs/NewNodes.antt =====
-- The operations keep the tables of a volume and its log in step: a new inode and its entry.
use mathlib.Core.Path.{fun_ext}
use mkgo.Common.{
  ℕ, ◌+◌, ◌%◌, ◌≤◌, ◌<◌, ◌≡◌, inl, inr, refl, sym, ◌∙◌, ap, arith, true, false, List, [], length,
  leb, ◌==◌, Option, some, Bool-cases,
}
use mkgo.Fs.Platform.{Platform, IsFaultless}
use mkgo.Fs.Kfs.{
  Inode, Tables, assign, put_inode, add_dirent, inode_payload, dirent_payload, rec_inode,
  rec_dirent,
}
use mkgo.Fs.Kfs.Log.{Kfs, append}
use mkgo.Fs.Kfs.Payloads.{
  IsSmall, apply-inode_payload, length-inode_payload, apply-dirent_payload, length-dirent_payload,
}
use mkgo.Fs.Kfs.Ops.{set_inode, append_dirent, fresh_inode, log_node}
use mkgo.Fs.Kfs.Durable.{Log-forget, Appended, append-Appended}
use mkgo.Fs.Kfs.After.{After, and_then-After}
use mkgo.Fs.Kfs.Nodes.{Sane, put_inode-Sane, add_dirent-Sane, Durable, Behind, step-Behind}

module _ (e : Platform) (F : IsFaultless e) where
  -- `allocIno` and the two records of a new node.
  pub node_tables : ℕ → ℕ → List ℕ → ℕ → Tables → Tables
  node_tables kind parent leaf ino t =
      add_dirent parent leaf ino (put_inode (fresh_inode e kind ino) t)

  -- The tables behind `allocIno`.
  abbrev pub allocated : Kfs e → Kfs e
  allocated k = record k {
    tables = record k.tables { next_ino = (k.tables.next_ino + 1) % 4294967296 };
  }

  put_fresh :
      (n : Inode) (k : Kfs e)
      → n.ino ≡ k.tables.next_ino
      → k.tables.next_ino + 1 < 4294967296
      → put_inode n k.tables ≡ record k.tables {
        inodes = assign n.ino (some n) k.tables.inodes;
        next_ino = (k.tables.next_ino + 1) % 4294967296;
      }
  unfolding put_inode
  put_fresh n k h q =
      let new : leb k.tables.next_ino n.ino ≡ true = ground arith in
      let next : (n.ino + 1) % 4294967296 ≡ (k.tables.next_ino + 1) % 4294967296 = omega arith in
      rw new (
        ap
          (λ (m : ℕ). record k.tables {
            inodes = assign n.ino (some n) k.tables.inodes;
            next_ino = m;
          })
          next)

  add_dirent-inodes :
      (parent : ℕ) (name : List ℕ) (ino : ℕ) (t : Tables) (n : Option Inode)
      → record (add_dirent parent name ino t) {
        inodes = assign ino n (add_dirent parent name ino t).inodes;
      }
        ≡ add_dirent parent name ino (record t { inodes = assign ino n t.inodes })
  unfolding add_dirent
  add_dirent-inodes parent name ino t n = refl

  add_dirent-next :
      (parent : ℕ) (name : List ℕ) (ino : ℕ) (t : Tables)
      → (add_dirent parent name ino t).next_ino ≡ t.next_ino
  unfolding add_dirent
  add_dirent-next parent name ino t = refl

  pub log_node-Behind :
      (kind parent : ℕ) (leaf : List ℕ) (k : Kfs e) (d : Durable e F k)
      → parent < k.tables.next_ino
      → length leaf ≤ 65525
      → k.tables.next_ino + 1 < 4294967296
      → let ino = k.tables.next_ino in
        let t' = node_tables kind parent leaf ino k.tables in
        After e (Behind e F t' d.contents t') (log_node e kind parent leaf ino (allocated k))
  unfolding log_node append_dirent node_tables
  log_node-Behind kind parent leaf k d hp hl hi =
      let ino = k.tables.next_ino in
      let n = fresh_inode e kind ino in
      let ti = put_inode n k.tables in
      let t' = add_dirent parent leaf ino ti in
      let fresh = put_fresh n k refl hi in
      let next : ti.next_ino ≡ (allocated k).tables.next_ino =
        ap (λ (t : Tables). t.next_ino) fresh in
      let small : IsSmall n = record {
        ino_range = omega arith;
        uid_range = omega arith;
        size_range = omega arith;
      } in
      let next' : t'.next_ino ≡ ti.next_ino = add_dirent-next parent leaf ino ti in
      and_then-After e (append e rec_inode (inode_payload n)) _
        (Appended e F (allocated k) ti d.contents) _ (allocated k)
        (append-Appended e F rec_inode (inode_payload n) (allocated k) k.tables ti d.contents
          d.contents
          (Log-forget e F k k.tables (allocated k).tables d.contents k.contents k.recs d.log)
          (omega (arith, length-inode_payload n)) (apply-inode_payload n k.tables d.contents small)
          next (omega arith))
        (λ k2 a.
          and_then-After e (append_dirent e parent leaf ino) (λ y. set_inode e ino n)
            (Behind e F t' d.contents (add_dirent parent leaf ino k2.tables)) _ k2
            (step-Behind e F rec_dirent (dirent_payload parent leaf ino)
              (add_dirent parent leaf ino) k2 ti t' d.contents d.contents a.log
              (omega (arith, length-dirent_payload parent leaf ino))
              (apply-dirent_payload parent leaf ino ti d.contents (omega arith) (omega arith)
                (omega arith))
              (next' ∙ next ∙ ap (λ (t : Tables). t.next_ino) (sym a.same_tables)) (omega arith))
            (λ k3 b. record {
              log = Log-forget e F k3 t' _ d.contents k3.contents k3.recs b.log;
              in_memory =
                  ap (λ (t : Tables). record t { inodes = assign ino (some n) t.inodes })
                    (b.in_memory ∙ ap (add_dirent parent leaf ino) a.same_tables)
                  ∙ add_dirent-inodes parent leaf ino (allocated k).tables (some n)
                  ∙ ap (add_dirent parent leaf ino) (sym fresh);
            }))

  put_next :
      (n : Inode) (t : Tables)
      → n.ino ≡ t.next_ino
      → t.next_ino + 1 < 4294967296
      → (put_inode n t).next_ino ≡ t.next_ino + 1
  unfolding put_inode
  put_next n t h q = ground arith

  other_children :
      (parent : ℕ) (leaf : List ℕ) (ino : ℕ) (n : Inode) (t : Tables)
      → parent < ino
      → t.children ino ≡ []
      → (add_dirent parent leaf ino (put_inode n t)).children ino ≡ []
  unfolding add_dirent put_inode
  other_children parent leaf ino n t h q =
      let other : ino == parent ≡ false = ground arith in rw other q

  -- The new node's tables are in order, and the node has no entries.
  pub node_tables-Sane :
      (kind parent : ℕ) (leaf : List ℕ) (t : Tables)
      → Sane t
      → parent < t.next_ino
      → t.next_ino + 1 < 4294967296
      → let t' = node_tables kind parent leaf t.next_ino t in
        Sane t' × (t'.next_ino ≡ t.next_ino + 1) × (t'.children t.next_ino ≡ [])
  unfolding node_tables
  node_tables-Sane kind parent leaf t s h q =
      let ino = t.next_ino in
      let n = fresh_inode e kind ino in
      let small : IsSmall n = record {
        ino_range = omega arith;
        uid_range = omega arith;
        size_range = omega arith;
      } in
      let next = put_next n t refl q in
      let s' = put_inode-Sane n t s small q (omega arith) in
      (
        add_dirent-Sane parent leaf ino (put_inode n t) s' (omega arith),
        add_dirent-next parent leaf ino (put_inode n t) ∙ next,
        other_children parent leaf ino n t (omega arith) (s.no_entries ino (omega arith)),
      )

pub assign_same {ℓ} : {A : Type ℓ} (i : ℕ) (v : A) (f : ℕ → A) → f i ≡ v → assign i v f ≡ f
assign_same i v f h = fun_ext λ j. elim (Bool-cases (j == i)) [
  | inl same ↦ let q : i ≡ j = ground arith in rw same (sym h ∙ ap f q)
  | inr other ↦ rw other refl
]
