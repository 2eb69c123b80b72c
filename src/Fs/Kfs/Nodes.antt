-- ===== src/Fs/Kfs/Nodes.antt =====
-- The operations keep the tables of a volume and its log in step: the inodes.
use mathlib.Core.Path.{subst}
use mkgo.Common.{
  ℕ, ◌+◌, ◌≤◌, ◌<◌, ◌≡◌, ◌⊎◌, inl, inr, refl, sym, ◌∙◌, ap, arith, true, false, List, [], length,
  leb, ◌==◌, if◌then◌else◌, some, Bool-cases,
}
use mkgo.Fs.Platform.{Platform, IsFaultless}
use mkgo.Fs.Kfs.{
  Inode, Tables, Contents, applied, apply, assign, put_inode, add_dirent, inode_payload, rec_inode,
  max_payload,
}
use mkgo.Fs.Kfs.Log.{Kfs, and_then, append}
use mkgo.Fs.Kfs.Payloads.{IsSmall, apply-inode_payload, length-inode_payload}
use mkgo.Fs.Kfs.Ops.{set_tables, set_inode, set_contents}
use mkgo.Fs.Kfs.Durable.{Log, Log-forget, Appended, append-Appended}
use mkgo.Fs.Kfs.After.{After, After-weaken, and_then-After}

-- The tables are in order: `next_ino` lies above every inode's number, and what has no inode yet has
-- no entries.
pub record Sane (t : Tables) : Type 0 where
  pub has_root : 1 < t.next_ino
  pub counted : t.next_ino < 4294967296
  pub keyed : (i : ℕ) (n : Inode) → t.inodes i ≡ some n → (n.ino ≡ i) × (i < t.next_ino)
  pub small : (i : ℕ) (n : Inode) → t.inodes i ≡ some n → IsSmall n
  pub no_entries : (i : ℕ) → t.next_ino ≤ i → t.children i ≡ []

-- An inode joins the table, or replaces its old self.
pub put_inode-Sane :
    (n : Inode) (t : Tables)
    → Sane t
    → IsSmall n
    → n.ino + 1 < 4294967296
    → n.ino ≤ t.next_ino
    → Sane (put_inode n t)
unfolding put_inode
put_inode-Sane n t s small room h = record {
  has_root = ground (arith, s.has_root);
  counted = ground (arith, s.counted);
  keyed = λ i m e. ground (arith, s.keyed i m);
  small = λ i m e. small_at i m e (Bool-cases (i == n.ino));
  no_entries = λ i p. s.no_entries i (ground arith);
}
  where
    small_at :
        (i : ℕ) (m : Inode)
        → (if i == n.ino then some n else t.inodes i) ≡ some m
        → ((i == n.ino) ≡ true) ⊎ ((i == n.ino) ≡ false)
        → IsSmall m
    small_at i m e (inl same) = let q : n ≡ m = let e' = rw same at e in cc in rw (← q) small
    small_at i m e (inr other) = s.small i m (rw other at e)

pub add_dirent-Sane :
    (parent : ℕ) (name : List ℕ) (ino : ℕ) (t : Tables)
    → Sane t
    → parent < t.next_ino
    → Sane (add_dirent parent name ino t)
unfolding add_dirent
add_dirent-Sane parent name ino t s h = record {
  has_root = s.has_root;
  counted = s.counted;
  keyed = s.keyed;
  small = s.small;
  no_entries = λ i p. ground (arith, s.no_entries i p);
}

module _ (e : Platform) (F : IsFaultless e) where
  -- The log replays to the tables in memory, which are in order.
  pub record Durable (k : Kfs e) : Type 0 where
    pub contents : Contents
    pub log : Log e F k k.tables contents
    pub sane : Sane k.tables

  -- The log replays to the first tables; those in memory are the second ones.
  pub record Behind (t : Tables) (c : Contents) (u : Tables) (k : Kfs e) : Type 0 where
    pub log : Log e F k t c
    pub in_memory : k.tables ≡ u

  pub Behind-Durable :
      (t u : Tables) (c : Contents) (k : Kfs e) → Behind t c u k → t ≡ u → Sane u → Durable k
  Behind-Durable t u c k b h s = record {
    contents = c;
    log = subst (λ (x : Tables). Log e F k x c) (h ∙ sym b.in_memory) b.log;
    sane = rw b.in_memory s;
  }

  -- What a volume forgets of its contents is not in the log.
  pub set_contents-Behind :
      (ino : ℕ) (t u : Tables) (c : Contents) (k : Kfs e)
      → Behind t c u k
      → After e (Behind t c u) (set_contents e ino k)
  set_contents-Behind ino t u c k b = record {
    log = Log-forget e F k t k.tables c (assign ino [] k.contents) k.recs b.log;
    in_memory = b.in_memory;
  }

  -- A record is appended, and then the tables in memory change.
  pub step-Behind :
      (typ : ℕ) (p : List ℕ) (f : Tables → Tables) (k : Kfs e) (t t' : Tables) (c c' : Contents)
      → Log e F k t c
      → (0 < length p) × (length p ≤ max_payload)
      → apply typ p t c ≡ applied t' c'
      → t'.next_ino ≡ k.tables.next_ino
      → t'.next_ino < 4294967296
      → After e (Behind t' c' (f k.tables)) (and_then e (append e typ p) (λ x. set_tables e f) k)
  step-Behind typ p f k t t' c c' l s a h q =
      and_then-After e (append e typ p) (λ x. set_tables e f) (Appended e F k t' c') _ k
        (append-Appended e F typ p k t t' c c' l s a h q)
        (λ k' b. record {
          log = Log-forget e F k' t' (f k'.tables) c' k'.contents k'.recs b.log;
          in_memory = ap f b.same_tables;
        })

  -- An inode that the tables know is replaced.
  replace : Inode → Tables → Tables
  replace n t = record t { inodes = assign n.ino (some n) t.inodes }

  put_known : (n : Inode) (t : Tables) → n.ino < t.next_ino → put_inode n t ≡ replace n t
  unfolding put_inode replace
  put_known n t h = let old : leb t.next_ino n.ino ≡ false = ground arith in rw old refl

  pub replace-Durable :
      (n : Inode) (k : Kfs e)
      → Durable k
      → IsSmall n
      → n.ino < k.tables.next_ino
      → After e
          (λ k'. Durable k' × (k'.tables.next_ino ≡ k.tables.next_ino))
          (and_then e (append e rec_inode (inode_payload n)) (λ x. set_inode e n.ino n) k)
  unfolding replace
  replace-Durable n k d s h =
      let t' = put_inode n k.tables in
      let known = put_known n k.tables h in
      let next : t'.next_ino ≡ k.tables.next_ino = ap (λ (t : Tables). t.next_ino) known in
      After-weaken e (Behind t' d.contents (replace n k.tables)) _ _
        (step-Behind rec_inode (inode_payload n) (replace n) k k.tables t' d.contents d.contents
          d.log (omega (arith, length-inode_payload n))
          (apply-inode_payload n k.tables d.contents s) next (omega (arith, d.sane.counted)))
        (λ k' b. (
          Behind-Durable t' (replace n k.tables) d.contents k' b known (
              rw known at
                (put_inode-Sane n k.tables d.sane s (omega (arith, d.sane.counted)) (omega arith))),
          ap (λ (t : Tables). t.next_ino) b.in_memory,
        ))
