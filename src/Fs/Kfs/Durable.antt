-- ===== src/Fs/Kfs/Durable.antt =====
-- The log that a volume has written: what its records replay to, and that `append` adds to it.
use mathlib.Core.Path.{subst}
use mathlib.Core.List.{append-nil, append_assoc}
use mkgo.Common.{
  ℕ, ◌+◌, ◌%◌, ◌≤◌, ◌<◌, ◌≡◌, inl, inr, refl, sym, ◌∙◌, ap, arith, false, List, [], ◌∷◌, ◌++◌,
  length, length-append, ltb, ◌==◌, Bool-cases, All,
}
use mkgo.Kern.Frame.{le32, get32}
use mkgo.Fs.Platform.{Platform, IsFaultless}
use mkgo.Fs.Kfs.{
  Tables, Contents, applied, refused, panics, apply, no_tables, log_start, hdr_len, rec_checkpoint,
  cp_every,
}
use mkgo.Fs.Kfs.Log.{Kfs, ok, frame, write_record, append_checkpoint, pace, append}
use mkgo.Fs.Kfs.Append.{length-frame, Logged, write_record-Logged}
use mkgo.Fs.Kfs.Replay.{Written, Written-append, OnDevice}
use mkgo.Fs.Kfs.Logged.{
  Logged-log_end, Logged-OnDevice, Logged-HasSuperblock, Logged-kept, Logged-added, Logged-blank,
}
use mkgo.Fs.Kfs.Recover.{HasSuperblock, no_contents}
use mkgo.Fs.Kfs.Frames.{Rec, IsShort, apply_all, apply_all-append, follow, frames}
use mkgo.Fs.Kfs.After.{After, After-weaken, and_then-After}

All-append {ℓ κ} :
    {A : Type ℓ} (P : A → Type κ) (xs ys : List A) → All P xs → All P ys → All P (xs ++ ys)
All-append P [] ys h k = k
All-append P (x ∷ xs) ys h k = (h.0, All-append P xs ys h.1 k)

apply_one :
    (typ : ℕ) (p : List ℕ) (t : Tables) (c : Contents)
    → apply_all ((typ, p) ∷ []) t c ≡ apply typ p t c
unfolding apply_all
apply_one typ p t c = elim (apply typ p t c) as (λ a. follow a applied ≡ a) [
  | applied t' c' ↦ refl
  | refused ↦ refl
  | panics ↦ refl
]

module _ (e : Platform) (F : IsFaultless e) where
  -- The log of the volume, from its start to the cursor, holds records that replay to the tables and
  -- contents; behind the cursor the device is blank.
  pub record Log (k : Kfs e) (t : Tables) (c : Contents) : Type 0 where
    pub device : OnDevice e F k
    pub super : HasSuperblock e F k.disk
    pub recs : List Rec
    pub short : All IsShort recs
    pub written : Written log_start (frames e F recs) (F.bytes k.disk)
    pub cursor : k.w_off ≡ log_start + length (frames e F recs)
    pub room : k.w_off ≤ k.log_end
    pub replays : apply_all recs no_tables (no_contents e F) ≡ applied t c
    pub blank : (i : ℕ) → k.w_off ≤ i → F.bytes k.disk i ≡ 0

  -- The tables in memory and the pacing of checkpoints have no part in it.
  pub Log-forget :
      (k : Kfs e) (t t' : Tables) (c c' : Contents) (n : ℕ)
      → Log k t c
      → Log (record k { tables = t'; contents = c'; recs = n }) t c
  Log-forget k t t' c c' n l = record {
    device = record {
      blocks = l.device.blocks;
      log_size = l.device.log_size;
      cached = l.device.cached;
    };
    super = l.super;
    recs = l.recs;
    short = l.short;
    written = l.written;
    cursor = l.cursor;
    room = l.room;
    replays = l.replays;
    blank = l.blank;
  }

  -- An operation on the log alone.
  pub record Appended (k : Kfs e) (t : Tables) (c : Contents) (k' : Kfs e) : Type 0 where
    pub log : Log k' t c
    pub same_tables : k'.tables ≡ k.tables
    pub same_contents : k'.contents ≡ k.contents

  frames-snoc :
      (rs : List Rec) (typ : ℕ) (p : List ℕ)
      → frames e F (rs ++ (typ, p) ∷ []) ≡ frames e F rs ++ frame e typ p
  unfolding frames
  frames-snoc [] typ p = append-nil (frame e typ p)
  frames-snoc ((typ', p') ∷ rs) typ p =
      ap (λ (l : List ℕ). frame e typ' p' ++ l) (frames-snoc rs typ p)
      ∙ sym (append_assoc (frame e typ' p') (frames e F rs) (frame e typ p))

  Logged-Log :
      (typ : ℕ) (p : List ℕ) (k k' : Kfs e) (t t' : Tables) (c c' : Contents)
      → Log k t c
      → IsShort (typ, p)
      → apply typ p t c ≡ applied t' c'
      → k.w_off + hdr_len + length p ≤ k.log_end
      → Logged e F typ p k k'
      → Log k' t' c'
  Logged-Log typ p k k' t t' c c' l s a room g =
      let fr = frame e typ p in
      let old = frames e F l.recs in
      let len = length-frame e F typ p in
      let all = length-append old fr in
      let log_end = Logged-log_end e F typ p k k' g in
      let snoc = frames-snoc l.recs typ p in
      let added : Written (log_start + length old) fr (F.bytes k'.disk) =
        subst (λ (n : ℕ). Written n fr (F.bytes k'.disk)) l.cursor
          (Logged-added e F typ p k k' g) in
      let kept = Logged-kept e F typ p k k' g log_start old (omega (arith, l.cursor)) l.written in
      record {
        device = Logged-OnDevice e F typ p k k' g l.device;
        super = Logged-HasSuperblock e F typ p k k' g (omega (arith, l.cursor)) l.super;
        recs = l.recs ++ (typ, p) ∷ [];
        short = All-append IsShort l.recs ((typ, p) ∷ []) l.short (s, tt);
        written = rw snoc (Written-append log_start old fr (F.bytes k'.disk) kept added);
        cursor = g.cursor ∙ omega (arith, l.cursor, ap (length {0} {A = ℕ}) snoc);
        room = omega (arith, g.cursor);
        replays =
            apply_all-append l.recs ((typ, p) ∷ []) no_tables (no_contents e F)
            ∙ ap (λ x. follow x (apply_all ((typ, p) ∷ []))) l.replays
            ∙ apply_one typ p t c
            ∙ a;
        blank = Logged-blank e F typ p k k' g l.blank;
      }

  pub write_record-Appended :
      (typ : ℕ) (p : List ℕ) (k : Kfs e) (t t' : Tables) (c c' : Contents)
      → Log k t c
      → IsShort (typ, p)
      → apply typ p t c ≡ applied t' c'
      → After e (Appended k t' c') (write_record e typ p k)
  unfolding write_record
  write_record-Appended typ p k t t' c c' l s a =
      elim (Bool-cases (ltb k.log_end (k.w_off + (hdr_len + length p)))) [
        | inl full ↦ rw full tt
        | inr fits ↦
            let room : k.w_off + hdr_len + length p ≤ k.log_end = ground arith in
            let (k', good, g) = write_record-Logged e F typ p k l.device.log_size room in
            rw good (record {
              log = Logged-Log typ p k k' t t' c c' l s a room g;
              same_tables = ap (λ (x : Kfs e). x.tables) g.rest;
              same_contents = ap (λ (x : Kfs e). x.contents) g.rest;
            })
      ]

  -- With room in the log the write succeeds.
  pub write_record-succeeds :
      (typ : ℕ) (p : List ℕ) (k : Kfs e) (t t' : Tables) (c c' : Contents)
      → Log k t c
      → IsShort (typ, p)
      → apply typ p t c ≡ applied t' c'
      → k.w_off + hdr_len + length p ≤ k.log_end
      → (k' : Kfs e) × (write_record e typ p k ≡ (ok tt, k'))
        × Appended k t' c' k'
        × (k'.w_off ≡ k.w_off + hdr_len + length p)
        × (k'.recs ≡ k.recs)
        × (k'.log_end ≡ k.log_end)
  write_record-succeeds typ p k t t' c c' l s a room =
      let (k', good, g) = write_record-Logged e F typ p k l.device.log_size room in
      (
        k',
        good,
        record {
          log = Logged-Log typ p k k' t t' c c' l s a room g;
          same_tables = ap (λ (x : Kfs e). x.tables) g.rest;
          same_contents = ap (λ (x : Kfs e). x.contents) g.rest;
        },
        g.cursor ∙ omega (arith, length-frame e F typ p),
        ap (λ (x : Kfs e). x.recs) g.rest,
        Logged-log_end e F typ p k k' g,
      )

  pub checkpoint_idle :
      (n : ℕ) (t : Tables) (c : Contents)
      → t.next_ino ≡ n
      → n < 4294967296
      → apply rec_checkpoint (le32 n) t c ≡ applied t c
  unfolding apply
  checkpoint_idle n t c h k =
      let v : get32 (le32 n) 0 ≡ n = omega arith in
      let idle : ltb t.next_ino (get32 (le32 n) 0) ≡ false = ground arith in rw idle refl

  pace-Appended :
      (k k' : Kfs e) (t : Tables) (c : Contents)
      → t.next_ino ≡ k.tables.next_ino
      → t.next_ino < 4294967296
      → Appended k t c k'
      → After e (Appended k t c) (pace e k')
  unfolding pace append_checkpoint
  pace-Appended k k' t c h q a =
      let k'' = record k' { recs = k'.recs + 1 } in
      let l = Log-forget k' t k'.tables c k'.contents (k'.recs + 1) a.log in
      let next : t.next_ino ≡ k''.tables.next_ino =
        h ∙ ap (λ (x : Tables). x.next_ino) (sym a.same_tables) in
      elim (Bool-cases (k''.recs % cp_every == 0)) [
        | inl due ↦ rw due (
            After-weaken e (Appended k'' t c) (Appended k t c) (append_checkpoint e k'')
              (write_record-Appended rec_checkpoint (le32 k''.tables.next_ino) k'' t t c c l
                (omega arith, omega arith)
                (checkpoint_idle k''.tables.next_ino t c next (omega arith)))
              (λ k3 b. record {
                log = b.log;
                same_tables = b.same_tables ∙ a.same_tables;
                same_contents = b.same_contents ∙ a.same_contents;
              }))
        | inr soon ↦
            rw soon
              (record { log = l; same_tables = a.same_tables; same_contents = a.same_contents })
      ]

  -- A record that is appended joins the log: afterwards the log replays to what it did, followed by
  -- the record. A checkpoint that falls due behind it changes nothing.
  pub append-Appended :
      (typ : ℕ) (p : List ℕ) (k : Kfs e) (t t' : Tables) (c c' : Contents)
      → Log k t c
      → IsShort (typ, p)
      → apply typ p t c ≡ applied t' c'
      → t'.next_ino ≡ k.tables.next_ino
      → t'.next_ino < 4294967296
      → After e (Appended k t' c') (append e typ p k)
  unfolding append
  append-Appended typ p k t t' c c' l s a h q =
      and_then-After e (write_record e typ p) (λ x. pace e) (Appended k t' c') (Appended k t' c') k
        (write_record-Appended typ p k t t' c c' l s a) (λ k' b. pace-Appended k k' t' c' h q b)
