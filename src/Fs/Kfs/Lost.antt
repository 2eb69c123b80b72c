-- ===== src/Fs/Kfs/Lost.antt =====
-- Records at which the scan of a later mount ends or panics, and what is lost behind them.
use mkgo.Common.{ℕ, ◌+◌, ◌%◌, ◌≤◌, ◌≡◌, inl, inr, arith, List, length, ltb, ◌==◌, All, Bool-cases}
use mkgo.Kern.Frame.{le32}
use mkgo.Fs.Platform.{Platform, IsFaultless}
use mkgo.Fs.Kfs.{
  Tables, Contents, Applied, applied, apply, no_tables, log_start, hdr_len, cp_every,
  rec_checkpoint,
}
use mkgo.Fs.Kfs.Log.{Kfs, frame, write_record, append_checkpoint, pace, append}
use mkgo.Fs.Kfs.Append.{length-frame, Logged, write_record-Logged}
use mkgo.Fs.Kfs.Replay.{Written, OnDevice}
use mkgo.Fs.Kfs.Logged.{
  Logged-log_end, Logged-OnDevice, Logged-HasSuperblock, Logged-kept, Logged-added,
}
use mkgo.Fs.Kfs.Recover.{HasSuperblock, no_contents}
use mkgo.Fs.Kfs.Frames.{Rec, IsShort, apply_all, frames}
use mkgo.Fs.Kfs.Durable.{Log}
use mkgo.Fs.Kfs.After.{After, and_then-After}

module _ (e : Platform) (F : IsFaultless e) where
  -- Behind the records of the log that are good stands one that the replay does not apply.
  pub record Stuck (t : Tables) (c : Contents) (a : Applied) (q : ℕ) (k : Kfs e) : Type 0 where
    pub device : OnDevice e F k
    pub super : HasSuperblock e F k.disk
    pub recs : List Rec
    pub bad : Rec
    pub short : All IsShort recs
    pub bad_short : IsShort bad
    pub written : Written log_start (frames e F recs) (F.bytes k.disk)
    pub bad_written : Written q (frame e bad.0 bad.1) (F.bytes k.disk)
    pub place : q ≡ log_start + length (frames e F recs)
    pub behind : q + length (frame e bad.0 bad.1) ≤ k.w_off
    pub room : k.w_off ≤ k.log_end
    pub replays : apply_all recs no_tables (no_contents e F) ≡ applied t c
    pub fails : apply bad.0 bad.1 t c ≡ a

  Logged-Stuck :
      (t : Tables) (c : Contents) (a : Applied) (q typ : ℕ) (p : List ℕ) (k k' : Kfs e)
      → Stuck t c a q k
      → k.w_off + hdr_len + length p ≤ k.log_end
      → Logged e F typ p k k'
      → Stuck t c a q k'
  Logged-Stuck t c a q typ p k k' s room g =
      let len = length-frame e F typ p in
      let log_end = Logged-log_end e F typ p k k' g in
      let fr = frame e s.bad.0 s.bad.1 in
      record {
        device = Logged-OnDevice e F typ p k k' g s.device;
        super = Logged-HasSuperblock e F typ p k k' g (omega (arith, s.place, s.behind)) s.super;
        recs = s.recs;
        bad = s.bad;
        short = s.short;
        bad_short = s.bad_short;
        written =
            Logged-kept e F typ p k k' g log_start (frames e F s.recs)
              (omega (arith, s.place, s.behind)) s.written;
        bad_written = Logged-kept e F typ p k k' g q fr s.behind s.bad_written;
        place = s.place;
        behind = omega (arith, g.cursor, s.behind);
        room = omega (arith, g.cursor);
        replays = s.replays;
        fails = s.fails;
      }

  first_Stuck :
      (t : Tables) (c : Contents) (a : Applied) (typ : ℕ) (p : List ℕ) (k k' : Kfs e)
      → Log e F k t c
      → IsShort (typ, p)
      → apply typ p t c ≡ a
      → k.w_off + hdr_len + length p ≤ k.log_end
      → Logged e F typ p k k'
      → Stuck t c a k.w_off k'
  first_Stuck t c a typ p k k' l s h room g =
      let len = length-frame e F typ p in
      let log_end = Logged-log_end e F typ p k k' g in
      record {
        device = Logged-OnDevice e F typ p k k' g l.device;
        super = Logged-HasSuperblock e F typ p k k' g (omega (arith, l.cursor)) l.super;
        recs = l.recs;
        bad = (typ, p);
        short = l.short;
        bad_short = s;
        written =
            Logged-kept e F typ p k k' g log_start (frames e F l.recs) (omega (arith, l.cursor))
              l.written;
        bad_written = Logged-added e F typ p k k' g;
        place = l.cursor;
        behind = omega (arith, g.cursor);
        room = omega (arith, g.cursor);
        replays = l.replays;
        fails = h;
      }

  -- A record that is written behind the bad one does not help.
  write_record-Stuck :
      (t : Tables) (c : Contents) (a : Applied) (q typ : ℕ) (p : List ℕ) (k : Kfs e)
      → Stuck t c a q k
      → After e (Stuck t c a q) (write_record e typ p k)
  unfolding write_record
  write_record-Stuck t c a q typ p k s =
      elim (Bool-cases (ltb k.log_end (k.w_off + (hdr_len + length p)))) [
        | inl full ↦ rw full tt
        | inr fits ↦
            let room : k.w_off + hdr_len + length p ≤ k.log_end = ground arith in
            let (k', good, g) = write_record-Logged e F typ p k s.device.log_size room in
            rw good (Logged-Stuck t c a q typ p k k' s room g)
      ]

  first_record :
      (t : Tables) (c : Contents) (a : Applied) (typ : ℕ) (p : List ℕ) (k : Kfs e)
      → Log e F k t c
      → IsShort (typ, p)
      → apply typ p t c ≡ a
      → After e (Stuck t c a k.w_off) (write_record e typ p k)
  unfolding write_record
  first_record t c a typ p k l s h =
      elim (Bool-cases (ltb k.log_end (k.w_off + (hdr_len + length p)))) [
        | inl full ↦ rw full tt
        | inr fits ↦
            let room : k.w_off + hdr_len + length p ≤ k.log_end = ground arith in
            let (k', good, g) = write_record-Logged e F typ p k l.device.log_size room in
            rw good (first_Stuck t c a typ p k k' l s h room g)
      ]

  pub Stuck-forget :
      (t u : Tables) (c x : Contents) (a : Applied) (q n : ℕ) (k : Kfs e)
      → Stuck t c a q k
      → Stuck t c a q (record k { tables = u; contents = x; recs = n })
  Stuck-forget t u c x a q n k s = record {
    device = record {
      blocks = s.device.blocks;
      log_size = s.device.log_size;
      cached = s.device.cached;
    };
    super = s.super;
    recs = s.recs;
    bad = s.bad;
    short = s.short;
    bad_short = s.bad_short;
    written = s.written;
    bad_written = s.bad_written;
    place = s.place;
    behind = s.behind;
    room = s.room;
    replays = s.replays;
    fails = s.fails;
  }

  pace-Stuck :
      (t : Tables) (c : Contents) (a : Applied) (q : ℕ) (k : Kfs e)
      → Stuck t c a q k
      → After e (Stuck t c a q) (pace e k)
  unfolding pace append_checkpoint
  pace-Stuck t c a q k s =
      let s' = Stuck-forget t k.tables c k.contents a q (k.recs + 1) k s in
      elim (Bool-cases ((k.recs + 1) % cp_every == 0)) [
        | inl due ↦ rw due (
            write_record-Stuck t c a q rec_checkpoint (le32 k.tables.next_ino)
              (record k { recs = k.recs + 1 }) s')
        | inr soon ↦ rw soon s'
      ]

  pub append-Stuck :
      (t : Tables) (c : Contents) (a : Applied) (q typ : ℕ) (p : List ℕ) (k : Kfs e)
      → Stuck t c a q k
      → After e (Stuck t c a q) (append e typ p k)
  unfolding append
  append-Stuck t c a q typ p k s =
      and_then-After e (write_record e typ p) (λ x. pace e) (Stuck t c a q) (Stuck t c a q) k
        (write_record-Stuck t c a q typ p k s) (pace-Stuck t c a q)

  pub append_first :
      (t : Tables) (c : Contents) (a : Applied) (typ : ℕ) (p : List ℕ) (k : Kfs e)
      → Log e F k t c
      → IsShort (typ, p)
      → apply typ p t c ≡ a
      → After e (Stuck t c a k.w_off) (append e typ p k)
  unfolding append
  append_first t c a typ p k l s h =
      and_then-After e (write_record e typ p) (λ x. pace e) (Stuck t c a k.w_off) _ k
        (first_record t c a typ p k l s h) (pace-Stuck t c a k.w_off)
