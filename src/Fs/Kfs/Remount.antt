-- ===== src/Fs/Kfs/Remount.antt =====
-- Mounting the device of a volume: the log is read back as far as it was written.
use mkgo.Common.{
  ℕ, zero, suc, ◌+◌, ◌≤◌, ◌≡◌, inl, inr, refl, sym, ◌∙◌, ap, arith, Bool, true, false, List, ltb,
  ◌==◌, if◌then◌else◌, none, some, Bool-cases, Option-cases,
}
use mkgo.Common.Bytes.{make_bytes}
use mkgo.Net.Ring.{Memory, load_bytes}
use mkgo.Fs.Platform.{Platform, IsFaultless}
use mkgo.Fs.Kfs.{Tables, Contents, apply, refused}
use mkgo.Fs.Kfs.Log.{Kfs, next_record, read_at, read_payload, superblock, fresh, mount, volume}
use mkgo.Fs.Kfs.Replay.{OnDevice, read_at-eq-load_bytes}
use mkgo.Fs.Kfs.Recover.{length-superblock, mount-frames}
use mkgo.Fs.Kfs.Frames.{Stops}
use mkgo.Fs.Kfs.Durable.{Log}

load_bytes-blank :
    (at n : ℕ) (m : Memory) → ((i : ℕ) → at ≤ i → m i ≡ 0) → load_bytes at n m ≡ make_bytes n
unfolding load_bytes
load_bytes-blank at zero m h = refl
load_bytes-blank at (suc n) m h =
    rw (h at (omega arith), load_bytes-blank (at + 1) n m (λ i p. h i (omega arith))) refl

module _ (e : Platform) (F : IsFaultless e) where
  -- A record of type 0 is not applied.
  zero_refused : (p : List ℕ) (t : Tables) (c : Contents) → apply 0 p t c ≡ refused
  unfolding apply
  zero_refused p t c = refl

  found :
      (q : ℕ) (t : Tables) (c : Contents) (k : Kfs e) (b : Bool) (p : List ℕ)
      → next_record e q k ≡ (if b then some (0, p) else none)
      → Stops e F q t c k
  found q t c k true p h = inr ((0, p), h, zero_refused p t c)
  found q t c k false p h = inl h

  header_ends : (q : ℕ) (k : Kfs e) → ltb k.log_end (q + 9) ≡ true → next_record e q k ≡ none
  unfolding next_record
  header_ends q k h = rw h refl

  module _ (q : ℕ) (k : Kfs e) (room : ltb k.log_end (q + 9) ≡ false)
      (zeros : read_at e q 9 k ≡ some (make_bytes 9)) where
    fits : ltb k.log_end (q + 9 + 0) ≡ false
    fits = ground arith

    zero_record : read_at e (q + 9) 0 k ≡ none → next_record e q k ≡ none
    unfolding next_record read_payload
    zero_record gone = rw (room, zeros) (rw fits (rw gone refl))

    zero_payload :
        (p : List ℕ)
        → read_at e (q + 9) 0 k ≡ some p
        → next_record e q k ≡ (if e.crc32 p == 0 then some (0, p) else none)
    unfolding next_record read_payload
    zero_payload p got = rw (room, zeros) (rw fits (rw got refl))

  -- The scan stops where the rest of the log is blank.
  blank-Stops :
      (q : ℕ) (t : Tables) (c : Contents) (k : Kfs e)
      → OnDevice e F k
      → 512 ≤ q
      → ((i : ℕ) → q ≤ i → F.bytes k.disk i ≡ 0)
      → Stops e F q t c k
  blank-Stops q t c k v h blank = elim (Bool-cases (ltb k.log_end (q + 9))) [
    | inl ends ↦ inl (header_ends q k ends)
    | inr room ↦
        let zeros : read_at e q 9 k ≡ some (make_bytes 9) =
          read_at-eq-load_bytes e F q 9 k v h (omega arith) (ground arith)
          ∙ ap (λ (l : List ℕ). some l) (load_bytes-blank q 9 (F.bytes k.disk) blank) in
        elim (Option-cases (read_at e (q + 9) 0 k)) [
          | inl gone ↦ inl (zero_record q k room zeros gone)
          | inr (p, got) ↦ found q t c k (e.crc32 p == 0) p (zero_payload q k room zeros p got)
        ]
  ]

  pub mount-Log :
      (k : Kfs e) (t : Tables) (c : Contents)
      → Log e F k t c
      → mount e k.disk
        ≡ volume (record (fresh e k.disk (superblock e 512 (e.num_blocks k.disk))) {
          w_off = k.w_off;
          tables = t;
          contents = c;
        })
  mount-Log k t c l =
      let sb = superblock e 512 (e.num_blocks k.disk) in
      let v : OnDevice e F (fresh e k.disk sb) = record {
        blocks = refl;
        log_size = refl;
        cached = length-superblock e F _;
      } in
      let stop = blank-Stops k.w_off t c (fresh e k.disk sb) v (omega (arith, l.cursor)) l.blank in
      mount-frames e F k.disk l.recs t c l.super l.short l.written
        (omega (arith, l.cursor, l.room, l.device.log_size)) l.replays (rw l.cursor at stop)
      ∙ ap (λ (n : ℕ). volume (record (fresh e k.disk sb) { w_off = n; tables = t; contents = c }))
          (sym l.cursor)
