-- ===== src/Fs/Kfs/Append.antt =====
-- `append` on a device without faults: on either path the record becomes one run of bytes.
use mkgo.Common.{
  ℕ, zero, suc, ◌+◌, ◌-◌, ◌*◌, ◌/◌, ◌%◌, ◌≤◌, ◌<◌, ◌≡◌, inl, inr, refl, sym, ◌∙◌, ap, arith, Bool,
  true, false, ◌&&◌, List, [], ◌∷◌, ◌++◌, length, take, drop, length-take, length-drop,
  take-append-drop, ltb, ◌==◌, some, min, Bool-cases,
}
use mkgo.Common.Bytes.{copy_at}
use mkgo.Net.Ring.{Memory, load_bytes, store_bytes}
use mkgo.Fs.Platform.{Platform, IsFaultless}
use mkgo.Fs.Kfs.{hdr_len}
use mkgo.Fs.Kfs.Log.{Kfs, Result, ok, frame, written, rmw, put_raw, advance, write_record}
use mkgo.Fs.Kfs.Memory.{length-load_bytes, length-copy_at, store_bytes-append, store_bytes-copy_at}

nothing_stored : (at : ℕ) (m : Memory) → m ≡ store_bytes at [] m
unfolding store_bytes
nothing_stored at m = refl

module _ (e : Platform) (F : IsFaultless e) where
  -- The write succeeded, and left the bytes at the offset.
  pub record Stored (at : ℕ) (b : List ℕ) (d d' : e.Disk) : Type 0 where
    pub same_blocks : e.num_blocks d' ≡ e.num_blocks d
    pub same_size : e.block_size d' ≡ e.block_size d
    pub stored : F.bytes d' ≡ store_bytes at b (F.bytes d)

  written_ok : (w : Bool × e.Disk) → w.0 ≡ true → written e w ≡ (ok tt, w.1)
  written_ok (true, d) h = refl
  written_ok (false, d) h = absurd (cc)

  -- A step of the device that succeeded, and left the bytes at the offset.
  abbrev pub Puts : ℕ → List ℕ → e.Disk → Result (Unit {0}) × e.Disk → Type 0
  Puts at b d r = (r ≡ (ok tt, r.1)) × Stored at b d r.1

  -- Whole sectors, written at once.
  pub written-Puts :
      (lba m : ℕ) (b : List ℕ) (d : e.Disk)
      → length b ≡ m * 512
      → lba + m ≤ e.num_blocks d
      → Puts (lba * 512) b d (written e (e.write lba b d))
  written-Puts lba m b d h k =
      let (good, blocks, size, bytes) = F.write_within d lba m b h k in
      let w = written_ok (e.write lba b d) good in
      rw w (refl, record { same_blocks = blocks; same_size = size; stored = bytes })

  -- Two writes, one behind the other.
  Stored-append :
      {at next : ℕ} {b c whole : List ℕ} {d d' d'' : e.Disk}
      → at + length b ≡ next
      → b ++ c ≡ whole
      → Stored at b d d'
      → Stored next c d' d''
      → Stored at whole d d''
  Stored-append {at} {next} {b} {c} {whole} {d} {d'} p q s t = record {
    same_blocks = t.same_blocks ∙ s.same_blocks;
    same_size = t.same_size ∙ s.same_size;
    stored =
        t.stored
        ∙ ap (λ (a : ℕ). store_bytes a c (F.bytes d')) (sym p)
        ∙ ap (store_bytes (at + length b) c) s.stored
        ∙ store_bytes-append at b c (F.bytes d)
        ∙ ap (λ (l : List ℕ). store_bytes at l (F.bytes d)) q;
  }

  -- A change inside of one sector.
  abbrev change : ℕ → List ℕ → List ℕ → e.Disk → Result (Unit {0}) × e.Disk
  change si c sec d = written e (e.write (si / 512) (copy_at (si % 512) c sec) d)

  abbrev sector : ℕ → e.Disk → List ℕ
  sector si d = load_bytes (si / 512 * 512) 512 (F.bytes d)

  change-Puts :
      (si : ℕ) (c : List ℕ) (d : e.Disk)
      → si / 512 < e.num_blocks d
      → si % 512 + length c ≤ 512
      → Puts si c d (change si c (sector si d) d)
  change-Puts si c d h k =
      let sec = copy_at (si % 512) c (sector si d) in
      let len : length sec ≡ 1 * 512 =
        length-copy_at (si % 512) c _ ∙ length-load_bytes (si / 512 * 512) 512 (F.bytes d) in
      let (good, s) = written-Puts (si / 512) 1 sec d len (omega arith) in
      let e' : si / 512 * 512 + si % 512 ≡ si = omega arith in
      (
        good,
        record {
          same_blocks = s.same_blocks;
          same_size = s.same_size;
          stored =
              s.stored
              ∙ store_bytes-copy_at (si / 512 * 512) (si % 512) 512 c (F.bytes d) k
              ∙ ap (λ (a : ℕ). store_bytes a c (F.bytes d)) e';
        },
      )

  rmw_nil : (fuel si : ℕ) (d : e.Disk) → rmw e fuel si [] d ≡ (ok tt, d)
  unfolding rmw
  rmw_nil fuel si d = refl

  -- The bytes that a round takes.
  abbrev span : ℕ → List ℕ → ℕ
  span si b = min (512 - si % 512) (length b)

  -- A round that reads and writes.
  rmw_step :
      (fuel si x : ℕ) (b : List ℕ) (d : e.Disk) (sec : List ℕ) (d' : e.Disk)
      → e.read (si / 512) d ≡ some sec
      → change si (take (span si (x ∷ b)) (x ∷ b)) sec d ≡ (ok tt, d')
      → rmw e (suc fuel) si (x ∷ b) d
        ≡ rmw e fuel (si + span si (x ∷ b)) (drop (span si (x ∷ b)) (x ∷ b)) d'
  unfolding rmw
  rmw_step fuel si x b d sec d' h good =
      rw (h, rmw)
        (rw (good, rmw)
          (ap
            (λ (w : Result (Unit {0}) × e.Disk).
              rmw e fuel (si + span si (x ∷ b)) (drop (span si (x ∷ b)) (x ∷ b)) w.1)
            good))

  rmw-Puts :
      (fuel si : ℕ) (b : List ℕ) (d : e.Disk)
      → length b ≤ fuel
      → si + length b ≤ e.num_blocks d * 512
      → Puts si b d (rmw e fuel si b d)
  rmw-Puts fuel si [] d h k =
      rw (rmw_nil fuel si d)
        (refl, record { same_blocks = refl; same_size = refl; stored = nothing_stored si _ })
  rmw-Puts zero si (x ∷ b) d h k = absurd (omega arith)
  rmw-Puts (suc fuel) si (x ∷ b) d h k =
      let n = span si (x ∷ b) in
      let c = take n (x ∷ b) in
      let rest = drop n (x ∷ b) in
      let lc : length c ≡ n = length-take n (x ∷ b) ∙ omega arith in
      let lr : length rest ≡ length (x ∷ b) - n = length-drop n (x ∷ b) in
      let (good, s) = change-Puts si c d (omega arith) (omega arith) in
      let d' = (change si c (sector si d) d).1 in
      let (more, t) = rmw-Puts fuel (si + n) rest d' (omega arith) (omega (arith, s.same_blocks)) in
      let step = rmw_step fuel si x b d _ d' (F.read_within d (si / 512) (omega arith)) good in
      rw step (more, Stored-append (ap (λ (l : ℕ). si + l) lc) (take-append-drop n (x ∷ b)) s t)

  put_raw-Puts :
      (start : ℕ) (raw : List ℕ) (d : e.Disk)
      → start + length raw ≤ e.num_blocks d * 512
      → Puts start raw d (put_raw e start raw d)
  unfolding put_raw
  put_raw-Puts start raw d h = elim (Bool-cases (start % 512 == 0 && length raw % 512 == 0)) [
    | inl fast ↦
        let at : start / 512 * 512 ≡ start = ground arith in
        let p = written-Puts (start / 512) (length raw / 512) raw d (ground arith) (ground arith) in
        rw fast (p.0, rw at at p.1)
    | inr slow ↦ rw slow (rmw-Puts (length raw) start raw d (omega arith) h)
  ]

  -- The volume behind a record that was appended.
  pub record Logged (typ : ℕ) (payload : List ℕ) (k k' : Kfs e) : Type 0 where
    pub on_disk : Stored k.w_off (frame e typ payload) k.disk k'.disk
    pub cursor : k'.w_off ≡ k.w_off + length (frame e typ payload)
    pub rest : k' ≡ record k { disk = k'.disk; w_off = k'.w_off }

  pub length-frame :
      (typ : ℕ) (payload : List ℕ) → length (frame e typ payload) ≡ hdr_len + length payload
  unfolding frame
  length-frame typ payload = omega arith

  -- On a device without faults and with room in the log, a record is written on either path of
  -- `append`: sector by sector, each read, changed and written back, or in one piece. The disk then
  -- differs from what it was in one run of bytes at the old cursor, the framed record, and the
  -- cursor stands behind it.
  pub write_record-Logged :
      (typ : ℕ) (payload : List ℕ) (k : Kfs e)
      → k.log_end ≡ e.num_blocks k.disk * 512
      → k.w_off + hdr_len + length payload ≤ k.log_end
      → (k' : Kfs e) × (write_record e typ payload k ≡ (ok tt, k')) × Logged typ payload k k'
  unfolding write_record
  write_record-Logged typ payload k h room =
      let len = length-frame typ payload in
      let (good, s) = put_raw-Puts k.w_off (frame e typ payload) k.disk (omega arith) in
      let d' = (put_raw e k.w_off (frame e typ payload) k.disk).1 in
      let fits : ltb k.log_end (k.w_off + (hdr_len + length payload)) ≡ false = ground arith in
      (
        record k { disk = d'; w_off = k.w_off + (hdr_len + length payload) },
        rw fits (
            ap (λ (w : Result (Unit {0}) × e.Disk). advance e (hdr_len + length payload) w k) good),
        record { on_disk = s; cursor = ap (λ (n : ℕ). k.w_off + n) (sym len); rest = refl },
      )
