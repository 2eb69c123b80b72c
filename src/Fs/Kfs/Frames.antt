-- ===== src/Fs/Kfs/Frames.antt =====
-- A log as a list of records: what they do one after the other, and how the replay runs over them.
use mkgo.Common.{
  ℕ, zero, suc, ◌+◌, ◌≤◌, ◌<◌, ◌≡◌, ◌⊎◌, inl, inr, refl, sym, ◌∙◌, ap, arith, List, [], ◌∷◌, ◌++◌,
  length, length-append, none, some, All,
}
use mkgo.Fs.Platform.{Platform, IsFaultless}
use mkgo.Fs.Kfs.{Tables, Contents, Applied, applied, refused, panics, apply, max_payload}
use mkgo.Fs.Kfs.Log.{Kfs, frame, read_at, read_payload, next_record, replay_loop}
use mkgo.Fs.Kfs.Append.{length-frame}
use mkgo.Fs.Kfs.Replay.{Written, Written-left, Written-right, OnDevice, next_record-frame}

-- A record of the log, its type and its payload.
abbrev pub Rec : Type 0
Rec = ℕ × List ℕ

-- The replay takes no payload that is longer, and no operation writes an empty one.
abbrev pub IsShort : Rec → Type 0
IsShort (typ, payload) = (0 < length payload) × (length payload ≤ max_payload)

-- What a list of records does.
abbrev pub follow : Applied → (Tables → Contents → Applied) → Applied
follow (applied t c) f = f t c
follow refused f = refused
follow panics f = panics

unfoldable pub apply_all : List Rec → Tables → Contents → Applied
apply_all [] t c = applied t c
apply_all ((typ, payload) ∷ rs) t c = follow (apply typ payload t c) (apply_all rs)

follow-eq-applied :
    (a : Applied) (f : Tables → Contents → Applied) {t : Tables} {c : Contents}
    → follow a f ≡ applied t c
    → (t' : Tables) × (c' : Contents) × (a ≡ applied t' c') × (f t' c' ≡ applied t c)
follow-eq-applied (applied t' c') f h = (t', c', refl, h)
follow-eq-applied refused f h = absurd (cc)
follow-eq-applied panics f h = absurd (cc)

follow_twice :
    (a : Applied) (f g h : Tables → Contents → Applied)
    → ((t : Tables) (c : Contents) → h t c ≡ follow (f t c) g)
    → follow a h ≡ follow (follow a f) g
follow_twice (applied t c) f g h same_step = same_step t c
follow_twice refused f g h same_step = refl
follow_twice panics f g h same_step = refl

pub apply_all-append :
    (rs ss : List Rec) (t : Tables) (c : Contents)
    → apply_all (rs ++ ss) t c ≡ follow (apply_all rs t c) (apply_all ss)
unfolding apply_all
apply_all-append [] ss t c = refl
apply_all-append ((typ, p) ∷ rs) ss t c =
    follow_twice (apply typ p t c) (apply_all rs) (apply_all ss) (apply_all (rs ++ ss))
      (apply_all-append rs ss)

module _ (e : Platform) (F : IsFaultless e) where
  -- The bytes of the log that holds the records.
  unfoldable pub frames : List Rec → List ℕ
  frames [] = []
  frames ((typ, payload) ∷ rs) = frame e typ payload ++ frames rs

  -- At the place the scan ends: no record can be read there, or it is one of no known type.
  abbrev pub Stops : ℕ → Tables → Contents → Kfs e → Type 0
  Stops q t c k =
      (next_record e q k ≡ none)
      ⊎ ((r : Rec) × (next_record e q k ≡ some r) × (apply r.0 r.1 t c ≡ refused))

  pub next_record-tables :
      (pos : ℕ) (k : Kfs e) (t : Tables) (c : Contents)
      → next_record e pos (record k { tables = t; contents = c }) ≡ next_record e pos k
  unfolding next_record read_payload read_at
  next_record-tables pos k t c = refl

  pub loop_applied :
      (fuel pos : ℕ) (k : Kfs e) (typ : ℕ) (p : List ℕ) (t : Tables) (c : Contents)
      → next_record e pos k ≡ some (typ, p)
      → apply typ p k.tables k.contents ≡ applied t c
      → replay_loop e (suc fuel) pos k
        ≡ replay_loop e fuel (pos + (9 + length p)) (record k { tables = t; contents = c })
  unfolding replay_loop
  loop_applied fuel pos k typ p t c h a = rw (h, replay_loop) (rw (a, replay_loop) refl)

  pub loop_ends :
      (fuel pos : ℕ) (k : Kfs e)
      → Stops pos k.tables k.contents k
      → replay_loop e (suc fuel) pos k ≡ some (record k { w_off = pos })
  unfolding replay_loop
  loop_ends fuel pos k (inl h) = rw (h, replay_loop) refl
  loop_ends fuel pos k (inr (r, h, a)) = rw (h, replay_loop) (rw (a, replay_loop) refl)

  pub loop_panics :
      (fuel pos : ℕ) (k : Kfs e) (r : Rec)
      → next_record e pos k ≡ some r
      → apply r.0 r.1 k.tables k.contents ≡ panics
      → replay_loop e (suc fuel) pos k ≡ none
  unfolding replay_loop
  loop_panics fuel pos k r h a = rw (h, replay_loop) (rw (a, replay_loop) refl)

  -- The scan passes over the records, and applies them.
  pub replay_loop-frames :
      (fuel pos : ℕ) (rs : List Rec) (k : Kfs e) (t : Tables) (c : Contents)
      → length rs < fuel
      → OnDevice e F k
      → 512 ≤ pos
      → All IsShort rs
      → Written pos (frames rs) (F.bytes k.disk)
      → pos + length (frames rs) ≤ k.log_end
      → apply_all rs k.tables k.contents ≡ applied t c
      → (f : ℕ) × (replay_loop e fuel pos k
          ≡ replay_loop e
              (suc f)
              (pos + length (frames rs))
              (record k { tables = t; contents = c }))
  unfolding apply_all frames
  replay_loop-frames zero pos rs k t c enough v h short w room done = absurd (omega arith)
  replay_loop-frames (suc fuel) pos [] k t c enough v h short w room done =
      let at : pos + 0 ≡ pos = omega arith in
      let et : k.tables ≡ t = cc in let ec : k.contents ≡ c = cc in (fuel, rw (at, ← et, ← ec) refl)
  replay_loop-frames (suc fuel) pos ((typ, p) ∷ rs) k t c enough v h short w room done =
      let (t', c', now, later) = follow-eq-applied (apply typ p k.tables k.contents) _ done in
      let fr = frame e typ p in
      let len = length-append fr (frames rs) in
      let m = F.bytes k.disk in
      let k' = record k { tables = t'; contents = c' } in
      let next =
        next_record-frame e F pos typ p k v h short.0.0 short.0.1 (omega arith)
          (Written-left pos fr (frames rs) m w) in
      let at : pos + (9 + length p) ≡ pos + length fr =
        ap (λ (n : ℕ). pos + n) (sym (length-frame e F typ p)) in
      let end : pos + length fr + length (frames rs) ≡ pos + length (fr ++ frames rs) =
        omega arith in
      let v' : OnDevice e F k' = record {
        blocks = v.blocks;
        log_size = v.log_size;
        cached = v.cached;
      } in
      let (f, rest) =
        replay_loop-frames fuel (pos + length fr) rs k' t c (omega arith) v' (omega arith) short.1
          (Written-right pos fr (frames rs) m w) (omega arith) later in
      (f, loop_applied fuel pos k typ p t' c' next now ∙ rw at (rw end at rest))
