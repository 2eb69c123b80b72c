-- ===== src/Fs/Kfs/After.antt =====
-- What holds of a volume behind an operation that succeeds.
use mkgo.Fs.Platform.{Platform}
use mkgo.Fs.Kfs.Log.{Kfs, Result, ok, err, M, continue, and_then}

module _ (e : Platform) where
  -- An operation that fails leaves an error; one that succeeds leaves a volume with the property.
  abbrev pub After : (Kfs e → Type 0) → Result (Unit {0}) × Kfs e → Type 0
  After P (ok x, k) = P k
  After P (err x, k) = Unit {0}

  continue-After :
      (f : Unit {0} → M e (Unit {0})) (P Q : Kfs e → Type 0) (r : Result (Unit {0}) × Kfs e)
      → After P r
      → ((k : Kfs e) → P k → After Q (f tt k))
      → After Q (continue e r.0 f r.1)
  continue-After f P Q (ok x, k) h step = step k h
  continue-After f P Q (err x, k) h step = tt

  pub After-weaken :
      (P Q : Kfs e → Type 0) (r : Result (Unit {0}) × Kfs e)
      → After P r
      → ((k : Kfs e) → P k → Q k)
      → After Q r
  After-weaken P Q (ok x, k) h w = w k h
  After-weaken P Q (err x, k) h w = tt

  pub and_then-After :
      (m : M e (Unit {0})) (f : Unit {0} → M e (Unit {0})) (P Q : Kfs e → Type 0) (k : Kfs e)
      → After P (m k)
      → ((k' : Kfs e) → P k' → After Q (f tt k'))
      → After Q (and_then e m f k)
  and_then-After m f P Q k h step = continue-After f P Q (m k) h step
