-- ===== src/Jitc/Module/Promise.antt =====
-- A module that `Decode` returns keeps its promises.
use mkgo.Common.{
  ℕ, zero, suc, ◌-◌, ◌≤◌, ◌<◌, ◌≡◌, ◌⊎◌, refl, arith, Bool, true, false, ◌&&◌, not, List, [], ◌∷◌,
  ◌++◌, length, length-append, All, ◌==◌, if◌then◌else◌, Bool-cases, inl, inr,
}
use mkgo.Jitc.Cursor.{
  malformed, bad_magic, bad_version, Result, ok, err, Cursor, Parse, ◌>>=◌, pure, refuse, rest, u8,
  bytes, many,
}
use mkgo.Jitc.Leb.{u32leb, vec_len, name}
use mkgo.Jitc.Code.{FuncBody, decode_func_body, func_body, ends, all_ops, no_rest, decode_locals}
use mkgo.Jitc.Items.{
  FuncType, Export, decode_type, decode_import, decode_func, decode_table, decode_memory,
  decode_global, decode_export, decode_elem, lift, decode_code, body_bytes, decode_data, vector,
}
use mkgo.Jitc.Module.{
  Module, empty_module, section_body, decode_section, sections, all_sections, no_code, module_file,
  decode, same_bytes,
}
use mkgo.Jitc.Module.Valid.{
  Gives, Ensures, continue-Gives, after, vector-Ensures, refuse-Ensures, IsFuncType, IsModule,
  type-Ensures, func-Ensures, export-Ensures,
}

abbrev pub Ends : FuncBody → Type 0
Ends f = ends f.ops ≡ true

body-Ensures : Ensures Ends func_body
unfolding func_body
body-Ensures c = after Ends (vec_len c) _ (λ n d. after Ends (many n decode_locals d) _ (λ ls e.
    after Ends (all_ops e) _ (λ os f.
      continue-Gives (λ _. not (ends os) ≡ false) Ends (refuse (not (ends os)) malformed f) _
        (refuse-Ensures (not (ends os)) malformed f)
        (λ _ fine g. after Ends (no_rest g) _ (λ _ h. ground arith)))))

-- The value of a call with its own cursor.
kept {ℓ κ} :
    {A : Type ℓ} (P : A → Type κ) (r : Result (A × Cursor)) (c : Cursor)
    → Gives P r
    → Gives P (lift (elim r as (λ _. Result A) [ ok (a, d) ↦ ok a | err e ↦ err e ]) c)
kept P (ok (a, d)) c h = h
kept P (err e) c h = tt

code-Ensures : (base : ℕ) → Ensures Ends (decode_code base)
unfolding decode_code decode_func_body
code-Ensures base c = after Ends (u32leb c) _ (λ sz d. after Ends (body_bytes sz d) _ (λ body e.
    continue-Gives Ends Ends (lift (decode_func_body body) e) _
      (kept Ends (func_body (record { left = body; off = 0 })) e
        (body-Ensures (record { left = body; off = 0 })))
      (λ fb h f. h)))

All-append {ℓ κ} : {A : Type ℓ} (P : A → Type κ) (l k : List A) → All P l → All P k → All P (l ++ k)
All-append P [] k h g = g
All-append P (a ∷ l) k (h, hs) g = (h, All-append P l k hs g)

All-below : (m n : ℕ) (l : List ℕ) → m ≤ n → All (λ f. f < m) l → All (λ f. f < n) l
All-below m n [] h g = tt
All-below m n (a ∷ l) h (g, gs) = (omega arith, All-below m n l h gs)

-- A section that appends the items of one vector.
appended {ℓ κ} :
    {A : Type ℓ} (P : A → Type κ) (p : Parse A) (f : List A → Module)
    → Ensures P p
    → ((l : List A) → All P l → IsModule (f l))
    → Ensures IsModule (vector p >>= λ l. pure (f l))
appended P p f h k c =
    continue-Gives (All P) IsModule (vector p c) _ (vector-Ensures P p h c) (λ l hl d. k l hl)

-- A section that leaves what is promised alone.
other {ℓ} :
    {A : Type ℓ} (p : Parse A) (f : A → Module)
    → ((a : A) → IsModule (f a))
    → Ensures IsModule (p >>= λ a. pure (f a))
other p f h c = after IsModule (p c) _ (λ a d. h a)

if-Ensures :
    (b : Bool) (p q : Parse Module)
    → Ensures IsModule p
    → Ensures IsModule q
    → Ensures IsModule (if b then p else q)
if-Ensures true p q h k = h
if-Ensures false p q h k = k

-- What each promised section adds.
module _ (m : Module) (h : IsModule m) where
  more_types : (l : List FuncType) → All IsFuncType l → IsModule (record m { types = m.types ++ l })
  more_types l hl = record {
    valid_types = All-append IsFuncType m.types l h.valid_types hl;
    valid_funcs =
        All-below (length m.types) (length (m.types ++ l)) m.funcs
          (omega (arith, length-append m.types l)) h.valid_funcs;
    valid_exports = h.valid_exports;
    valid_code = h.valid_code;
  }

  more_funcs :
      (l : List ℕ) → All (λ f. f < length m.types) l → IsModule (record m { funcs = m.funcs ++ l })
  more_funcs l hl = record {
    valid_types = h.valid_types;
    valid_funcs = All-append (λ f. f < length m.types) m.funcs l h.valid_funcs hl;
    valid_exports = h.valid_exports;
    valid_code = h.valid_code;
  }

  more_exports :
      (l : List Export)
      → All (λ e. Export.kind e ≤ 3) l
      → IsModule (record m { exports = m.exports ++ l })
  more_exports l hl = record {
    valid_types = h.valid_types;
    valid_funcs = h.valid_funcs;
    valid_exports = All-append (λ e. Export.kind e ≤ 3) m.exports l h.valid_exports hl;
    valid_code = h.valid_code;
  }

  more_code : (l : List FuncBody) → All Ends l → IsModule (record m { code = m.code ++ l })
  more_code l hl = record {
    valid_types = h.valid_types;
    valid_funcs = h.valid_funcs;
    valid_exports = h.valid_exports;
    valid_code = All-append Ends m.code l h.valid_code hl;
  }

section-Ensures :
    (id base : ℕ) (m : Module) → IsModule m → Ensures IsModule (section_body id base m)
unfolding section_body
section-Ensures id base m h =
    if-Ensures (id == 0) _ _ (λ c. after IsModule (name c) _ (λ n d. ground (arith, h)))
      (if-Ensures (id == 1) _ _ (appended IsFuncType decode_type _ type-Ensures (more_types m h)) (
        if-Ensures (id == 2) _ _
          (other (vector decode_import) (λ l. record m { imports = m.imports ++ l })
            (λ l. ground (arith, h)))
          (if-Ensures (id == 3) _ _
            (appended (λ f. f < length m.types) (decode_func (length m.types)) _
              (func-Ensures (length m.types)) (more_funcs m h))
            (if-Ensures (id == 4) _ _
              (other (vector decode_table) (λ l. record m { ntables = m.ntables ++ l })
                (λ l. ground (arith, h)))
              (if-Ensures (id == 5) _ _
                (other (vector decode_memory) (λ l. record m { mems = m.mems ++ l })
                  (λ l. ground (arith, h)))
                (if-Ensures (id == 6) _ _
                  (other (vector decode_global) (λ l. record m { globals = m.globals ++ l })
                    (λ l. ground (arith, h)))
                  (if-Ensures (id == 7) _ _
                    (appended (λ e. Export.kind e ≤ 3) decode_export _ export-Ensures
                      (more_exports m h))
                    (if-Ensures (id == 8) _ _
                      (other u32leb (λ s. record m { start = s; has_st = true })
                        (λ s. ground (arith, h)))
                      (if-Ensures (id == 9) _ _
                        (other (vector decode_elem) (λ l. record m { elems = m.elems ++ l })
                          (λ l. ground (arith, h)))
                        (if-Ensures (id == 10) _ _
                          (appended Ends (decode_code base) _ (code-Ensures base) (more_code m h))
                          (if-Ensures (id == 11) _ _
                            (other (vector decode_data)
                              (λ l. record m { segments = m.segments ++ l })
                              (λ l. ground (arith, h)))
                            (λ c. tt))))))))))))

sections-Ensures : (fuel : ℕ) (m : Module) → IsModule m → Ensures IsModule (sections fuel m)
unfolding sections decode_section
sections-Ensures zero m h c = elim (Bool-cases (rest c == 0)) [
  | inl done ↦ rw done h
  | inr more ↦ rw more tt
]
sections-Ensures (suc fuel) m h c = elim (Bool-cases (rest c == 0)) [
  | inl done ↦ rw done h
  | inr more ↦ rw more (
      after IsModule (u8 c) _ (λ id d. after IsModule (u32leb d) _ (λ sz e.
        after IsModule (bytes sz e) _ (λ payload f.
          let p : Cursor = record { left = payload; off = 0 } in
          continue-Gives IsModule IsModule (lift (decode_section id payload (f.off - sz) m) f) _
            (kept IsModule (section_body id (f.off - sz) m p) f
              (section-Ensures id (f.off - sz) m h p))
            (λ m' h' g. sections-Ensures fuel m' h' g)))))
]

-- The counts of declared and of defined functions agree, or there is no code.
abbrev pub Counted : Module → Type 0
Counted m = (length m.funcs ≡ length m.code) ⊎ (m.code ≡ [])

abbrev pub Promises : Module → Type 0
Promises m = IsModule m × Counted m

counts :
    (m : Module)
    → (not (length m.funcs == length m.code) && not (no_code m.code)) ≡ false
    → Counted m
counts m h = elim (Bool-cases (no_code m.code)) [
  | inl none_left ↦ inr (empty m.code none_left)
  | inr some_left ↦ inl (ground arith)
]
  where
    empty : (l : List FuncBody) → no_code l ≡ true → l ≡ []
    empty [] e = refl
    empty (f ∷ l) e = cc

file-Ensures : Ensures Promises module_file
unfolding module_file
file-Ensures c = after Promises (bytes 4 c) _ (λ magic d.
    after Promises (refuse (not (same_bytes magic (0x00 ∷ 0x61 ∷ 0x73 ∷ 0x6D ∷ []))) bad_magic d) _
      (λ _ e. after Promises (bytes 4 e) _ (λ ver f.
        after Promises
          (refuse (not (same_bytes ver (0x01 ∷ 0x00 ∷ 0x00 ∷ 0x00 ∷ []))) bad_version f) _
          (λ _ g.
            continue-Gives IsModule Promises (all_sections empty_module g) _
              (sections-Ensures (rest g) empty_module
                (record { valid_types = tt; valid_funcs = tt; valid_exports = tt; valid_code = tt })
                g)
              (λ m h k.
                continue-Gives
                  (λ _. (not (length m.funcs == length m.code) && not (no_code m.code)) ≡ false)
                  Promises
                  (refuse (not (length m.funcs == length m.code) && not (no_code m.code)) malformed
                    k)
                  _
                  (refuse-Ensures (not (length m.funcs == length m.code) && not (no_code m.code))
                    malformed k)
                  (λ _ fine n. (h, counts m fine)))))))

given {ℓ κ} :
    {A : Type ℓ} (P : A → Type κ) (r : Result (A × Cursor)) (a : A)
    → Gives P r
    → elim r as (λ _. Result A) [ ok (b, d) ↦ ok b | err e ↦ err e ] ≡ ok a
    → P a
given P (ok (b, d)) a h e = let same : b ≡ a = cc in rw (← same) h
given P (err f) a h e = absurd (cc)

-- In a module that was decoded the parameters and results of every type are value types, every
-- function has one of the types, every export has a known kind, every function body ends with the
-- instruction `end`, and there are as many bodies as declared functions, or none.
pub decode-Promises : (b : List ℕ) (m : Module) → decode b ≡ ok m → IsModule m × Counted m
unfolding decode
decode-Promises b m h =
    let c : Cursor = record { left = b; off = 0 } in
    given Promises (module_file c) m (file-Ensures c) h
