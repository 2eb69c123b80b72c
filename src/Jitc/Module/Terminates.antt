-- ===== src/Jitc/Module/Terminates.antt =====
-- `Decode` ends on every input: each round of its loops reads a byte at least.
use mkgo.Common.{
  ℕ, zero, suc, ◌+◌, ◌-◌, ◌≤◌, ◌≡◌, ◌≢◌, refl, arith, true, false, ◌&&◌, not, List, [], ◌∷◌, ◌++◌,
  length, ◌==◌, ◌%◌, Bool-cases, inl, inr,
}
use mkgo.Jitc.Cursor.{
  Error, bad_magic, bad_version, bad_section, body_size, out_of_fuel, Result, ok, err, Cursor,
  Parse, ◌>>=◌, pure, refuse, rest, bytes, Reader, Outcome, starved, >>=-Reader, pure-Reader,
  refuse-Reader, fail-Reader, if-Reader, bytes-Reader, Reads-refl, weaken, continue-Outcome,
  u8-next,
}
use mkgo.Jitc.Leb.{u32leb, name}
use mkgo.Jitc.Leb.Unsigned.{u32leb-Reader, name-Reader}
use mkgo.Jitc.Code.{decode_func_body}
use mkgo.Jitc.Code.Reads.{reads_then, func_body_fuel, drop_cursor}
use mkgo.Jitc.Items.{
  decode_type, decode_import, decode_func, decode_table, decode_memory, decode_global,
  decode_export, decode_elem, body_bytes, lift, decode_code, decode_data, vector,
}
use mkgo.Jitc.Module.{
  Module, empty_module, same_bytes, remaining, section_body, decode_section, sections, all_sections,
  no_code, module_file, decode,
}
use mkgo.Jitc.Module.Total.{
  checked, vector-Reader, type-Reader, import-Reader, func-Reader, table-Reader, memory-Reader,
  global-Reader, export-Reader, elem-Reader, data-Reader,
}

body_bytes-Outcome :
    (c : Cursor) (r : Result (List ℕ × Cursor))
    → Outcome c r
    → Outcome c (elim r as (λ _. Result (List ℕ × Cursor)) [ ok s ↦ ok s | err e ↦ err body_size ])
body_bytes-Outcome c (ok (l, d)) h = h
body_bytes-Outcome c (err e) h = refl

body_bytes-Reader : (n : ℕ) → Reader (body_bytes n)
unfolding body_bytes
body_bytes-Reader n c = body_bytes-Outcome c (bytes n c) (bytes-Reader n c)

lift-Outcome {ℓ} :
    {A : Type ℓ} (r : Result A) (c : Cursor)
    → ((e : Error) → r ≡ err e → starved e ≡ false)
    → Outcome c (lift r c)
lift-Outcome (ok a) c h = Reads-refl c
lift-Outcome (err e) c h = h e refl

code-Reader : (base : ℕ) → Reader (decode_code base)
unfolding decode_code
code-Reader base c =
    (>>=-Reader u32leb _ u32leb-Reader (λ sz.
        >>=-Reader (body_bytes sz) _ (body_bytes-Reader sz) (λ body.
          >>=-Reader (lift (decode_func_body body)) _
            (λ d. lift-Outcome (decode_func_body body) d (func_body_fuel body))
            (λ fb. pure-Reader (record fb { wasm_off = (base + c.off) % 4294967296 })))))
      c

-- A section that is one vector.
append {ℓ} :
    {A : Type ℓ} (p : Parse A) (f : List A → Module)
    → Reader p
    → Reader (vector p >>= λ l. pure (f l))
append p f h = reads_then (vector p) f (vector-Reader p h)

section-Reader : (id base : ℕ) (m : Module) → Reader (section_body id base m)
unfolding section_body
section-Reader id base m =
    if-Reader (id == 0) _ _
      (>>=-Reader name _ name-Reader (λ n.
        reads_then remaining
          (λ l. record m { custom = m.custom ++ (record { item = n; contents = l }) ∷ [] })
          Reads-refl))
      (if-Reader (id == 1) _ _
        (append decode_type (λ l. record m { types = m.types ++ l }) type-Reader)
        (if-Reader (id == 2) _ _
          (append decode_import (λ l. record m { imports = m.imports ++ l }) import-Reader)
          (if-Reader (id == 3) _ _
            (append (decode_func (length m.types)) (λ l. record m { funcs = m.funcs ++ l })
              (func-Reader (length m.types)))
            (if-Reader (id == 4) _ _
              (append decode_table (λ l. record m { ntables = m.ntables ++ l }) table-Reader)
              (if-Reader (id == 5) _ _
                (append decode_memory (λ l. record m { mems = m.mems ++ l }) memory-Reader)
                (if-Reader (id == 6) _ _
                  (append decode_global (λ l. record m { globals = m.globals ++ l }) global-Reader)
                  (if-Reader (id == 7) _ _
                    (append decode_export (λ l. record m { exports = m.exports ++ l })
                      export-Reader)
                    (if-Reader (id == 8) _ _
                      (reads_then u32leb (λ s. record m { start = s; has_st = true }) u32leb-Reader)
                      (if-Reader (id == 9) _ _
                        (append decode_elem (λ l. record m { elems = m.elems ++ l }) elem-Reader)
                        (if-Reader (id == 10) _ _
                          (append (decode_code base) (λ l. record m { code = m.code ++ l })
                            (code-Reader base))
                          (if-Reader (id == 11) _ _
                            (append decode_data (λ l. record m { segments = m.segments ++ l })
                              data-Reader)
                            (fail-Reader Module bad_section refl))))))))))))

section_fuel :
    (id : ℕ) (p : List ℕ) (base : ℕ) (m : Module) (e : Error)
    → decode_section id p base m ≡ err e
    → starved e ≡ false
unfolding decode_section
section_fuel id p base m e h =
    let c : Cursor = record { left = p; off = 0 } in
    drop_cursor c (section_body id base m c) e (section-Reader id base m c) h

sections-Outcome :
    (fuel : ℕ) (m : Module) (c : Cursor) → rest c ≤ fuel → Outcome c (sections fuel m c)
unfolding sections
sections-Outcome zero m c h = let done : rest c == 0 ≡ true = ground arith in rw done (Reads-refl c)
sections-Outcome (suc fuel) m c h = elim (Bool-cases (rest c == 0)) [
  | inl done ↦ rw done (Reads-refl c)
  | inr more ↦
      let (id, d, e, len, r) = u8-next c (ground arith) in
      rw (more, e)
        (weaken c d _ r (
          continue-Outcome d (u32leb d) _ (u32leb-Reader d) (λ sz f s.
            continue-Outcome f (bytes sz f) _ (bytes-Reader sz f) (λ payload g t.
              continue-Outcome g (lift (decode_section id payload (g.off - sz) m) g) _
                (lift-Outcome (decode_section id payload (g.off - sz) m) g
                  (section_fuel id payload (g.off - sz) m))
                (λ m' k u.
                  sections-Outcome fuel m' k (omega (arith, s.shrinks, t.shrinks, u.shrinks)))))))
]

file-Reader : Reader module_file
unfolding module_file
file-Reader = >>=-Reader (bytes 4) _ (bytes-Reader 4) (λ magic.
    >>=-Reader (refuse (not (same_bytes magic (0x00 ∷ 0x61 ∷ 0x73 ∷ 0x6D ∷ []))) bad_magic) _
      (refuse-Reader (not (same_bytes magic (0x00 ∷ 0x61 ∷ 0x73 ∷ 0x6D ∷ []))) bad_magic refl)
      (λ _. >>=-Reader (bytes 4) _ (bytes-Reader 4) (λ ver.
        >>=-Reader (refuse (not (same_bytes ver (0x01 ∷ 0x00 ∷ 0x00 ∷ 0x00 ∷ []))) bad_version) _
          (refuse-Reader (not (same_bytes ver (0x01 ∷ 0x00 ∷ 0x00 ∷ 0x00 ∷ []))) bad_version refl)
          (λ _.
            >>=-Reader (all_sections empty_module) _
              (λ c. sections-Outcome (rest c) empty_module c (omega arith))
              (λ m.
                checked (not (length m.funcs == length m.code) && not (no_code m.code)) (pure m)
                  (pure-Reader m))))))

-- Decoding ends on every input, with a module or with one of the errors of the source: as many
-- rounds of the loops over sections and instructions as there are bytes left are never used up.
pub decode-terminates : (b : List ℕ) → decode b ≢ err out_of_fuel
unfolding decode
decode-terminates b h =
    let c : Cursor = record { left = b; off = 0 } in
    cc (drop_cursor c (module_file c) out_of_fuel (file-Reader c) h)
