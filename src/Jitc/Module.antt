-- ===== src/Jitc/Module.antt =====
-- services/jitc/decode.go: the sections of a module and the module.
pub mod Total
pub mod Terminates
pub mod Valid
pub mod Promise
use mkgo.Common.{
  ℕ, zero, suc, ◌+◌, ◌-◌, ◌*◌, ◌%◌, Bool, true, false, ◌&&◌, ◌||◌, not, List, [], ◌∷◌, ◌++◌, length,
  ltb, leb, ◌==◌, if◌then◌else◌, Option, none, some,
}
use mkgo.Jitc.Cursor.{
  Error, truncated, bad_magic, bad_version, bad_section, body_size, malformed, out_of_fuel, Result,
  ok, err, Cursor, Parse, ◌>>=◌, ◌>>◌, pure, fail, refuse, rest, u8, bytes, many, continue,
}
use mkgo.Jitc.Leb.{u32leb, s32leb, s64leb, name, vec_len}
use mkgo.Jitc.Code.{valid_val_type, FuncBody, decode_func_body}
use mkgo.Kern.Frame.{get32, get64}
use mkgo.Jitc.Items.{
  FuncType, Import, Export, Memory, ElemSeg, DataSegRaw, Global, CustomSec, val_type, decode_type,
  skip_limits, import_desc, decode_import, decode_func, decode_table, decode_memory, widen,
  init_expr, expr_end, decode_global, decode_export, offset_expr, decode_elem, body_bytes, lift,
  decode_code, decode_data, vector,
}

pub record Module : Type 0 where
  pub types : List FuncType
  pub imports : List Import
  pub funcs : List ℕ
  pub mems : List Memory
  pub globals : List Global
  pub ntables : List ℕ
  pub elems : List ElemSeg
  pub segments : List DataSegRaw
  pub exports : List Export
  pub start : ℕ
  pub has_st : Bool
  pub code : List FuncBody
  pub custom : List CustomSec

abbrev pub empty_module : Module
empty_module = record {
  types = [];
  imports = [];
  funcs = [];
  mems = [];
  globals = [];
  ntables = [];
  elems = [];
  segments = [];
  exports = [];
  start = 0;
  has_st = false;
  code = [];
  custom = [];
}

-- The texts of two names agree.
abbrev pub same_bytes : List ℕ → List ℕ → Bool
same_bytes [] [] = true
same_bytes (a ∷ s) (b ∷ t) = a == b && same_bytes s t
same_bytes _ _ = false

abbrev pub abi_ver : List ℕ
abi_ver = b'a' ∷ b'b' ∷ b'i' ∷ b'_' ∷ b'v' ∷ b'e' ∷ b'r' ∷ []

-- `HasABIVer`, a loop over the custom sections.
abbrev pub version_of : CustomSec → Option ℕ
version_of s = elim s.contents [
  | [] ↦ none
  | v ∷ rest ↦ if same_bytes s.item abi_ver then some v else none
]

unfoldable pub has_abi_ver : List CustomSec → Option ℕ
has_abi_ver [] = none
has_abi_ver (s ∷ secs) =
    let later = has_abi_ver secs in elim (version_of s) [ some v ↦ some v | none ↦ later ]

-- `ImportFuncCount`.
unfoldable pub import_func_count : List Import → ℕ
import_func_count [] = 0
import_func_count (i ∷ is) = (if i.kind == 0 then 1 else 0) + import_func_count is

abbrev pub remaining : Parse (List ℕ)
remaining c = ok (c.left, c)

-- `decodeSection` on its own cursor.
unfoldable pub section_body : ℕ → ℕ → Module → Parse Module
unfolding name vector decode_type decode_import decode_func decode_table decode_memory decode_global
    decode_export u32leb decode_elem decode_code decode_data
section_body id base m =
    if id == 0
    then (do
      n ← name
      l ← remaining
      pure (record m { custom = m.custom ++ (record { item = n; contents = l }) ∷ [] }))
    else if id == 1
    then (do l ← vector decode_type; pure (record m { types = m.types ++ l }))
    else if id == 2
    then (do l ← vector decode_import; pure (record m { imports = m.imports ++ l }))
    else if id == 3
    then (do l ← vector (decode_func (length m.types)); pure (record m { funcs = m.funcs ++ l }))
    else if id == 4
    then (do l ← vector decode_table; pure (record m { ntables = m.ntables ++ l }))
    else if id == 5
    then (do l ← vector decode_memory; pure (record m { mems = m.mems ++ l }))
    else if id == 6
    then (do l ← vector decode_global; pure (record m { globals = m.globals ++ l }))
    else if id == 7
    then (do l ← vector decode_export; pure (record m { exports = m.exports ++ l }))
    else if id == 8
    then (do s ← u32leb; pure (record m { start = s; has_st = true }))
    else if id == 9
    then (do l ← vector decode_elem; pure (record m { elems = m.elems ++ l }))
    else if id == 10
    then (do l ← vector (decode_code base); pure (record m { code = m.code ++ l }))
    else if id == 11
    then (do l ← vector decode_data; pure (record m { segments = m.segments ++ l }))
    else fail bad_section

unfoldable pub decode_section : ℕ → List ℕ → ℕ → Module → Result Module
unfolding section_body
decode_section id p base m = elim (section_body id base m (record { left = p; off = 0 })) [
  | ok (m', c) ↦ ok m'
  | err e ↦ err e
]

-- The loop over the sections: each takes a byte at least.
unfoldable pub sections : ℕ → Module → Parse Module
unfolding u8 u32leb bytes decode_section
sections zero m c = if rest c == 0 then ok (m, c) else err out_of_fuel
sections (suc fuel) m c =
    if rest c == 0
    then ok (m, c)
    else (do
      id ← u8
      sz ← u32leb
      payload ← bytes sz
      m' ← (λ d. lift (decode_section id payload (d.off - sz) m) d)
      sections fuel m')
        c

abbrev pub all_sections : Module → Parse Module
all_sections m c = sections (rest c) m c

abbrev pub no_code : List FuncBody → Bool
no_code [] = true
no_code (f ∷ fs) = false

-- The body of `Decode`.
unfoldable pub module_file : Parse Module
unfolding bytes sections
module_file = do
  magic ← bytes 4
  refuse (not (same_bytes magic (0x00 ∷ 0x61 ∷ 0x73 ∷ 0x6D ∷ []))) bad_magic
  ver ← bytes 4
  refuse (not (same_bytes ver (0x01 ∷ 0x00 ∷ 0x00 ∷ 0x00 ∷ []))) bad_version
  m ← all_sections empty_module
  refuse (not (length m.funcs == length m.code) && not (no_code m.code)) malformed
  pure m

-- `Decode`; nothing in it panics, so that `recover` is not reached.
unfoldable pub decode : List ℕ → Result Module
unfolding module_file
decode b = elim (module_file (record { left = b; off = 0 })) [ ok (m, c) ↦ ok m | err e ↦ err e ]
