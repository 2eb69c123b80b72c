-- ===== src/Jitc/Code.antt =====
-- services/jitc/ir.go: the instructions and function bodies of a module. Signed and floating
-- constants are their bit patterns.
pub mod Reads
use mkgo.Common.{
  ℕ, zero, suc, ◌+◌, ◌-◌, ◌*◌, Bool, true, false, ◌&&◌, ◌||◌, not, List, [], ◌∷◌, ◌++◌, length,
  replicate, ltb, leb, ◌==◌, if◌then◌else◌,
}
use mkgo.Jitc.Cursor.{
  Error, truncated, unsupported, malformed, out_of_fuel, Result, ok, err, Cursor, Parse, ◌>>=◌,
  ◌>>◌, pure, fail, refuse, rest, u8, bytes, many, continue,
}
use mkgo.Jitc.Leb.{u32leb, s32leb, s64leb, vec_len}
use mkgo.Kern.Frame.{get32, get64}

-- `validValType`.
unfoldable pub valid_val_type : ℕ → Bool
valid_val_type v = v == 0x7F || v == 0x7E || v == 0x7D || v == 0x7C

pub record BlockType : Type 0 where
  pub empty : Bool
  pub value : ℕ

pub record MemArg : Type 0 where
  pub align : ℕ
  pub offset : ℕ

pub record Op : Type 0 where
  pub code : ℕ
  pub block : BlockType
  pub label : ℕ
  pub table : List ℕ
  pub sub : ℕ
  pub func : ℕ
  pub table_idx : ℕ
  pub typ : ℕ
  pub local : ℕ
  pub mem : MemArg
  pub i32 : ℕ
  pub i64 : ℕ
  pub f32 : ℕ
  pub f64 : ℕ

-- `var o Op; o.Code = op`.
abbrev pub new_op : ℕ → Op
new_op op = record {
  code = op;
  block = record { empty = false; value = 0 };
  label = 0;
  table = [];
  sub = 0;
  func = 0;
  table_idx = 0;
  typ = 0;
  local = 0;
  mem = record { align = 0; offset = 0 };
  i32 = 0;
  i64 = 0;
  f32 = 0;
  f64 = 0;
}

pub record FuncBody : Type 0 where
  pub locals : List ℕ
  pub ops : List Op
  pub wasm_off : ℕ

-- `LocalCount`.
unfoldable pub local_count : ℕ → FuncBody → ℕ
local_count nparams f = nparams + length f.locals

unfoldable pub decode_block_type : Parse BlockType
unfolding u8 valid_val_type
decode_block_type = do
  b ← u8
  if b == 0x40
      then pure (record { empty = true; value = 0 })
      else refuse (not (valid_val_type b)) unsupported >> pure (record { empty = false; value = b })

unfoldable pub decode_mem_arg : Parse MemArg
unfolding u32leb
decode_mem_arg = do
  align ← u32leb
  offset ← u32leb
  pure (record { align = align; offset = offset })

-- A reserved byte, which must be zero.
unfoldable pub reserved : Parse (Unit {0})
unfolding u8
reserved = do r ← u8; refuse (not (r == 0)) malformed

-- The operands behind the prefix 0xFC.
unfoldable pub decode_sub : Op → Parse Op
unfolding u32leb reserved
decode_sub o = do
  sub ← u32leb
  if leb sub 7
      then pure (record o { sub = sub })
      else if sub == 10
      then reserved >> reserved >> pure (record o { sub = sub })
      else if sub == 11
      then reserved >> pure (record o { sub = sub })
      else fail unsupported

-- The opcodes without an immediate: control, sign extension, and the arithmetic from 0x45 to 0xBD.
abbrev pub between : ℕ → ℕ → ℕ → Bool
between lo hi n = leb lo n && leb n hi

unfoldable pub is_plain : ℕ → Bool
is_plain op =
    op == 0x00
    || op == 0x01
    || op == 0x05
    || op == 0x0B
    || op == 0x0F
    || op == 0x1A
    || op == 0x1B
    || between 0xC0 0xC4 op
    || between 0x45 0xBD op

-- The switch on the opcode: the immediates of the instruction.
unfoldable pub decode_imm : Op → Parse Op
unfolding is_plain decode_block_type decode_mem_arg decode_sub reserved u32leb vec_len s32leb s64leb
    bytes many
decode_imm o =
    let op = o.code in
    if is_plain op
    then pure o
    else if between 0x02 0x04 op
    then (do bt ← decode_block_type; pure (record o { block = bt }))
    else if op == 0x0C || op == 0x0D
    then (do l ← u32leb; pure (record o { label = l }))
    else if op == 0x0E
    then (do n ← vec_len; ls ← many n u32leb; d ← u32leb; pure (record o { table = ls ++ d ∷ [] }))
    else if op == 0xFC
    then decode_sub o
    else if op == 0x10
    then (do f ← u32leb; pure (record o { func = f }))
    else if op == 0x11
    then (do ti ← u32leb; ty ← u32leb; pure (record o { table_idx = ti; typ = ty }))
    else if between 0x20 0x24 op
    then (do l ← u32leb; pure (record o { local = l }))
    else if between 0x28 0x3E op
    then (do m ← decode_mem_arg; pure (record o { mem = m }))
    else if op == 0x3F || op == 0x40
    then reserved >> pure o
    else if op == 0x41
    then (do v ← s32leb; pure (record o { i32 = v }))
    else if op == 0x42
    then (do v ← s64leb; pure (record o { i64 = v }))
    else if op == 0x43
    then (do raw ← bytes 4; pure (record o { f32 = get32 raw 0 }))
    else if op == 0x44
    then (do raw ← bytes 8; pure (record o { f64 = get64 raw 0 }))
    else fail unsupported

-- One group of locals: `n` of the type `t`.
abbrev pub at_most : ℕ → Parse (Unit {0})
at_most n c = if ltb (rest c) n then err truncated else ok (tt, c)

unfoldable pub decode_locals : Parse (List ℕ)
unfolding u32leb u8 valid_val_type
decode_locals = do
  n ← u32leb
  at_most n
  t ← u8
  refuse (not (valid_val_type t)) malformed
  pure (replicate n t)

abbrev pub concat : List (List ℕ) → List ℕ
concat [] = []
concat (l ∷ ls) = l ++ concat ls

-- The nesting behind an instruction that does not end the body.
abbrev pub nest : ℕ → ℕ → ℕ
nest op depth = if between 0x02 0x04 op then depth + 1 else if op == 0x0B then depth - 1 else depth

-- The loop over the instructions; it ends behind the `end` at depth 0 or where the bytes end. Each
-- round reads a byte, so as many rounds as there are bytes suffice.
unfoldable pub decode_ops : ℕ → ℕ → Parse (List Op)
unfolding u8 decode_imm
decode_ops zero depth c = if rest c == 0 then ok ([], c) else err out_of_fuel
decode_ops (suc fuel) depth c =
    if rest c == 0
    then ok ([], c)
    else (do
      op ← u8
      o ← decode_imm (new_op op)
      if op == 0x0B && depth == 0
          then pure (o ∷ [])
          else (do os ← decode_ops fuel (nest op depth); pure (o ∷ os)))
        c

abbrev pub all_ops : Parse (List Op)
all_ops c = decode_ops (rest c) 0 c

-- `fb.Ops[len(fb.Ops)-1].Code == 0x0B`, and there is such an instruction.
abbrev pub ends : List Op → Bool
ends [] = false
ends (o ∷ []) = o.code == 0x0B
ends (o ∷ p ∷ os) = ends (p ∷ os)

abbrev pub no_rest : Parse (Unit {0})
no_rest c = if rest c == 0 then ok (tt, c) else err malformed

unfoldable pub func_body : Parse FuncBody
unfolding vec_len many decode_locals decode_ops
func_body = do
  n ← vec_len
  ls ← many n decode_locals
  os ← all_ops
  refuse (not (ends os)) malformed
  no_rest
  pure (record { locals = concat ls; ops = os; wasm_off = 0 })

-- `decodeFuncBody`: on the bytes of one code entry.
unfoldable pub decode_func_body : List ℕ → Result FuncBody
unfolding func_body
decode_func_body body = elim (func_body (record { left = body; off = 0 })) [
  | ok (fb, c) ↦ ok fb
  | err e ↦ err e
]
