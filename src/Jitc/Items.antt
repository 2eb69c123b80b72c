-- ===== src/Jitc/Items.antt =====
-- The entries of the sections of a module (services/jitc/decode.go). Signed and floating constants are
-- their bit patterns; an error keeps the one that `%w` wraps.
use mkgo.Common.{ℕ, ◌+◌, ◌%◌, Bool, true, false, not, List, ltb, leb, ◌==◌, if◌then◌else◌}
use mkgo.Jitc.Cursor.{
  body_size, malformed, Result, ok, err, Parse, ◌>>=◌, ◌>>◌, pure, fail, refuse, u8, bytes, many,
}
use mkgo.Jitc.Leb.{u32leb, s32leb, s64leb, name, vec_len}
use mkgo.Jitc.Code.{valid_val_type, FuncBody, decode_func_body}
use mkgo.Kern.Frame.{get32, get64}

pub record FuncType : Type 0 where
  pub params : List ℕ
  pub results : List ℕ

pub record Import : Type 0 where
  pub module_name : List ℕ
  pub item : List ℕ
  pub kind : ℕ
  pub typ : ℕ

pub record Export : Type 0 where
  pub item : List ℕ
  pub kind : ℕ
  pub index : ℕ

pub record Memory : Type 0 where
  pub min_pages : ℕ
  pub max_pages : ℕ
  pub has : Bool

pub record ElemSeg : Type 0 where
  pub table : ℕ
  pub const : Bool
  pub off : ℕ
  pub funcs : List ℕ

pub record DataSegRaw : Type 0 where
  pub mem : ℕ
  pub const : Bool
  pub off : ℕ
  pub contents : List ℕ

pub record Global : Type 0 where
  pub typ : ℕ
  pub mut : ℕ
  pub const : Bool
  pub init : ℕ

pub record CustomSec : Type 0 where
  pub item : List ℕ
  pub contents : List ℕ

-- A value type.
unfoldable pub val_type : Parse ℕ
unfolding u8 valid_val_type
val_type = do v ← u8; refuse (not (valid_val_type v)) malformed; pure v

unfoldable pub decode_type : Parse FuncType
unfolding u8 vec_len many val_type
decode_type = do
  tag ← u8
  refuse (not (tag == 0x60)) malformed
  np ← vec_len
  ps ← many np val_type
  nr ← vec_len
  rs ← many nr val_type
  pure (record { params = ps; results = rs })

-- `skipLimits`.
unfoldable pub skip_limits : Parse (Unit {0})
unfolding u32leb
skip_limits = do
  flags ← u32leb
  refuse (ltb 1 flags) malformed
  least ← u32leb
  if flags == 1 then u32leb >>= (λ most. pure tt) else pure tt

-- The switch on the kind of an import.
unfoldable pub import_desc : ℕ → Parse ℕ
unfolding u32leb u8 skip_limits
import_desc kind =
    if kind == 0
    then u32leb
    else if kind == 1
    then (do t ← u8; skip_limits; pure 0)
    else if kind == 2
    then skip_limits >> pure 0
    else if kind == 3
    then (do t ← u8; m ← u8; pure 0)
    else fail malformed

unfoldable pub decode_import : Parse Import
unfolding name u8 import_desc
decode_import = do
  mo ← name
  nm ← name
  kind ← u8
  t ← import_desc kind
  pure (record { module_name = mo; item = nm; kind = kind; typ = t })

-- A type index below `n`.
unfoldable pub decode_func : ℕ → Parse ℕ
unfolding u32leb
decode_func n = do t ← u32leb; refuse (leb n t) malformed; pure t

unfoldable pub decode_table : Parse ℕ
unfolding u8 u32leb
decode_table = do
  t ← u8
  flags ← u32leb
  refuse (ltb 1 flags) malformed
  mn ← u32leb
  if flags == 1 then u32leb >>= (λ most. pure mn) else pure mn

unfoldable pub decode_memory : Parse Memory
unfolding u32leb
decode_memory = do
  flags ← u32leb
  refuse (ltb 1 flags) malformed
  mn ← u32leb
  if flags == 1
      then u32leb >>= (λ mx. pure (record { min_pages = mn; max_pages = mx; has = true }))
      else pure (record { min_pages = mn; max_pages = 0; has = false })

-- `int64` of an `int32`.
abbrev pub widen : ℕ → ℕ
widen v = if ltb v 2147483648 then v else v + 18446744069414584320

-- The initializer of a global: is it constant, and its value.
unfoldable pub init_expr : ℕ → Parse (Bool × ℕ)
unfolding s32leb s64leb bytes u32leb
init_expr op =
    if op == 0x41
    then (do v ← s32leb; pure (true, widen v))
    else if op == 0x42
    then (do v ← s64leb; pure (true, v))
    else if op == 0x43
    then (do raw ← bytes 4; pure (true, get32 raw 0))
    else if op == 0x44
    then (do raw ← bytes 8; pure (true, get64 raw 0))
    else if op == 0x23
    then (do g ← u32leb; pure (false, 0))
    else fail malformed

-- The byte 0x0B that ends an expression.
unfoldable pub expr_end : Parse (Unit {0})
unfolding u8
expr_end = do e ← u8; refuse (not (e == 0x0B)) malformed

unfoldable pub decode_global : Parse Global
unfolding val_type u8 init_expr expr_end
decode_global = do
  vt ← val_type
  mut ← u8
  refuse (ltb 1 mut) malformed
  op ← u8
  v ← init_expr op
  expr_end
  pure (record { typ = vt; mut = mut; const = v.0; init = v.1 })

unfoldable pub decode_export : Parse Export
unfolding name u8 u32leb
decode_export = do
  nm ← name
  kind ← u8
  idx ← u32leb
  refuse (ltb 3 kind) malformed
  pure (record { item = nm; kind = kind; index = idx })

-- The offset of a segment: is it constant, and its value.
unfoldable pub offset_expr : Parse (Bool × ℕ)
unfolding u8 s32leb u32leb
offset_expr = do
  op ← u8
  if op == 0x41
      then (do v ← s32leb; pure (true, v))
      else if op == 0x23
      then (do g ← u32leb; pure (false, 0))
      else fail malformed

unfoldable pub decode_elem : Parse ElemSeg
unfolding u32leb offset_expr expr_end vec_len many
decode_elem = do
  tb ← u32leb
  v ← offset_expr
  expr_end
  nf ← vec_len
  fs ← many nf u32leb
  pure (record { table = tb; const = v.0; off = v.1; funcs = fs })

-- The bytes of a function body, with an error of its own.
unfoldable pub body_bytes : ℕ → Parse (List ℕ)
unfolding bytes
body_bytes n c = elim (bytes n c) [ ok r ↦ ok r | err e ↦ err body_size ]

-- The result of a call that has its own cursor.
abbrev pub lift {ℓ} : {A : Type ℓ} → Result A → Parse A
lift (ok a) c = ok (a, c)
lift (err e) c = err e

-- A code entry of a section whose payload begins at `base` of the file.
unfoldable pub decode_code : ℕ → Parse FuncBody
unfolding u32leb body_bytes decode_func_body
decode_code base c =
    (do
      sz ← u32leb
      body ← body_bytes sz
      fb ← lift (decode_func_body body)
      pure (record fb { wasm_off = (base + c.off) % 4294967296 }))
      c

unfoldable pub decode_data : Parse DataSegRaw
unfolding u32leb offset_expr expr_end bytes
decode_data = do
  mem ← u32leb
  v ← offset_expr
  expr_end
  sz ← u32leb
  l ← bytes sz
  pure (record { mem = mem; const = v.0; off = v.1; contents = l })

-- A count and as many items.
unfoldable pub vector {ℓ} : {A : Type ℓ} → Parse A → Parse (List A)
unfolding vec_len many
vector p = do n ← vec_len; many n p
