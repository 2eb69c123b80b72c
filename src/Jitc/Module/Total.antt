-- ===== src/Jitc/Module/Total.antt =====
-- The decoder of modules reads forwards, and as many rounds as there are bytes suffice.
use mkgo.Common.{ℕ, refl, Bool, true, false, not, ltb, leb, ◌==◌}
use mkgo.Jitc.Cursor.{
  malformed, Parse, ◌>>=◌, ◌>>◌, pure, refuse, u8, bytes, many, Reader, >>=-Reader, pure-Reader,
  refuse-Reader, fail-Reader, if-Reader, u8-Reader, bytes-Reader, many-Reader,
}
use mkgo.Jitc.Leb.{u32leb, s32leb, s64leb, name, vec_len}
use mkgo.Jitc.Leb.Unsigned.{u32leb-Reader, vec_len-Reader, name-Reader}
use mkgo.Jitc.Leb.Signed.{s32leb-Reader, s64leb-Reader}
use mkgo.Jitc.Code.{valid_val_type}
use mkgo.Jitc.Code.Reads.{reads_then}
use mkgo.Kern.Frame.{get32, get64}
use mkgo.Jitc.Items.{
  FuncType, Import, Export, Memory, ElemSeg, DataSegRaw, Global, val_type, decode_type, skip_limits,
  import_desc, decode_import, decode_func, decode_table, decode_memory, widen, init_expr, expr_end,
  decode_global, decode_export, offset_expr, decode_elem, decode_data, vector,
}

-- A test, then the rest.
pub checked {ℓ} :
    {A : Type ℓ} (bad : Bool) (p : Parse A) → Reader p → Reader (refuse bad malformed >> p)
checked bad p h =
    >>=-Reader (refuse bad malformed) (λ _. p) (refuse-Reader bad malformed refl) (λ _. h)

val_type-Reader : Reader val_type
unfolding val_type
val_type-Reader =
    >>=-Reader u8 _ u8-Reader (λ v. checked (not (valid_val_type v)) (pure v) (pure-Reader v))

pub vector-Reader {ℓ} : {A : Type ℓ} (p : Parse A) → Reader p → Reader (vector p)
unfolding vector
vector-Reader p h = >>=-Reader vec_len _ vec_len-Reader (λ n. many-Reader n p h)

pub type-Reader : Reader decode_type
unfolding decode_type
type-Reader = >>=-Reader u8 _ u8-Reader (λ tag. checked (not (tag == 0x60)) _ (
    >>=-Reader vec_len _ vec_len-Reader (λ np.
      >>=-Reader (many np val_type) _ (many-Reader np val_type val_type-Reader) (λ ps.
        >>=-Reader vec_len _ vec_len-Reader (λ nr.
          reads_then (many nr val_type)
            (λ rs. (let t : FuncType = record { params = ps; results = rs } in t))
            (many-Reader nr val_type val_type-Reader))))))

limits-Reader : Reader skip_limits
unfolding skip_limits
limits-Reader = >>=-Reader u32leb _ u32leb-Reader (λ flags. checked (ltb 1 flags) _ (
    >>=-Reader u32leb _ u32leb-Reader (λ least.
      if-Reader (flags == 1) _ _ (reads_then u32leb (λ most. tt {0}) u32leb-Reader)
        (pure-Reader (tt {0})))))

desc-Reader : (kind : ℕ) → Reader (import_desc kind)
unfolding import_desc
desc-Reader kind = if-Reader (kind == 0) _ _ u32leb-Reader (
    if-Reader (kind == 1) _ _
      (>>=-Reader u8 _ u8-Reader (λ t. reads_then skip_limits (λ _. 0) limits-Reader))
      (if-Reader (kind == 2) _ _ (reads_then skip_limits (λ _. 0) limits-Reader) (
        if-Reader (kind == 3) _ _
          (>>=-Reader u8 _ u8-Reader (λ t. reads_then u8 (λ m. 0) u8-Reader))
          (fail-Reader ℕ malformed refl))))

pub import-Reader : Reader decode_import
unfolding decode_import
import-Reader = >>=-Reader name _ name-Reader (λ mo. >>=-Reader name _ name-Reader (λ nm.
    >>=-Reader u8 _ u8-Reader (λ kind.
      reads_then (import_desc kind)
        (λ t. (let i : Import = record { module_name = mo; item = nm; kind = kind; typ = t } in i))
        (desc-Reader kind))))

pub func-Reader : (n : ℕ) → Reader (decode_func n)
unfolding decode_func
func-Reader n = >>=-Reader u32leb _ u32leb-Reader (λ t. checked (leb n t) (pure t) (pure-Reader t))

pub table-Reader : Reader decode_table
unfolding decode_table
table-Reader = >>=-Reader u8 _ u8-Reader (λ t. >>=-Reader u32leb _ u32leb-Reader (λ flags.
    checked (ltb 1 flags) _ (
      >>=-Reader u32leb _ u32leb-Reader (λ mn.
        if-Reader (flags == 1) _ _ (reads_then u32leb (λ most. mn) u32leb-Reader)
          (pure-Reader mn)))))

pub memory-Reader : Reader decode_memory
unfolding decode_memory
memory-Reader = >>=-Reader u32leb _ u32leb-Reader (λ flags. checked (ltb 1 flags) _ (
    >>=-Reader u32leb _ u32leb-Reader (λ mn.
      if-Reader (flags == 1) _ _
        (reads_then u32leb
          (λ mx. (let m : Memory = record { min_pages = mn; max_pages = mx; has = true } in m))
          u32leb-Reader)
        (pure-Reader {A = Memory} (record { min_pages = mn; max_pages = 0; has = false })))))

abbrev Value : Type 0
Value = Bool × ℕ

constant : (p : Parse ℕ) (f : ℕ → Value) → Reader p → Reader (p >>= λ v. pure (f v))
constant p f h = reads_then p f h

init-Reader : (op : ℕ) → Reader (init_expr op)
unfolding init_expr
init-Reader op = if-Reader (op == 0x41) _ _ (constant s32leb (λ v. (true, widen v)) s32leb-Reader) (
    if-Reader (op == 0x42) _ _ (constant s64leb (λ v. (true, v)) s64leb-Reader) (
      if-Reader (op == 0x43) _ _
        (>>=-Reader (bytes 4) _ (bytes-Reader 4)
          (λ raw. pure-Reader {A = Value} (true, get32 raw 0)))
        (if-Reader (op == 0x44) _ _
          (>>=-Reader (bytes 8) _ (bytes-Reader 8)
            (λ raw. pure-Reader {A = Value} (true, get64 raw 0)))
          (if-Reader (op == 0x23) _ _ (constant u32leb (λ g. (false, 0)) u32leb-Reader)
            (fail-Reader Value malformed refl)))))

end-Reader : Reader expr_end
unfolding expr_end
end-Reader = >>=-Reader u8 _ u8-Reader (λ e. refuse-Reader (not (e == 0x0B)) malformed refl)

pub global-Reader : Reader decode_global
unfolding decode_global
global-Reader = >>=-Reader val_type _ val_type-Reader (λ vt. >>=-Reader u8 _ u8-Reader (λ mut.
    checked (ltb 1 mut) _ (
      >>=-Reader u8 _ u8-Reader (λ op. >>=-Reader (init_expr op) _ (init-Reader op) (λ v.
        reads_then expr_end
          (λ _. (let g : Global = record { typ = vt; mut = mut; const = v.0; init = v.1 } in g))
          end-Reader)))))

pub export-Reader : Reader decode_export
unfolding decode_export
export-Reader = >>=-Reader name _ name-Reader (λ nm. >>=-Reader u8 _ u8-Reader (λ kind.
    >>=-Reader u32leb _ u32leb-Reader (λ idx.
      checked (ltb 3 kind) _
        (pure-Reader {A = Export} (record { item = nm; kind = kind; index = idx })))))

offset-Reader : Reader offset_expr
unfolding offset_expr
offset-Reader = >>=-Reader u8 _ u8-Reader (λ op.
    if-Reader (op == 0x41) _ _ (constant s32leb (λ v. (true, v)) s32leb-Reader) (
      if-Reader (op == 0x23) _ _ (constant u32leb (λ g. (false, 0)) u32leb-Reader)
        (fail-Reader Value malformed refl)))

pub elem-Reader : Reader decode_elem
unfolding decode_elem
elem-Reader = >>=-Reader u32leb _ u32leb-Reader (λ tb. >>=-Reader offset_expr _ offset-Reader (λ v.
    >>=-Reader expr_end _ end-Reader (λ _. >>=-Reader vec_len _ vec_len-Reader (λ nf.
      reads_then (many nf u32leb)
        (λ fs. (let s : ElemSeg = record { table = tb; const = v.0; off = v.1; funcs = fs } in s))
        (many-Reader nf u32leb u32leb-Reader)))))

pub data-Reader : Reader decode_data
unfolding decode_data
data-Reader = >>=-Reader u32leb _ u32leb-Reader (λ me. >>=-Reader offset_expr _ offset-Reader (λ v.
    >>=-Reader expr_end _ end-Reader (λ _. >>=-Reader u32leb _ u32leb-Reader (λ sz.
      reads_then (bytes sz)
        (λ l. (let s : DataSegRaw = record { mem = me; const = v.0; off = v.1; contents = l } in s))
        (bytes-Reader sz)))))
