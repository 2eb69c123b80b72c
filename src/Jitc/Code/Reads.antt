-- ===== src/Jitc/Code/Reads.antt =====
-- The decoder of instructions reads forwards, and as many rounds as there are bytes suffice.
use mkgo.Common.{
  ℕ, zero, suc, ◌≤◌, ◌≡◌, refl, arith, Bool, true, false, ◌&&◌, ◌||◌, not, List, [], ◌∷◌, ◌++◌,
  replicate, ltb, leb, ◌==◌, if◌then◌else◌, Bool-cases, inl, inr,
}
use mkgo.Jitc.Cursor.{
  Error, truncated, unsupported, malformed, Result, ok, err, Cursor, Parse, ◌>>=◌, ◌>>◌, pure,
  refuse, rest, u8, bytes, many, Reader, Outcome, starved, >>=-Reader, pure-Reader, refuse-Reader,
  fail-Reader, if-Reader, u8-Reader, bytes-Reader, many-Reader, Reads-refl, weaken,
  continue-Outcome, u8-next,
}
use mkgo.Jitc.Leb.{u32leb, s32leb, s64leb, vec_len}
use mkgo.Jitc.Leb.Unsigned.{u32leb-Reader, vec_len-Reader}
use mkgo.Jitc.Leb.Signed.{s32leb-Reader, s64leb-Reader}
use mkgo.Kern.Frame.{get32, get64}
use mkgo.Jitc.Code.{
  valid_val_type, BlockType, MemArg, Op, new_op, FuncBody, decode_block_type, decode_mem_arg,
  reserved, decode_sub, between, is_plain, decode_imm, at_most, decode_locals, concat, nest,
  decode_ops, all_ops, ends, no_rest, func_body, decode_func_body,
}

-- One read, and a value from it.
pub reads_then {ℓ κ} :
    {A : Type ℓ} {B : Type κ} (p : Parse A) (f : A → B) → Reader p → Reader (p >>= λ a. pure (f a))
reads_then p f h = >>=-Reader p (λ a. pure (f a)) h (λ a. pure-Reader (f a))

block_type-Reader : Reader decode_block_type
unfolding decode_block_type
block_type-Reader = >>=-Reader u8 _ u8-Reader (λ b.
    if-Reader (b == 0x40) _ _ (pure-Reader {A = BlockType} (record { empty = true; value = 0 })) (
      >>=-Reader (refuse (not (valid_val_type b)) unsupported) _
        (refuse-Reader (not (valid_val_type b)) unsupported refl)
        (λ _. pure-Reader {A = BlockType} (record { empty = false; value = b }))))

mem_arg-Reader : Reader decode_mem_arg
unfolding decode_mem_arg
mem_arg-Reader = >>=-Reader u32leb _ u32leb-Reader (λ a.
    reads_then u32leb (λ o. (let m : MemArg = record { align = a; offset = o } in m)) u32leb-Reader)

reserved-Reader : Reader reserved
unfolding reserved
reserved-Reader = >>=-Reader u8 _ u8-Reader (λ r. refuse-Reader (not (r == 0)) malformed refl)

sub-Reader : (o : Op) → Reader (decode_sub o)
unfolding decode_sub
sub-Reader o = >>=-Reader u32leb _ u32leb-Reader (λ sub.
    let done = pure-Reader (record o { sub = sub }) in
    if-Reader (leb sub 7) _ _ done (
      if-Reader (sub == 10) _ _
        (>>=-Reader (reserved >> reserved) _
          (>>=-Reader reserved _ reserved-Reader (λ _. reserved-Reader)) (λ _. done))
        (if-Reader (sub == 11) _ _ (>>=-Reader reserved _ reserved-Reader (λ _. done))
          (fail-Reader Op unsupported refl))))

imm-Reader : (o : Op) → Reader (decode_imm o)
unfolding decode_imm
imm-Reader o =
    let op = o.code in
    if-Reader (is_plain op) _ _ (pure-Reader o) (
      if-Reader (between 0x02 0x04 op) _ _
        (reads_then decode_block_type (λ bt. record o { block = bt }) block_type-Reader)
        (if-Reader (op == 0x0C || op == 0x0D) _ _
          (reads_then u32leb (λ l. record o { label = l }) u32leb-Reader)
          (if-Reader (op == 0x0E) _ _
            (>>=-Reader vec_len _ vec_len-Reader (λ n.
              >>=-Reader (many n u32leb) _ (many-Reader n u32leb u32leb-Reader)
                (λ ls. reads_then u32leb (λ d. record o { table = ls ++ d ∷ [] }) u32leb-Reader)))
            (if-Reader (op == 0xFC) _ _ (sub-Reader o) (
              if-Reader (op == 0x10) _ _
                (reads_then u32leb (λ f. record o { func = f }) u32leb-Reader)
                (if-Reader (op == 0x11) _ _
                  (>>=-Reader u32leb _ u32leb-Reader (λ ti.
                    reads_then u32leb (λ ty. record o { table_idx = ti; typ = ty }) u32leb-Reader))
                  (if-Reader (between 0x20 0x24 op) _ _
                    (reads_then u32leb (λ l. record o { local = l }) u32leb-Reader)
                    (if-Reader (between 0x28 0x3E op) _ _
                      (reads_then decode_mem_arg (λ m. record o { mem = m }) mem_arg-Reader)
                      (if-Reader (op == 0x3F || op == 0x40) _ _
                        (>>=-Reader reserved _ reserved-Reader (λ _. pure-Reader o))
                        (if-Reader (op == 0x41) _ _
                          (reads_then s32leb (λ v. record o { i32 = v }) s32leb-Reader)
                          (if-Reader (op == 0x42) _ _
                            (reads_then s64leb (λ v. record o { i64 = v }) s64leb-Reader)
                            (if-Reader (op == 0x43) _ _
                              (reads_then (bytes 4) (λ raw. record o { f32 = get32 raw 0 })
                                (bytes-Reader 4))
                              (if-Reader (op == 0x44) _ _
                                (reads_then (bytes 8) (λ raw. record o { f64 = get64 raw 0 })
                                  (bytes-Reader 8))
                                (fail-Reader Op unsupported refl))))))))))))))

test-Reader :
    (b : Bool) (e : Error) (c : Cursor)
    → starved e ≡ false
    → Outcome c (if b then err e else ok (tt {0}, c))
test-Reader true e c h = h
test-Reader false e c h = Reads-refl c

locals-Reader : Reader decode_locals
unfolding decode_locals
locals-Reader = >>=-Reader u32leb _ u32leb-Reader (λ n.
    >>=-Reader (at_most n) _ (λ c. test-Reader (ltb (rest c) n) truncated c refl)
      (λ _. >>=-Reader u8 _ u8-Reader (λ t.
        >>=-Reader (refuse (not (valid_val_type t)) malformed) _
          (refuse-Reader (not (valid_val_type t)) malformed refl)
          (λ _. pure-Reader (replicate n t)))))

-- A round of the loop reads at least one byte.
ops-Outcome : (fuel depth : ℕ) (c : Cursor) → rest c ≤ fuel → Outcome c (decode_ops fuel depth c)
unfolding decode_ops
ops-Outcome zero depth c h =
    let none_left : rest c == 0 ≡ true = ground arith in rw none_left (Reads-refl c)
ops-Outcome (suc fuel) depth c h = elim (Bool-cases (rest c == 0)) [
  | inl done ↦ rw done (Reads-refl c)
  | inr more ↦
      let (op, d, e, len, r) = u8-next c (ground arith) in
      rw (more, e)
        (weaken c d _ r (
          continue-Outcome d (decode_imm (new_op op) d) _ (imm-Reader (new_op op) d) (λ o f s.
            if-Outcome (op == 0x0B && depth == 0) f _ _ (Reads-refl f) (
              continue-Outcome f (decode_ops fuel (nest op depth) f) _
                (ops-Outcome fuel (nest op depth) f (omega (arith, s.shrinks)))
                (λ os g t. Reads-refl g)))))
]
  where
    if-Outcome :
        (b : Bool) (f : Cursor) (p q : Parse (List Op))
        → Outcome f (p f)
        → Outcome f (q f)
        → Outcome f ((if b then p else q) f)
    if-Outcome true f p q h k = h
    if-Outcome false f p q h k = k

all_ops-Reader : Reader all_ops
all_ops-Reader c = ops-Outcome (rest c) 0 c (omega arith)

no_rest-Reader : Reader no_rest
no_rest-Reader c = elim (Bool-cases (rest c == 0)) [
  | inl done ↦ rw done (Reads-refl c)
  | inr more ↦ rw more refl
]

pub func_body-Reader : Reader func_body
unfolding func_body
func_body-Reader = >>=-Reader vec_len _ vec_len-Reader (λ n.
    >>=-Reader (many n decode_locals) _ (many-Reader n decode_locals locals-Reader) (λ ls.
      >>=-Reader all_ops _ all_ops-Reader (λ os.
        >>=-Reader (refuse (not (ends os)) malformed) _
          (refuse-Reader (not (ends os)) malformed refl)
          (λ _. >>=-Reader no_rest _ no_rest-Reader (λ _.
            pure-Reader {A = FuncBody} (record { locals = concat ls; ops = os; wasm_off = 0 }))))))

-- The cursor of a call does not reach its caller.
pub drop_cursor {ℓ} :
    {A : Type ℓ} (c : Cursor) (r : Result (A × Cursor)) (e : Error)
    → Outcome c r
    → elim r as (λ _. Result A) [ ok (a, d) ↦ ok a | err e ↦ err e ] ≡ err e
    → starved e ≡ false
drop_cursor c (ok (a, d)) e h k = cc
drop_cursor c (err f) e h k = ground (arith, h, k)

pub func_body_fuel : (body : List ℕ) (e : Error) → decode_func_body body ≡ err e → starved e ≡ false
unfolding decode_func_body
func_body_fuel body e h =
    let c : Cursor = record { left = body; off = 0 } in
    drop_cursor c (func_body c) e (func_body-Reader c) h
