-- ===== src/Jitc/Tests.antt =====
-- The theorems on the decoder at concrete values, and tests of it.
use mkgo.Common.{ℕ, ◌+◌, ◌≡◌, ◌≢◌, refl, arith, true, List, [], ◌∷◌, ◌++◌, length}
use mkgo.Jitc.Cursor.{overflow, out_of_fuel, ok, err}
use mkgo.Jitc.Leb.{u32leb, s32leb}
use mkgo.Jitc.Leb.Unsigned.{uleb, u32leb-uleb}
use mkgo.Jitc.Code.{new_op, decode_func_body}
use mkgo.Jitc.Module.{Module, empty_module, decode}
use mkgo.Jitc.Module.Terminates.{decode-terminates}
use mkgo.Jitc.Module.Promise.{decode-Promises, Counted}
use mkgo.Jitc.Alu.{pushed, alu_int}
use mkgo.Jitc.Alu.Traps.{Effect, divides_by_zero, under, alu_int-Effect}
use mkgo.Jitc.Module.Valid.{IsModule}

u32leb-uleb_example :
    u32leb (record { left = uleb 5 624485 ++ 9 ∷ []; off = 2 })
    ≡ ok (624485, record { left = 9 ∷ []; off = 2 + length (uleb 5 624485) })
u32leb-uleb_example = u32leb-uleb 624485 (omega arith) (9 ∷ []) 2

-- One type and one function without locals that ends at once.
abbrev minimal_module : List ℕ
minimal_module =
    0x00 ∷ 0x61 ∷ 0x73 ∷ 0x6D ∷ 1 ∷ 0 ∷ 0 ∷ 0 ∷ 1 ∷ 4 ∷ 1 ∷ 0x60 ∷ 0 ∷ 0 ∷ 3 ∷ 2 ∷ 1 ∷ 0 ∷ 10 ∷ 4
    ∷ 1 ∷ 2 ∷ 0 ∷ 0x0B ∷ []

abbrev minimal : Module
minimal = record empty_module {
  types = record { params = []; results = [] } ∷ [];
  funcs = 0 ∷ [];
  code = record { locals = []; ops = new_op 0x0B ∷ []; wasm_off = 21 } ∷ [];
}

decoded : decode minimal_module ≡ ok minimal
unfolding decode
decoded = refl

decode-terminates_example : decode minimal_module ≢ err out_of_fuel
decode-terminates_example = decode-terminates minimal_module

decode-Promises_example : IsModule minimal × Counted minimal
decode-Promises_example = decode-Promises minimal_module minimal decoded

-- -1 as an `int32`, and a number of 33 bits.
minus_one :
    s32leb (record { left = 0x7F ∷ []; off = 0 }) ≡ ok (4294967295, record { left = []; off = 1 })
unfolding s32leb
minus_one = refl

too_long : u32leb (record { left = 0x80 ∷ 0x80 ∷ 0x80 ∷ 0x80 ∷ 0x10 ∷ []; off = 0 }) ≡ err overflow
unfolding u32leb
too_long = refl

-- A body whose only `end` closes a block is taken, although its own `end` is missing.
unended :
    decode_func_body (0 ∷ 0x02 ∷ 0x40 ∷ 0x0B ∷ [])
    ≡ ok (record {
      locals = [];
      ops = record (new_op 0x02) { block = record { empty = true; value = 0 } } ∷ new_op 0x0B ∷ [];
      wasm_off = 0;
    })
unfolding decode_func_body
unended = refl

-- 7 / 0 traps.
alu_int-Effect_example :
    Effect (divides_by_zero 0x6D 0) (under 0x6D 7 (5 ∷ [])) (alu_int 0x6D (0 ∷ 7 ∷ 5 ∷ []))
alu_int-Effect_example = alu_int-Effect 0x6D 7 0 (5 ∷ []) refl

-- -7 / 2 is -3, and -7 % 2 is -1; -8 shifted right by 1 is -4; 1 rotated right by 1 is the top bit.
signed_quotient : alu_int 0x6D (2 ∷ 4294967289 ∷ []) ≡ pushed (4294967293 ∷ [])
unfolding alu_int
signed_quotient = refl

signed_remainder : alu_int 0x6F (2 ∷ 4294967289 ∷ []) ≡ pushed (4294967295 ∷ [])
unfolding alu_int
signed_remainder = refl

arithmetic_shift : alu_int 0x75 (1 ∷ 4294967288 ∷ []) ≡ pushed (4294967292 ∷ [])
unfolding alu_int
arithmetic_shift = refl

rotation : alu_int 0x78 (1 ∷ 1 ∷ []) ≡ pushed (2147483648 ∷ [])
unfolding alu_int
rotation = refl

counts : alu_int 0x67 (1 ∷ []) ≡ pushed (31 ∷ [])
unfolding alu_int
counts = refl

extension : alu_int 0xC2 (255 ∷ []) ≡ pushed (18446744073709551615 ∷ [])
unfolding alu_int
extension = refl
