-- ===== src/Jitc/Alu.antt =====
-- `aluInt` of services/jitc/interp_alu.go: the integer instructions of the interpreter. A stack is
-- the list of its values from the top down. `m` is 2 to the width of the operands.
pub mod Traps
use mkgo.Common.{
  ℕ, zero, suc, ◌+◌, ◌-◌, ◌*◌, ◌/◌, ◌%◌, ◌^◌, bit_and, bit_or, Bool, true, false, ◌&&◌, ◌||◌, not,
  List, [], ◌∷◌, ltb, leb, ◌==◌, if◌then◌else◌, Option, none, some,
}
use Prim.Native.Nat.{bit_xor}
use mkgo.Jitc.Code.{between}

abbrev pub w32 : ℕ
w32 = 4294967296

abbrev pub w64 : ℕ
w64 = 18446744073709551616

-- What an instruction does: the new stack, a trap, or an error of the interpreter.
pub data Step : Type 0 where
  pushed : List ℕ → Step
  trapped : ℕ → Step
  failed : Step

-- `TrapDivZero`.
abbrev pub trap_div_zero : ℕ
trap_div_zero = 3

-- `pop1` and `pop2` with `ipop`, and `push`.
unfoldable pub unary : (ℕ → ℕ) → List ℕ → Step
unary f [] = failed
unary f (a ∷ s) = pushed (f a ∷ s)

abbrev pub push_result : Option ℕ → List ℕ → Step
push_result none s = trapped trap_div_zero
push_result (some v) s = pushed (v ∷ s)

unfoldable pub binary : (ℕ → ℕ → Option ℕ) → List ℕ → Step
binary f [] = failed
binary f (b ∷ []) = failed
binary f (b ∷ a ∷ s) = push_result (f a b) s

abbrev pub bit : Bool → ℕ
bit r = if r then 1 else 0

-- `int32(x) < int32(y)`, and likewise for 64 bits.
unfoldable pub signed_lt : ℕ → ℕ → ℕ → Bool
signed_lt m x y = ltb ((x + m / 2) % m) ((y + m / 2) % m)

-- The relational instructions, by their distance from `eq`.
unfoldable pub compare_op : ℕ → ℕ → ℕ → ℕ → Bool
unfolding signed_lt
compare_op m n x y =
    if n == 0
    then x == y
    else if n == 1
    then not (x == y)
    else if n == 2
    then signed_lt m x y
    else if n == 3
    then ltb x y
    else if n == 4
    then signed_lt m y x
    else if n == 5
    then ltb y x
    else if n == 6
    then not (signed_lt m y x)
    else if n == 7
    then leb x y
    else if n == 8
    then not (signed_lt m x y)
    else leb y x

-- `bits.LeadingZeros`, `bits.TrailingZeros` and `bits.OnesCount` of a value of `n` bits.
unfoldable pub leading_zeros : ℕ → ℕ → ℕ
leading_zeros zero x = 0
leading_zeros (suc n) x = if leb (2 ^ n) x then 0 else suc (leading_zeros n x)

unfoldable pub trailing_zeros : ℕ → ℕ → ℕ
trailing_zeros zero x = 0
trailing_zeros (suc n) x = if x % 2 == 1 then 0 else suc (trailing_zeros n (x / 2))

unfoldable pub ones_count : ℕ → ℕ → ℕ
ones_count zero x = 0
ones_count (suc n) x = x % 2 + ones_count n (x / 2)

-- The quotient and the remainder of signed integers, which Go rounds towards zero.
abbrev pub magnitude : ℕ → ℕ → ℕ
magnitude m x = if ltb x (m / 2) then x else m - x

abbrev pub negative : ℕ → ℕ → Bool
negative m x = leb (m / 2) x

abbrev pub negate_if : ℕ → Bool → ℕ → ℕ
negate_if m b x = if b then (m - x) % m else x

abbrev pub differ : Bool → Bool → Bool
differ true b = not b
differ false b = b

unfoldable pub signed_div : ℕ → ℕ → ℕ → ℕ
signed_div m x y =
    if x == m / 2 && y == m - 1
    then m / 2
    else negate_if m (differ (negative m x) (negative m y)) (magnitude m x / magnitude m y)

unfoldable pub signed_rem : ℕ → ℕ → ℕ → ℕ
signed_rem m x y =
    if x == m / 2 && y == m - 1
    then 0
    else negate_if m (negative m x) (magnitude m x % magnitude m y)

-- `int32(x) >> k`.
unfoldable pub signed_shr : ℕ → ℕ → ℕ → ℕ
signed_shr m x k = if ltb x (m / 2) then x / 2 ^ k else m - 1 - (m - 1 - x) / 2 ^ k

-- `bits.RotateLeft` of a value of `w` bits, by fewer than `w`.
unfoldable pub rotate_left : ℕ → ℕ → ℕ → ℕ → ℕ
rotate_left m w x k = x * 2 ^ k % m + x / 2 ^ (w - k)

abbrev pub unless_zero : ℕ → ℕ → Option ℕ
unless_zero y v = if y == 0 then none else some v

-- The arithmetic instructions of `w` bits, by their distance from `add`; `none` is the trap.
unfoldable pub arith_op : ℕ → ℕ → ℕ → ℕ → ℕ → Option ℕ
unfolding signed_div signed_rem signed_shr rotate_left
arith_op m w n x y =
    if n == 0
    then some ((x + y) % m)
    else if n == 1
    then some ((x + m - y) % m)
    else if n == 2
    then some (x * y % m)
    else if n == 3
    then unless_zero y (signed_div m x y)
    else if n == 4
    then unless_zero y (x / y)
    else if n == 5
    then unless_zero y (signed_rem m x y)
    else if n == 6
    then unless_zero y (x % y)
    else if n == 7
    then some (bit_and x y)
    else if n == 8
    then some (bit_or x y)
    else if n == 9
    then some (bit_xor x y)
    else if n == 10
    then some (x * 2 ^ (y % w) % m)
    else if n == 11
    then some (signed_shr m x (y % w))
    else if n == 12
    then some (x / 2 ^ (y % w))
    else if n == 13
    then some (rotate_left m w x (y % w))
    else some (rotate_left m w x ((w - y % w) % w))

-- The sign extension of the low bits: `n` is 2 to their number.
unfoldable pub extend : ℕ → ℕ → ℕ → ℕ
extend m n a = let b = a % n in if ltb b (n / 2) then b else b + (m - n)

-- The instructions with one operand.
unfoldable pub unary_op : ℕ → ℕ → ℕ
unfolding leading_zeros trailing_zeros ones_count extend
unary_op op a =
    if op == 0x45
    then bit (a % w32 == 0)
    else if op == 0x50
    then bit (a == 0)
    else if op == 0x67
    then leading_zeros 32 (a % w32)
    else if op == 0x68
    then trailing_zeros 32 (a % w32)
    else if op == 0x69
    then ones_count 32 (a % w32)
    else if op == 0x79
    then leading_zeros 64 a
    else if op == 0x7A
    then trailing_zeros 64 a
    else if op == 0x7B
    then ones_count 64 a
    else if op == 0xA7
    then a % w32
    else if op == 0xC0
    then extend w32 256 a
    else if op == 0xC1
    then extend w32 65536 a
    else if op == 0xC2
    then extend w64 256 a
    else if op == 0xC3
    then extend w64 65536 a
    else extend w64 w32 a

abbrev pub is_unary : ℕ → Bool
is_unary op =
    op == 0x45
    || op == 0x50
    || between 0x67 0x69 op
    || between 0x79 0x7B op
    || op == 0xA7
    || between 0xC0 0xC4 op

-- `aluInt`: an operand of a 32-bit instruction is cut to its low 32 bits.
unfoldable pub alu_int : ℕ → List ℕ → Step
unfolding unary binary unary_op compare_op arith_op
alu_int op stack =
    if is_unary op
    then unary (unary_op op) stack
    else if between 0x46 0x4F op
    then binary (λ a b. some (bit (compare_op w32 (op - 0x46) (a % w32) (b % w32)))) stack
    else if between 0x51 0x5A op
    then binary (λ a b. some (bit (compare_op w64 (op - 0x51) a b))) stack
    else if between 0x6A 0x78 op
    then binary (λ a b. arith_op w32 32 (op - 0x6A) (a % w32) (b % w32)) stack
    else if between 0x7C 0x8A op
    then binary (λ a b. arith_op w64 64 (op - 0x7C) a b) stack
    else failed
