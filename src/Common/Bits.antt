-- ===== src/Common/Bits.antt =====
-- Masks on small words as arithmetic: each law is a table of values, checked by evaluation.
use Prim.Native.Nat.{ℕ, zero, suc, ◌*◌, ◌/◌, ◌%◌, ◌<◌, bit_and}
use mathlib.Core.Path.{◌≡◌, refl}
use mathlib.Core.Bool.{Bool, true, false}
use mkgo.Common.Tests.{◌==◌, if◌then◌else◌}
use native.Mathlib.Omega.{arith}

-- Whether `f` and `g` take the same values on the `size` first numbers.
same_table : (f g : ℕ → ℕ) (size : ℕ) → Bool
same_table f g zero = true
same_table f g (suc size) =
    let below = same_table f g size in if f size == g size then below else false

same_table-lookup : (f g : ℕ → ℕ) (size i : ℕ) → i < size → same_table f g size ≡ true → f i ≡ g i
unfolding same_table
same_table-lookup f g (suc size) i h e = ground (arith, same_table-lookup f g size i)
same_table-lookup f g zero i h e = absurd (omega arith)

-- `b & 0x1f`, `b & 0x0f`, `b & 0x7f` and `b & 0x80` of a byte.
pub bit_and-0x1f : (b : ℕ) → b < 256 → bit_and b 0x1f ≡ b % 32
unfolding same_table
bit_and-0x1f b h = same_table-lookup (λ x. bit_and x 0x1f) (λ x. x % 32) 256 b h refl

pub bit_and-0x0f : (b : ℕ) → b < 256 → bit_and b 0x0f ≡ b % 16
unfolding same_table
bit_and-0x0f b h = same_table-lookup (λ x. bit_and x 0x0f) (λ x. x % 16) 256 b h refl

pub bit_and-0x7f : (b : ℕ) → b < 256 → bit_and b 0x7f ≡ b % 128
unfolding same_table
bit_and-0x7f b h = same_table-lookup (λ x. bit_and x 0x7f) (λ x. x % 128) 256 b h refl

pub bit_and-0x80 : (b : ℕ) → b < 256 → bit_and b 0x80 ≡ b / 128 * 128
unfolding same_table
bit_and-0x80 b h = same_table-lookup (λ x. bit_and x 0x80) (λ x. x / 128 * 128) 256 b h refl

pub bit_and-0xf0 : (b : ℕ) → b < 256 → bit_and b 0xf0 ≡ b / 16 * 16
unfolding same_table
bit_and-0xf0 b h = same_table-lookup (λ x. bit_and x 0xf0) (λ x. x / 16 * 16) 256 b h refl
