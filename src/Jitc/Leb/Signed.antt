-- ===== src/Jitc/Leb/Signed.antt =====
-- What the signed LEB128 readers read.
use mkgo.Common.{refl, ℕ, zero, suc, ◌+◌, ◌*◌, ◌%◌, ltb}
use mkgo.Jitc.Cursor.{
  overflow, u8, Reader, >>=-Reader, if-Reader, pure-Reader, fail-Reader, u8-Reader,
}
use mkgo.Jitc.Leb.{sign_extend, signed_loop, s32leb, s64leb}

signed_loop-Reader : (m n p v : ℕ) → Reader (signed_loop m n p v)
unfolding signed_loop
signed_loop-Reader m zero p v = fail-Reader ℕ overflow refl
signed_loop-Reader m (suc n) p v = >>=-Reader u8 _ u8-Reader (λ b.
    if-Reader (ltb b 128) _ _ (pure-Reader (sign_extend m (p * 128) b (v + b % 128 * p % m)))
      (signed_loop-Reader m n (p * 128) (v + b % 128 * p % m)))

pub s32leb-Reader : Reader s32leb
unfolding s32leb
s32leb-Reader = signed_loop-Reader 4294967296 5 1 0

pub s64leb-Reader : Reader s64leb
unfolding s64leb
s64leb-Reader = signed_loop-Reader 18446744073709551616 10 1 0
