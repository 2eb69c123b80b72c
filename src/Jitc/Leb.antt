-- ===== src/Jitc/Leb.antt =====
-- The LEB128 integers, names and counts of services/jitc/leb.go. An `int32` and an `int64` are
-- their bit patterns.
pub mod Unsigned
pub mod Signed
use mkgo.Common.{
  ℕ, zero, suc, ◌+◌, ◌-◌, ◌*◌, ◌%◌, Bool, true, false, ◌&&◌, List, [], ◌∷◌, ltb, leb, ◌==◌,
  if◌then◌else◌,
}
use mkgo.Jitc.Cursor.{
  Error, truncated, overflow, Result, ok, err, Cursor, Parse, ◌>>=◌, ◌>>◌, pure, fail, refuse, rest,
  u8, bytes, continue,
}

-- `n` rounds of the loop of `u32leb`; `p` is `1 << shift`, so the last round has `2 ^ 28`. With the
-- test no bit is shifted out of the 32, and the bits that `|` joins are disjoint.
unfoldable pub u32_loop : ℕ → ℕ → ℕ → Parse ℕ
unfolding u8
u32_loop zero p v = fail overflow
u32_loop (suc n) p v = do
  b ← u8
  refuse (p == 268435456 && leb 16 b) overflow
  let v' = v + b % 128 * p
  if ltb b 128 then pure v' else u32_loop n (p * 128) v'

unfoldable pub u32leb : Parse ℕ
unfolding u32_loop
u32leb = u32_loop 5 1 0

-- The sign extension: `p` is `1 << shift`, `m` is 2 to the width.
abbrev pub sign_extend : ℕ → ℕ → ℕ → ℕ → ℕ
sign_extend m p b v = if ltb p m && leb 64 b then v + (m - p) else v

-- `n` rounds of the loops of `s32leb` and `s64leb`; a bit that is shifted out is lost.
unfoldable pub signed_loop : ℕ → ℕ → ℕ → ℕ → Parse ℕ
unfolding u8
signed_loop m zero p v = fail overflow
signed_loop m (suc n) p v = do
  b ← u8
  let v' = v + b % 128 * p % m
  if ltb b 128 then pure (sign_extend m (p * 128) b v') else signed_loop m n (p * 128) v'

unfoldable pub s32leb : Parse ℕ
unfolding signed_loop
s32leb = signed_loop 4294967296 5 1 0

unfoldable pub s64leb : Parse ℕ
unfolding signed_loop
s64leb = signed_loop 18446744073709551616 10 1 0

-- `name` and `vecLen`.
unfoldable pub name : Parse (List ℕ)
unfolding u32leb bytes
name = do n ← u32leb; bytes n

abbrev pub at_most_rest : ℕ → Parse ℕ
at_most_rest n c = if ltb (rest c) n then err truncated else pure n c

unfoldable pub vec_len : Parse ℕ
unfolding u32leb
vec_len = do n ← u32leb; at_most_rest n
