-- ===== src/Kern/Frame.antt =====
-- The little-endian framing of guests/lib/frame.go. A string is the list of its bytes.
pub mod RoundTrip
use mkgo.Common.{
  ℕ, ◌+◌, ◌*◌, ◌/◌, ◌%◌, List, [], ◌∷◌, ◌++◌, length, ltb, leb, ◌==◌, if◌then◌else◌, take, drop,
  Option, none, some,
}
use mkgo.Common.Bytes.{byte_at, copy_at, make_bytes, slice}

-- The bytes that `Put16`, `Put32` and `Put64` write, lowest first.
abbrev pub le16 : ℕ → List ℕ
le16 v = v % 256 ∷ v / 256 % 256 ∷ []

abbrev pub le32 : ℕ → List ℕ
le32 v = v % 256 ∷ v / 256 % 256 ∷ v / 65536 % 256 ∷ v / 16777216 % 256 ∷ []

abbrev pub le64 : ℕ → List ℕ
le64 v =
    v % 256
    ∷ v / 256 % 256
    ∷ v / 65536 % 256
    ∷ v / 16777216 % 256
    ∷ v / 4294967296 % 256
    ∷ v / 1099511627776 % 256
    ∷ v / 281474976710656 % 256
    ∷ v / 72057594037927936 % 256
    ∷ []

-- `Get16(b[off:])`. The bits of the bytes are disjoint, so `|` is `+`.
abbrev pub get16 : List ℕ → ℕ → ℕ
get16 b off = byte_at b off + byte_at b (off + 1) * 256

abbrev pub get32 : List ℕ → ℕ → ℕ
get32 b off =
    byte_at b off
    + byte_at b (off + 1) * 256
    + byte_at b (off + 2) * 65536
    + byte_at b (off + 3) * 16777216

-- The loop `v = v<<8 | uint64(b[i])` from the highest byte down, unrolled.
abbrev pub get64 : List ℕ → ℕ → ℕ
get64 b off = get32 b off + get32 b (off + 4) * 4294967296

-- `AppendLStr`: a `u16` length and the bytes.
unfoldable pub append_lstr : List ℕ → List ℕ → List ℕ
append_lstr dst s = dst ++ (le16 (length s % 65536) ++ s)

-- `LStr`: the string at `off` and the offset behind it.
unfoldable pub lstr : List ℕ → ℕ → Option (List ℕ × ℕ)
lstr b off =
    let n = get16 b off in
    if ltb (length b) (off + 2)
    then none
    else if ltb (length b) (off + 2 + n)
    then none
    else some (slice (off + 2) (off + 2 + n) b, off + 2 + n)

abbrev pub canonical_header_len : ℕ
canonical_header_len = 24

-- `cstr16`: the bytes before the first zero.
unfoldable pub cstr16 : List ℕ → List ℕ
cstr16 [] = []
cstr16 (x ∷ b) = if x == 0 then [] else x ∷ cstr16 b

-- `padName`: at most 16 bytes, zeros behind.
unfoldable pub pad_name : List ℕ → List ℕ
pad_name s = copy_at 0 s (make_bytes 16)

-- `HeaderView`.
pub record HeaderView : Type 0 where
  pub op : ℕ
  pub seq : ℕ
  pub uid : ℕ
  pub rname : List ℕ

unfoldable pub parse_header : List ℕ → Option HeaderView
parse_header b =
    if ltb (length b) canonical_header_len
    then none
    else some
        (record { op = get16 b 0; seq = get16 b 2; uid = get32 b 4; rname = cstr16 (slice 8 24 b) })

-- `FrameCanonical`.
unfoldable pub frame_canonical : ℕ → ℕ → List ℕ → List ℕ → List ℕ
frame_canonical op seq rname payload =
    let req = make_bytes canonical_header_len in
    let req = copy_at 0 (le16 op) req in
    let req = copy_at 2 (le16 seq) req in let req = copy_at 8 (pad_name rname) req in req ++ payload

-- `FrameRequest`.
unfoldable pub frame_request : ℕ → ℕ → List ℕ → List ℕ
unfolding frame_canonical
frame_request op seq payload = frame_canonical op seq [] payload
