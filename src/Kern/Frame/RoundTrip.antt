-- ===== src/Kern/Frame/RoundTrip.antt =====
-- Strings and headers come back as framed.
use mkgo.Common.{
  ℕ, zero, suc, ◌+◌, ◌-◌, ◌*◌, ◌/◌, ◌%◌, ◌<◌, ◌≤◌, ◌≡◌, ◌≢◌, refl, arith, List, [], ◌∷◌, ◌++◌,
  length, length-append, take, drop, take-length_append, if◌then◌else◌, get_or-append_length,
  get_or-append_add, drop-append_add, drop-length_append, ltb, false, All, none, some,
}
use mathlib.Core.List.{append_assoc}
use mkgo.Common.Bytes.{make_bytes, length-copy, copy_whole, copy_short}
use mkgo.Kern.Frame.{le16, append_lstr, lstr, cstr16, pad_name, parse_header, frame_canonical}

pub le16_back : (v : ℕ) → v < 65536 → v % 256 + v / 256 % 256 * 256 ≡ v
le16_back v h = omega arith

pub le32_back :
    (v : ℕ)
    → v < 4294967296
    → v % 256 + v / 256 % 256 * 256 + v / 65536 % 256 * 65536 + v / 16777216 % 256 * 16777216 ≡ v
le32_back v h = omega arith

-- Names have no zero byte.
abbrev pub IsName : List ℕ → Type 0
IsName = All (λ b. b ≢ 0)

pub cstr16-append_zeros : (s : List ℕ) (n : ℕ) → IsName s → cstr16 (s ++ make_bytes n) ≡ s
unfolding cstr16
cstr16-append_zeros [] zero h = refl
cstr16-append_zeros [] (suc n) h = refl
cstr16-append_zeros (x ∷ s) n (hx, hs) = ground (arith, cstr16-append_zeros s n hs)

-- A name of at most 16 bytes fills its field with zeros behind it.
pad_name-short : (s : List ℕ) → length s ≤ 16 → pad_name s ≡ s ++ make_bytes (16 - length s)
unfolding pad_name
pad_name-short s h = copy_short 16 s h

pub length-pad_name : (s : List ℕ) → length (pad_name s) ≡ 16
unfolding pad_name
length-pad_name s = length-copy (make_bytes 16) s

pub cstr16-pad_name : (s : List ℕ) → IsName s → length s ≤ 16 → cstr16 (pad_name s) ≡ s
cstr16-pad_name s h l = rw (pad_name-short s l) (cstr16-append_zeros s (16 - length s) h)

drop_field : (f l : List ℕ) → length f ≡ 16 → drop 16 (f ++ l) ≡ l
drop_field f l e = rw (← e) (drop-length_append f l)

abbrev past8 : ℕ → ℕ
past8 n = suc (suc (suc (suc (suc (suc (suc (suc n)))))))

long_enough :
    (l f payload : List ℕ) → l ≡ f ++ payload → length f ≡ 16 → ltb (past8 (length l)) 24 ≡ false
long_enough l f payload e h = rw e (ground (arith, length-append f payload))

take_field : (f l : List ℕ) → length f ≡ 16 → take 16 (f ++ l) ≡ f
take_field f l e = rw (← e) (take-length_append f l)

-- The canonical header as bytes.
frame_canonical-bytes :
    (op seq : ℕ) (rname payload : List ℕ)
    → frame_canonical op seq rname payload
      ≡ op % 256
        ∷ op / 256 % 256
        ∷ seq % 256
        ∷ seq / 256 % 256
        ∷ 0
        ∷ 0
        ∷ 0
        ∷ 0
        ∷ (pad_name rname ++ payload)
unfolding frame_canonical
frame_canonical-bytes op seq rname payload =
    rw (copy_whole (make_bytes 16) (pad_name rname) (length-pad_name rname))

pub length-frame_canonical :
    (op seq : ℕ) (rname payload : List ℕ)
    → length (frame_canonical op seq rname payload) ≡ length payload + 24
length-frame_canonical op seq rname payload =
    rw (frame_canonical-bytes op seq rname payload)
      (omega (arith, length-append (pad_name rname) payload, length-pad_name rname))

-- `ParseHeader` reads back the 16-bit operation and sequence number and the reply name of at most
-- 16 non-zero bytes that `FrameCanonical` was given, with the uid left 0, and the payload stands
-- behind the 24 bytes of the header.
pub parse_header-frame_canonical :
    (op seq : ℕ) (rname payload : List ℕ)
    → op < 65536
    → seq < 65536
    → IsName rname
    → length rname ≤ 16
    → (parse_header (frame_canonical op seq rname payload)
        ≡ some (record { op = op; seq = seq; uid = 0; rname = rname }))
      × (drop 24 (frame_canonical op seq rname payload) ≡ payload)
unfolding parse_header
parse_header-frame_canonical op seq rname payload ho hs hn hl =
    rw (frame_canonical-bytes op seq rname payload) (
      rw
          (long_enough (pad_name rname ++ payload) (pad_name rname) payload refl
            (length-pad_name rname))
          (rw
            (
              take_field (pad_name rname) payload (length-pad_name rname),
              cstr16-pad_name rname hn hl,
            )
            (rw (le16_back op ho, le16_back seq hs) refl)),
      drop_field (pad_name rname) payload (length-pad_name rname),
    )

both_fit :
    {A : Type 0} {v : A} (p n q : ℕ)
    → (if ltb (p + 2 + n + q) (p + 2)
        then none
        else if ltb (p + 2 + n + q) (p + 2 + n)
        then none
        else some v)
      ≡ some v
both_fit p n q = ground arith

-- The length field and the string, at their place.
lstr_field :
    (pre s post : List ℕ)
    → length s < 65536
    → lstr (pre ++ (length s % 256 ∷ length s / 256 % 256 ∷ (s ++ post))) (length pre)
      ≡ some (s, length pre + 2 + length s)
unfolding lstr
lstr_field pre s post h =
    let n = length s in
    let field : List ℕ = n % 256 ∷ n / 256 % 256 ∷ (s ++ post) in
    let total : length (pre ++ field) ≡ length pre + 2 + n + length post =
      omega (arith, length-append pre field, length-append s post) in
    let cut : length pre + 2 + n - (length pre + 2) ≡ n = omega arith in
    rw (get_or-append_length pre field 0, get_or-append_add pre field 1 0, le16_back n h)
      (rw (total, drop-append_add pre field 2, cut)
        (rw (take-length_append s post) (both_fit (length pre) n (length post))))

-- `LStr` reads the string of less than 2^16 bytes that `AppendLStr` appended, and returns the
-- offset behind it, with any bytes before and behind.
pub lstr-append_lstr :
    (pre s post : List ℕ)
    → length s < 65536
    → lstr (append_lstr pre s ++ post) (length pre) ≡ some (s, length pre + 2 + length s)
unfolding append_lstr
lstr-append_lstr pre s post h =
    let small : length s % 65536 ≡ length s = omega arith in
    rw (small, append_assoc pre (le16 (length s) ++ s) post) (lstr_field pre s post h)
