-- ===== src/Net/Ip/RoundTrip.antt =====
-- Datagrams and echo messages come back as built, their checksums accepted.
use mathlib.Core.List.{append_assoc}
use mkgo.Common.{
  ℕ, suc, ◌+◌, ◌-◌, ◌*◌, ◌/◌, ◌%◌, ◌<◌, ◌≤◌, ◌≡◌, refl, arith, List, [], ◌∷◌, ◌++◌, length,
  length-append, take, take-length_append, ltb, false, if◌then◌else◌, ◌==◌, All,
}
use mkgo.Common.Bytes.{IsByte, make_bytes_add, copy-make_bytes}
use mkgo.Net.Base.{ok, IsIp4, be16_back}
use mkgo.Net.Checksum.{checksum}
use mkgo.Net.Checksum.Laws.{word_sum, word_sum-le, checksum-lt, checksum_verifies}
use mkgo.Net.Ip.{
  Ip4Packet, parse_ip4, build_ip4, IcmpPacket, parse_icmp, build_icmp, build_echo_reply,
}

-- A length of eight and more.
abbrev past8 : ℕ → ℕ
past8 n = suc (suc (suc (suc (suc (suc (suc (suc n)))))))

past8_fits : (n : ℕ) → ltb (past8 n) 8 ≡ false
past8_fits n = ground arith

-- A checksum written into the zeroed bytes 2 and 3 makes the message sum to zero.
icmp_verifies :
    (t c : ℕ) (rest : List ℕ)
    → IsByte t
    → IsByte c
    → word_sum rest + 131072 < 4294967296
    → let k = checksum (t ∷ c ∷ 0 ∷ 0 ∷ rest) in
      checksum (t ∷ c ∷ k / 256 % 256 ∷ k % 256 ∷ rest) ≡ 0
icmp_verifies t c rest ht hc h =
    checksum_verifies (t ∷ c ∷ 0 ∷ 0 ∷ rest) _ (omega arith)
      (omega (arith, checksum-lt (t ∷ c ∷ 0 ∷ 0 ∷ rest)))

-- The fields of an ICMP message are machine words.
pub record IsIcmp (c : IcmpPacket) : Type 0 where
  pub type_byte : IsByte c.type
  pub code_byte : IsByte c.code
  pub id_word : c.id < 65536
  pub seq_word : c.seq < 65536
  pub data_bytes : All IsByte c.payload
  pub data_fits : length c.payload ≤ 65000

abbrev icmp_rest : IcmpPacket → List ℕ
icmp_rest c = c.id / 256 % 256 ∷ c.id % 256 ∷ c.seq / 256 % 256 ∷ c.seq % 256 ∷ c.payload

icmp_rest_fits : (c : IcmpPacket) → IsIcmp c → word_sum (icmp_rest c) + 131072 < 4294967296
icmp_rest_fits c h = omega (arith, word_sum-le c.payload h.data_bytes)

-- `ParseICMP` returns the message that `Build` was given, the checksum having been verified.
pub parse_icmp-build_icmp : (c : IcmpPacket) → IsIcmp c → parse_icmp (build_icmp c) ≡ ok c
unfolding parse_icmp build_icmp
parse_icmp-build_icmp c h =
    let sums =
      icmp_verifies c.type c.code (icmp_rest c) h.type_byte h.code_byte (icmp_rest_fits c h) in
    rw (make_bytes_add 8 (length c.payload)) (
      rw (copy-make_bytes c.payload) (
        rw (past8_fits (length c.payload), sums)
          (rw (be16_back c.id h.id_word, be16_back c.seq h.seq_word) refl)))

-- The reply to an echo request with fields of machine size and at most 65000 bytes of data parses,
-- its checksum accepted, and carries the request's identifier, number and data.
pub parse_icmp-build_echo_reply :
    (req : IcmpPacket)
    → IsIcmp req
    → parse_icmp (build_echo_reply req) ≡ ok (record req { type = 0; code = 0 })
unfolding build_echo_reply
parse_icmp-build_echo_reply req h =
    parse_icmp-build_icmp (record req { type = 0; code = 0 })
      (record {
        type_byte = omega arith;
        code_byte = omega arith;
        id_word = h.id_word;
        seq_word = h.seq_word;
        data_bytes = h.data_bytes;
        data_fits = h.data_fits;
      })

-- The fields of a datagram are machine words, and its payload is short enough to be sent.
pub record IsIp4Packet (p : Ip4Packet) : Type 0 where
  pub src_bytes : IsIp4 p.src
  pub dst_bytes : IsIp4 p.dst
  pub proto_byte : IsByte p.proto
  pub ttl_byte : IsByte p.ttl
  pub fits : length p.payload ≤ 1492

-- `Build` turns a zero TTL into 64.
abbrev pub sent_ttl : ℕ → ℕ
sent_ttl ttl = if ttl == 0 then 64 else ttl

-- The header without its checksum, and with the two checksum bytes `x` and `y`.
abbrev ip4_words : Ip4Packet → ℕ → ℕ → List ℕ
ip4_words p x y =
    let total : ℕ = (20 + length p.payload) % 65536 in
    0x45
    ∷ 0
    ∷ total / 256 % 256
    ∷ total % 256
    ∷ 0
    ∷ 0
    ∷ 0x40
    ∷ 0
    ∷ sent_ttl p.ttl
    ∷ p.proto
    ∷ x
    ∷ y
    ∷ p.src.a0
    ∷ p.src.a1
    ∷ p.src.a2
    ∷ p.src.a3
    ∷ p.dst.a0
    ∷ p.dst.a1
    ∷ p.dst.a2
    ∷ p.dst.a3
    ∷ []

abbrev ip4_sum : Ip4Packet → ℕ
ip4_sum p = checksum (ip4_words p 0 0)

abbrev ip4_wire : Ip4Packet → List ℕ
ip4_wire p = ip4_words p (ip4_sum p / 256 % 256) (ip4_sum p % 256)

sent_ttl-IsByte : (ttl : ℕ) → IsByte ttl → IsByte (sent_ttl ttl)
sent_ttl-IsByte ttl h = ground arith

ip4_words_fit : (p : Ip4Packet) → IsIp4Packet p → word_sum (ip4_words p 0 0) < 655360
ip4_words_fit p h = omega (arith, sent_ttl-IsByte p.ttl h.ttl_byte)

ip4_verifies : (p : Ip4Packet) → IsIp4Packet p → checksum (ip4_wire p) ≡ 0
ip4_verifies p h =
    let fits = ip4_words_fit p h in
    checksum_verifies (ip4_words p 0 0) (ip4_wire p) (omega arith)
      (omega (arith, checksum-lt (ip4_words p 0 0)))

build_ip4-wire : (p : Ip4Packet) → IsIp4Packet p → build_ip4 p ≡ ok (ip4_wire p ++ p.payload)
unfolding build_ip4
build_ip4-wire p h =
    rw (short, make_bytes_add 20 (length p.payload)) (rw (copy-make_bytes p.payload) refl)
  where
    short : ltb 1492 (length p.payload) ≡ false
    short = ground (arith, h.fits)

-- A length of twenty and more.
abbrev past20 : ℕ → ℕ
past20 n = past8 (past8 (suc (suc (suc (suc n)))))

past20_fits : (n : ℕ) → ltb (past20 n) 20 ≡ false
past20_fits n = ground arith

at_least20 : (n : ℕ) → ltb (20 + n) 20 ≡ false
at_least20 n = ground arith

past20_total : (xs pad : List ℕ) → ltb (past20 (length (xs ++ pad))) (20 + length xs) ≡ false
past20_total xs pad = ground (arith, length-append xs pad)

cut20 : (xs pad : List ℕ) → take (20 + length xs - 20) (xs ++ pad) ≡ xs
cut20 xs pad =
    let e : 20 + length xs - 20 ≡ length xs = omega arith in rw e (take-length_append xs pad)

parse_ip4-wire :
    (p : Ip4Packet) (pad : List ℕ)
    → IsIp4Packet p
    → parse_ip4 (ip4_wire p ++ (p.payload ++ pad)) ≡ ok (record p { ttl = sent_ttl p.ttl })
unfolding parse_ip4
parse_ip4-wire p pad h =
    let n = length p.payload in
    let total : (20 + n) % 65536 / 256 % 256 * 256 + (20 + n) % 65536 % 256 ≡ 20 + n =
      omega arith in
    rw (ip4_verifies p h, total)
      (rw (past20_fits (length (p.payload ++ pad)), past20_total p.payload pad, at_least20 n)
        (rw (cut20 p.payload pad) refl))

-- `Build` accepts a datagram whose fields are bytes and whose payload fits the MTU, and `ParseIP4`
-- returns it from the wire, with a TTL of 64 for zero, and with whatever padding follows it in the
-- frame cut off.
pub parse_ip4-build_ip4 :
    (p : Ip4Packet)
    → IsIp4Packet p
    → (out : List ℕ) × (build_ip4 p ≡ ok out)
      × ((pad : List ℕ) → parse_ip4 (out ++ pad) ≡ ok (record p { ttl = sent_ttl p.ttl }))
parse_ip4-build_ip4 p h = (
  ip4_wire p ++ p.payload,
  build_ip4-wire p h,
  λ pad. rw (append_assoc (ip4_wire p) p.payload pad) (parse_ip4-wire p pad h),
)
