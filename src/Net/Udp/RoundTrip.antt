-- ===== src/Net/Udp/RoundTrip.antt =====
-- Segments come back as built, and carry a checksum that their receiver accepts.
use mkgo.Common.{
  ℕ, suc, ◌+◌, ◌-◌, ◌*◌, ◌/◌, ◌%◌, ◌<◌, ◌≤◌, ◌≡◌, refl, arith, List, ◌∷◌, ◌++◌, length,
  length-append, take, take-length_append, ltb, ◌&&◌, false, true, Bool, All, Bool-cases, inl, inr,
}
use mkgo.Common.Bytes.{IsByte, make_bytes_add, copy-make_bytes}
use mkgo.Net.Base.{ok, IsIp4, be16_back, zero_ip4, ip4_eq}
use mkgo.Net.Checksum.{transport_checksum}
use mkgo.Net.Checksum.Laws.{word_sum-le}
use mkgo.Net.Checksum.Transport.{transport_verifies, transport_checksum-lt}
use mkgo.Net.Udp.{UdpDatagram, parse_udp, build_udp}

pub record IsUdp (d : UdpDatagram) : Type 0 where
  pub src_word : d.src_port < 65536
  pub dst_word : d.dst_port < 65536
  pub fits : length d.payload ≤ 65527

-- The segment with the checksum bytes `x` and `y`.
abbrev udp_wire : UdpDatagram → ℕ → ℕ → List ℕ
udp_wire d x y =
    let total : ℕ = (8 + length d.payload) % 65536 in
    d.src_port / 256 % 256
    ∷ d.src_port % 256
    ∷ d.dst_port / 256 % 256
    ∷ d.dst_port % 256
    ∷ total / 256 % 256
    ∷ total % 256
    ∷ x
    ∷ y
    ∷ d.payload

abbrev skips_checksum : UdpDatagram → Bool
skips_checksum d = ip4_eq d.checksum_src zero_ip4 && ip4_eq d.checksum_dst zero_ip4

build_udp-wire_plain : (d : UdpDatagram) → skips_checksum d ≡ true → build_udp d ≡ udp_wire d 0 0
unfolding build_udp
build_udp-wire_plain d e =
    rw e (rw (make_bytes_add 8 (length d.payload)) (rw (copy-make_bytes d.payload) refl))

build_udp-wire_summed :
    (d : UdpDatagram)
    → skips_checksum d ≡ false
    → let k = transport_checksum d.checksum_src d.checksum_dst 17 (udp_wire d 0 0) in
      build_udp d ≡ udp_wire d (k / 256 % 256) (k % 256)
unfolding build_udp
build_udp-wire_summed d e =
    rw e (rw (make_bytes_add 8 (length d.payload)) (rw (copy-make_bytes d.payload) refl))

abbrev past8 : ℕ → ℕ
past8 n = suc (suc (suc (suc (suc (suc (suc (suc n)))))))

past8_fits : (n : ℕ) → ltb (past8 n) 8 ≡ false
past8_fits n = ground arith

at_least8 : (n : ℕ) → ltb (8 + n) 8 ≡ false
at_least8 n = ground arith

past8_total : (xs pad : List ℕ) → ltb (past8 (length (xs ++ pad))) (8 + length xs) ≡ false
past8_total xs pad = ground (arith, length-append xs pad)

cut8 : (xs pad : List ℕ) → take (8 + length xs - 8) (xs ++ pad) ≡ xs
cut8 xs pad =
    let e : 8 + length xs - 8 ≡ length xs = omega arith in rw e (take-length_append xs pad)

parse_udp-wire :
    (d : UdpDatagram) (x y : ℕ) (pad : List ℕ)
    → IsUdp d
    → parse_udp (udp_wire d x y ++ pad)
      ≡ ok (record d { checksum_src = zero_ip4; checksum_dst = zero_ip4 })
unfolding parse_udp
parse_udp-wire d x y pad h =
    let n = length d.payload in
    let total : (8 + n) % 65536 / 256 % 256 * 256 + (8 + n) % 65536 % 256 ≡ 8 + n =
      omega (arith, h.fits) in
    rw total (
      rw (past8_fits (length (d.payload ++ pad)), past8_total d.payload pad, at_least8 n)
        (rw (cut8 d.payload pad, be16_back d.src_port h.src_word, be16_back d.dst_port h.dst_word)
          refl))

-- `ParseUDP` returns the ports and the data that `Build` was given, from a segment with any
-- trailing bytes, whether or not the checksum was computed, for 16-bit ports and at most 65527
-- bytes of data. The pseudo-header endpoints are not on the wire.
pub parse_udp-build_udp :
    (d : UdpDatagram) (pad : List ℕ)
    → IsUdp d
    → parse_udp (build_udp d ++ pad)
      ≡ ok (record d { checksum_src = zero_ip4; checksum_dst = zero_ip4 })
parse_udp-build_udp d pad h = elim (Bool-cases (skips_checksum d)) [
  | inl e ↦ rw (build_udp-wire_plain d e) (parse_udp-wire d 0 0 pad h)
  | inr e ↦ rw (build_udp-wire_summed d e) (parse_udp-wire d _ _ pad h)
]

-- For 16-bit ports, at most 65527 bytes of data and endpoints that are not both the zero address,
-- the segment that `Build` makes sums to zero at a receiver that checks it.
pub build_udp_verifies :
    (d : UdpDatagram)
    → IsUdp d
    → All IsByte d.payload
    → IsIp4 d.checksum_src
    → IsIp4 d.checksum_dst
    → skips_checksum d ≡ false
    → transport_checksum d.checksum_src d.checksum_dst 17 (build_udp d) ≡ 0
build_udp_verifies d h bytes hs hd e =
    let bare = udp_wire d 0 0 in
    let k = transport_checksum d.checksum_src d.checksum_dst 17 bare in
    let sums = word_sum-le d.payload bytes in
    let small = transport_checksum-lt d.checksum_src d.checksum_dst 17 bare in
    rw (build_udp-wire_summed d e) (
      transport_verifies d.checksum_src d.checksum_dst 17 bare
        (udp_wire d (k / 256 % 256) (k % 256)) refl (omega (arith, h.fits)) hs hd (omega arith)
        (omega arith))
