-- ===== src/Net/Tcp/Segment/RoundTrip.antt =====
-- Segments come back as built, checksummed or not; the order of sequence numbers.
use mkgo.Common.{
  ℕ, suc, ◌/◌, ◌%◌, ◌<◌, ◌≤◌, ◌≡◌, refl, arith, List, ◌∷◌, length, ltb, false, bit_and, All,
}
use mkgo.Common.Bytes.{IsByte, make_bytes_add, copy-make_bytes}
use mkgo.Common.Bits.{bit_and-0x1f}
use mkgo.Net.Base.{ok, Ip4, IsIp4, be16_back, be32_back}
use mkgo.Net.Checksum.{transport_checksum}
use mkgo.Net.Checksum.Laws.{word_sum-le}
use mkgo.Net.Checksum.Transport.{transport_verifies, transport_checksum-lt}
use mkgo.Net.Tcp.Segment.{TcpSegment, parse_tcp, build_tcp, sum_segment, seq_gt, add32}

pub record IsTcp (t : TcpSegment) : Type 0 where
  pub src_word : t.src_port < 65536
  pub dst_word : t.dst_port < 65536
  pub seq_word : t.seq < 4294967296
  pub ack_word : t.ack < 4294967296
  pub flag_bits : t.flags < 32
  pub window_word : t.window < 65536

-- The segment with the checksum bytes `x` and `y`.
abbrev tcp_wire : TcpSegment → ℕ → ℕ → List ℕ
tcp_wire t x y =
    t.src_port / 256 % 256
    ∷ t.src_port % 256
    ∷ t.dst_port / 256 % 256
    ∷ t.dst_port % 256
    ∷ t.seq / 16777216 % 256
    ∷ t.seq / 65536 % 256
    ∷ t.seq / 256 % 256
    ∷ t.seq % 256
    ∷ t.ack / 16777216 % 256
    ∷ t.ack / 65536 % 256
    ∷ t.ack / 256 % 256
    ∷ t.ack % 256
    ∷ 80
    ∷ bit_and t.flags 0x1f
    ∷ t.window / 256 % 256
    ∷ t.window % 256
    ∷ x
    ∷ y
    ∷ 0
    ∷ 0
    ∷ t.payload

build_tcp-wire : (t : TcpSegment) → build_tcp t ≡ tcp_wire t 0 0
unfolding build_tcp
build_tcp-wire t = rw (make_bytes_add 20 (length t.payload)) (rw (copy-make_bytes t.payload) refl)

abbrev past20 : ℕ → ℕ
past20 n = suc (
    suc (
      suc (
        suc (
          suc (
            suc (
              suc (
                suc (suc (suc (suc (suc (suc (suc (suc (suc (suc (suc (suc (suc n)))))))))))))))))))

past20_fits : (n : ℕ) → ltb (past20 n) 20 ≡ false
past20_fits n = ground arith

flags_back : (f : ℕ) → f < 32 → bit_and (bit_and f 0x1f) 0x1f ≡ f
flags_back f h =
    let e : bit_and f 0x1f ≡ f = rw (bit_and-0x1f f (omega arith)) (omega arith) in rw (e, e)

parse_tcp-wire : (t : TcpSegment) (x y : ℕ) → IsTcp t → parse_tcp (tcp_wire t x y) ≡ ok t
unfolding parse_tcp
parse_tcp-wire t x y h =
    rw (past20_fits (length t.payload), flags_back t.flags h.flag_bits)
      (rw (be16_back t.src_port h.src_word, be16_back t.dst_port h.dst_word)
        (rw
          (be32_back t.seq h.seq_word, be32_back t.ack h.ack_word, be16_back t.window h.window_word)
          refl))

-- `ParseTCP` returns the segment that `Build` was given, for fields of machine size and the five
-- flags, after `SendTCPSegment` has written the checksum between any two addresses.
pub parse_tcp-sum_segment :
    (t : TcpSegment) (src dst : Ip4)
    → IsTcp t
    → parse_tcp (sum_segment src dst (build_tcp t)) ≡ ok t
unfolding sum_segment
parse_tcp-sum_segment t src dst h = rw (build_tcp-wire t) (parse_tcp-wire t _ _ h)

-- The segment that `SendTCPSegment` sends sums to zero at a receiver that checks it, for fields of
-- machine size and a payload of at most 65515 bytes.
pub sum_segment_verifies :
    (t : TcpSegment) (src dst : Ip4)
    → IsTcp t
    → All IsByte t.payload
    → length t.payload ≤ 65515
    → IsIp4 src
    → IsIp4 dst
    → transport_checksum src dst 6 (sum_segment src dst (build_tcp t)) ≡ 0
unfolding sum_segment
sum_segment_verifies t src dst h bytes fits hs hd =
    let bare = tcp_wire t 0 0 in
    let k = transport_checksum src dst 6 bare in
    let sums = word_sum-le t.payload bytes in
    let small = transport_checksum-lt src dst 6 bare in
    let flag_byte = bit_and-0x1f t.flags (omega (arith, h.flag_bits)) in
    rw (build_tcp-wire t) (
      transport_verifies src dst 6 bare (tcp_wire t (k / 256 % 256) (k % 256)) refl
        (omega (arith, h.flag_bits)) hs hd (omega arith) (omega arith))

-- For distances below 2^31, `seqGT` is the order of the distances: `a + i` is after `a + j`
-- exactly when `i` is greater than `j`, wrap-around included.
pub seq_gt-add32 :
    (a i j : ℕ)
    → a < 4294967296
    → i < 2147483648
    → j < 2147483648
    → seq_gt (add32 a i) (add32 a j) ≡ ltb j i
unfolding seq_gt
seq_gt-add32 a i j ha hi hj = ground arith
