-- ===== src/Net/Tcp/Segment.antt =====
-- The segment format and modular sequence arithmetic of services/net/tcp.go, and the checksum
-- that `Stack.SendTCPSegment` of services/net/netstack.go writes into a segment.
pub mod RoundTrip
use mkgo.Common.{
  ℕ, ◌+◌, ◌-◌, ◌*◌, ◌/◌, ◌%◌, List, [], ◌∷◌, length, ltb, ◌==◌, ◌&&◌, ◌||◌, if◌then◌else◌, drop,
  bit_and, Bool, not,
}
use mkgo.Common.Bytes.{copy_at, make_bytes, byte_at}
use mkgo.Net.Base.{
  Result, ok, err, short_frame, bad_tcp, Ip4, be_put16, be_put32, be_get16, be_get32,
}
use mkgo.Net.Checksum.{transport_checksum}

abbrev pub tcp_hdr_len : ℕ
tcp_hdr_len = 20

abbrev pub tcp_fin : ℕ
tcp_fin = 1

abbrev pub tcp_syn : ℕ
tcp_syn = 2

abbrev pub tcp_rst : ℕ
tcp_rst = 4

abbrev pub tcp_psh : ℕ
tcp_psh = 8

abbrev pub tcp_ack : ℕ
tcp_ack = 16

-- `uint32` addition and subtraction.
abbrev pub u32 : ℕ
u32 = 4294967296

abbrev pub add32 : ℕ → ℕ → ℕ
add32 a b = (a + b) % u32

abbrev pub sub32 : ℕ → ℕ → ℕ
sub32 a b = (a + u32 - b) % u32

pub record TcpSegment : Type 0 where
  pub src_port : ℕ
  pub dst_port : ℕ
  pub seq : ℕ
  pub ack : ℕ
  pub flags : ℕ
  pub window : ℕ
  pub payload : List ℕ

unfoldable pub parse_tcp : List ℕ → Result TcpSegment
parse_tcp p =
    let off = byte_at p 12 / 16 * 4 in
    if ltb (length p) tcp_hdr_len
    then err short_frame
    else if ltb off tcp_hdr_len || ltb (length p) off
    then err bad_tcp
    else ok (record {
      src_port = be_get16 p 0;
      dst_port = be_get16 p 2;
      seq = be_get32 p 4;
      ack = be_get32 p 8;
      flags = bit_and (byte_at p 13) 0x1f;
      window = be_get16 p 14;
      payload = drop off p;
    })

unfoldable pub build_tcp : TcpSegment → List ℕ
build_tcp t =
    let out = make_bytes (tcp_hdr_len + length t.payload) in
    let out = be_put16 0 t.src_port out in
    let out = be_put16 2 t.dst_port out in
    let out = be_put32 4 t.seq out in
    let out = be_put32 8 t.ack out in
    let out = copy_at 12 (80 ∷ []) out in
    let out = copy_at 13 (bit_and t.flags 0x1f ∷ []) out in
    let out = be_put16 14 t.window out in copy_at 20 t.payload out

-- What `SendTCPSegment` hands to IPv4: the segment with its checksum written to bytes 16 and 17.
unfoldable pub sum_segment : Ip4 → Ip4 → List ℕ → List ℕ
sum_segment ip dst_ip seg = be_put16 16 (transport_checksum ip dst_ip 6 seg) seg

-- `int32(a-b) > 0`.
unfoldable pub seq_gt : ℕ → ℕ → Bool
seq_gt a b = ltb 0 (sub32 a b) && ltb (sub32 a b) 2147483648

unfoldable pub seq_ge : ℕ → ℕ → Bool
unfolding seq_gt
seq_ge a b = a == b || seq_gt a b

-- `flags&bits != 0`.
abbrev pub has : ℕ → ℕ → Bool
has flags bits = not (bit_and flags bits == 0)
