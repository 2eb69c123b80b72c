-- ===== src/Net/Ip.antt =====
-- IPv4 datagrams and ICMP echo messages (services/net/ip.go).
pub mod RoundTrip
use mkgo.Common.{
  ℕ, ◌+◌, ◌-◌, ◌/◌, ◌%◌, List, length, ltb, ◌==◌, ◌||◌, not, if◌then◌else◌, drop, bit_and, [], ◌∷◌,
}
use mkgo.Common.Bytes.{copy_at, make_bytes, byte_at, slice}
use mkgo.Net.Base.{
  Result, ok, err, short_frame, bad_ipv4, too_big, bad_icmp, Ip4, ip4_bytes, ip4_at, be_put16,
  be_get16,
}
use mkgo.Net.Eth.{eth_payload_m}
use mkgo.Net.Checksum.{checksum}

abbrev pub ip4_hdr_len : ℕ
ip4_hdr_len = 20

abbrev pub ip4_proto_icmp : ℕ
ip4_proto_icmp = 1

abbrev pub ip4_proto_udp : ℕ
ip4_proto_udp = 17

abbrev pub ip4_proto_tcp : ℕ
ip4_proto_tcp = 6

pub record Ip4Packet : Type 0 where
  pub src : Ip4
  pub dst : Ip4
  pub proto : ℕ
  pub ttl : ℕ
  pub payload : List ℕ

unfoldable pub parse_ip4 : List ℕ → Result Ip4Packet
parse_ip4 p =
    let total = be_get16 p 2 in
    if ltb (length p) ip4_hdr_len
    then err short_frame
    else if not (byte_at p 0 / 16 == 4) || not (bit_and (byte_at p 0) 0x0f == 5)
    then err bad_ipv4
    else if ltb total ip4_hdr_len || ltb (length p) total
    then err bad_ipv4
    else if not (bit_and (be_get16 p 6) 0x1fff == 0)
    then err bad_ipv4
    else if not (checksum (slice 0 ip4_hdr_len p) == 0)
    then err bad_ipv4
    else ok (record {
      src = ip4_at p 12;
      dst = ip4_at p 16;
      proto = byte_at p 9;
      ttl = byte_at p 8;
      payload = slice 20 total p;
    })

-- The bytes that `Build` has written before the checksum: the header alone.
abbrev pub ip4_header : Ip4Packet → ℕ → List ℕ → List ℕ
ip4_header p total out =
    let out = copy_at 0 (0x45 ∷ []) out in
    let out = be_put16 2 (total % 65536) out in
    let out = copy_at 6 (0x40 ∷ 0x00 ∷ []) out in
    let out = copy_at 8 ((if p.ttl == 0 then 64 else p.ttl) ∷ []) out in
    let out = copy_at 9 (p.proto ∷ []) out in
    let out = copy_at 12 (ip4_bytes p.src) out in copy_at 16 (ip4_bytes p.dst) out

unfoldable pub build_ip4 : Ip4Packet → Result (List ℕ)
build_ip4 p =
    if ltb (eth_payload_m - ip4_hdr_len) (length p.payload)
    then err too_big
    else let total = ip4_hdr_len + length p.payload in
      let out = ip4_header p total (make_bytes total) in
      let out = be_put16 10 (checksum (slice 0 ip4_hdr_len out)) out in
      ok (copy_at 20 p.payload out)

abbrev pub icmp_echo_reply : ℕ
icmp_echo_reply = 0

abbrev pub icmp_echo_request : ℕ
icmp_echo_request = 8

pub record IcmpPacket : Type 0 where
  pub type : ℕ
  pub code : ℕ
  pub id : ℕ
  pub seq : ℕ
  pub payload : List ℕ  -- `Data`

unfoldable pub parse_icmp : List ℕ → Result IcmpPacket
parse_icmp p =
    if ltb (length p) 8
    then err short_frame
    else if not (checksum p == 0)
    then err bad_icmp
    else ok (record {
      type = byte_at p 0;
      code = byte_at p 1;
      id = be_get16 p 4;
      seq = be_get16 p 6;
      payload = drop 8 p;
    })

unfoldable pub build_icmp : IcmpPacket → List ℕ
build_icmp c =
    let out = make_bytes (8 + length c.payload) in
    let out = copy_at 0 (c.type ∷ []) out in
    let out = copy_at 1 (c.code ∷ []) out in
    let out = be_put16 4 c.id out in
    let out = be_put16 6 c.seq out in
    let out = copy_at 8 c.payload out in be_put16 2 (checksum out) out

-- `BuildEchoReply`.
unfoldable pub build_echo_reply : IcmpPacket → List ℕ
unfolding build_icmp
build_echo_reply req =
    build_icmp (record {
      type = icmp_echo_reply;
      code = 0;
      id = req.id;
      seq = req.seq;
      payload = req.payload;
    })
