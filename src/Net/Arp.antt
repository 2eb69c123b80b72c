-- ===== src/Net/Arp.antt =====
-- ARP packets and the address cache (services/net/arp.go).
pub mod RoundTrip
use mkgo.Common.{
  ℕ, ◌+◌, List, [], ◌∷◌, length, ltb, ◌==◌, ◌||◌, not, if◌then◌else◌, Option, none, some,
}
use mkgo.Common.Bytes.{copy_at, make_bytes, byte_at}
use mkgo.Net.Base.{
  Result, ok, err, short_frame, bad_arp, Mac, Ip4, mac_bytes, mac_at, ip4_bytes, ip4_at, ip4_eq,
  be_put16, be_get16,
}

abbrev pub arp_hw_ether : ℕ
arp_hw_ether = 1

abbrev pub arp_proto_ipv4 : ℕ
arp_proto_ipv4 = 0x0800

abbrev pub arp_len : ℕ
arp_len = 28

abbrev pub arp_op_request : ℕ
arp_op_request = 1

abbrev pub arp_op_reply : ℕ
arp_op_reply = 2

pub record ArpPacket : Type 0 where
  pub oper : ℕ
  pub src_mac : Mac
  pub src_ip : Ip4
  pub dst_mac : Mac
  pub dst_ip : Ip4

unfoldable pub parse_arp : List ℕ → Result ArpPacket
parse_arp p =
    if ltb (length p) arp_len
    then err short_frame
    else if not (be_get16 p 0 == arp_hw_ether)
        || not (be_get16 p 2 == arp_proto_ipv4)
        || not (byte_at p 4 == 6)
        || not (byte_at p 5 == 4)
    then err bad_arp
    else ok (record {
      oper = be_get16 p 6;
      src_mac = mac_at p 8;
      src_ip = ip4_at p 14;
      dst_mac = mac_at p 18;
      dst_ip = ip4_at p 24;
    })

unfoldable pub build_arp : ArpPacket → List ℕ
build_arp a =
    let p = make_bytes arp_len in
    let p = be_put16 0 arp_hw_ether p in
    let p = be_put16 2 arp_proto_ipv4 p in
    let p = copy_at 4 (6 ∷ 4 ∷ []) p in
    let p = be_put16 6 a.oper p in
    let p = copy_at 8 (mac_bytes a.src_mac) p in
    let p = copy_at 14 (ip4_bytes a.src_ip) p in
    let p = copy_at 18 (mac_bytes a.dst_mac) p in copy_at 24 (ip4_bytes a.dst_ip) p

-- The map of the cache. The expiry time is written and never read, so it is left out.
abbrev pub ArpCache : Type 0
ArpCache = List (Ip4 × Mac)

-- `c.m[ip]`.
unfoldable pub arp_lookup : Ip4 → ArpCache → Option Mac
arp_lookup ip [] = none
arp_lookup ip ((k, m) ∷ c) = if ip4_eq k ip then some m else arp_lookup ip c

-- `c.m[ip] = …`.
unfoldable pub arp_update : Ip4 → Mac → ArpCache → ArpCache
arp_update ip mac [] = (ip, mac) ∷ []
arp_update ip mac ((k, m) ∷ c) = if ip4_eq k ip then (k, mac) ∷ c else (k, m) ∷ arp_update ip mac c
