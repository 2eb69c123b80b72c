-- ===== src/Net/Eth.antt =====
-- Ethernet II frames (services/net/eth.go).
pub mod RoundTrip
use mkgo.Common.{ℕ, zero, suc, ◌+◌, List, length, ltb, if◌then◌else◌, drop}
use mkgo.Common.Bytes.{copy_at, make_bytes}
use mkgo.Net.Base.{Result, ok, err, short_frame, Mac, mac_bytes, mac_at, be_put16, be_get16}

abbrev pub eth_hdr_len : ℕ
eth_hdr_len = 14

abbrev pub eth_min_len : ℕ
eth_min_len = 60

-- `MaxFrame - EthHdrLen`, with the slot size of services/net/packet.go.
abbrev pub eth_payload_m : ℕ
eth_payload_m = 1512

abbrev pub eth_type_arp : ℕ
eth_type_arp = 0x0806

abbrev pub eth_type_ipv4 : ℕ
eth_type_ipv4 = 0x0800

pub record EthFrame : Type 0 where
  pub dst : Mac
  pub src : Mac
  pub type : ℕ
  pub payload : List ℕ

unfoldable pub parse_eth : List ℕ → Result EthFrame
parse_eth raw =
    if ltb (length raw) eth_hdr_len
    then err short_frame
    else ok (record {
      dst = mac_at raw 0;
      src = mac_at raw 6;
      type = be_get16 raw 12;
      payload = drop 14 raw;
    })

-- The frame is padded to 60 bytes.
unfoldable pub build_eth : Mac → Mac → ℕ → List ℕ → List ℕ
build_eth dst src ethertype payload =
    let n = eth_hdr_len + length payload in
    let n' = if ltb n eth_min_len then eth_min_len else n in
    let out = make_bytes n' in
    let out = copy_at 0 (mac_bytes dst) out in
    let out = copy_at 6 (mac_bytes src) out in
    let out = be_put16 12 ethertype out in copy_at 14 payload out
