-- ===== src/Net/Eth/RoundTrip.antt =====
-- What `parse_eth` reads from a frame that `build_eth` made.
use mkgo.Common.{
  ℕ, suc, ◌+◌, ◌-◌, ◌<◌, ◌≡◌, refl, ap, arith, List, [], ◌∷◌, ◌++◌, length, ltb, false,
  if◌then◌else◌,
}
use mkgo.Common.Bytes.{copy, make_bytes}
use mkgo.Net.Base.{ok, Mac, be16_back}
use mkgo.Net.Eth.{parse_eth, build_eth, eth_hdr_len, eth_min_len}

-- Copying into a longer zeroed slice leaves zeros behind.
copy-make_bytes_longer :
    (src : List ℕ) (k : ℕ) → copy (make_bytes (length src + k)) src ≡ src ++ make_bytes k
copy-make_bytes_longer [] k = let e : 0 + k ≡ k = omega arith in rw e
copy-make_bytes_longer (v ∷ src) k =
    let e : suc (length src) + k ≡ suc (length src + k) = omega arith in
    rw e (ap (λ (l : List ℕ). v ∷ l) (copy-make_bytes_longer src k))

abbrev past_header : ℕ → ℕ
past_header n = suc (suc (suc (suc (suc (suc (suc (suc (suc (suc (suc (suc (suc (suc n)))))))))))))

frame_len :
    (k : ℕ)
    → (if ltb (eth_hdr_len + k) eth_min_len then eth_min_len else eth_hdr_len + k)
      ≡ past_header (k + (46 - k))
frame_len k = ground arith

header_fits : (n : ℕ) → ltb (past_header n) eth_hdr_len ≡ false
header_fits n = ground arith

-- `ParseEth` reads back the addresses, the 16-bit type and the payload that `BuildEth` was given,
-- the payload with the zero bytes that bring a short frame to 60 bytes.
pub parse_eth-build_eth :
    (dst src : Mac) (ethertype : ℕ) (payload : List ℕ)
    → ethertype < 65536
    → parse_eth (build_eth dst src ethertype payload)
      ≡ ok (record {
        dst = dst;
        src = src;
        type = ethertype;
        payload = payload ++ make_bytes (46 - length payload);
      })
unfolding parse_eth build_eth
parse_eth-build_eth dst src ethertype payload h = rw (frame_len (length payload)) (
    rw (header_fits _)
      (rw (be16_back ethertype h, copy-make_bytes_longer payload (46 - length payload)) refl))
