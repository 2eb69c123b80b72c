-- ===== src/Net/Checksum.antt =====
-- The Internet checksum (`Checksum` of services/net/ip.go, and its copies in udp.go and
-- netstack.go).
pub mod Laws
pub mod Transport
use mkgo.Net.Base.{Ip4, ip4_bytes}
use mkgo.Common.{
  ℕ, zero, suc, ◌+◌, ◌-◌, ◌*◌, ◌/◌, ◌%◌, List, [], ◌∷◌, ◌++◌, ltb, ◌==◌, length, if◌then◌else◌,
}

-- `sum += uint32(BeGet16(b[i:]))` over the pairs, and the odd byte as a high byte: uint32 addition
-- wraps.
unfoldable pub sum_words : ℕ → List ℕ → ℕ
sum_words sum [] = sum
sum_words sum (hi ∷ []) = (sum + hi * 256) % 4294967296
sum_words sum (hi ∷ lo ∷ b) = sum_words ((sum + (hi * 256 + lo)) % 4294967296) b

-- `for sum>>16 != 0 { sum = sum&0xffff + sum>>16 }`; `fold_sum-lt` proves that three rounds reach
-- the end of the loop on every uint32.
unfoldable pub fold_loop : ℕ → ℕ → ℕ
fold_loop zero sum = sum
fold_loop (suc fuel) sum =
    let rest = fold_loop fuel (sum % 65536 + sum / 65536) in
    if ltb 0 (sum / 65536) then rest else sum

unfoldable pub fold_sum : ℕ → ℕ
unfolding fold_loop
fold_sum sum = fold_loop 3 sum

-- `^uint16(sum)` of the folded sum.
unfoldable pub checksum : List ℕ → ℕ
checksum b = 65535 - fold_sum (sum_words 0 b) % 65536

-- `if len(buf)%2 != 0 { buf = append(buf, 0) }`.
abbrev pub pad_even : List ℕ → List ℕ
pad_even b = if length b % 2 == 0 then b else b ++ 0 ∷ []

-- The twelve bytes that stand for the IPv4 header in a transport checksum.
abbrev pub pseudo_header : Ip4 → Ip4 → ℕ → ℕ → List ℕ
pseudo_header src dst proto len =
    ip4_bytes src ++ (ip4_bytes dst ++ 0 ∷ proto ∷ len / 256 % 256 ∷ len % 256 ∷ [])

-- The transport checksum: the IPv4 pseudo-header and the segment, padded to whole words, are
-- summed, folded and complemented (`UDPDatagram.Build`, `Stack.SendTCPSegment`).
unfoldable pub transport_checksum : Ip4 → Ip4 → ℕ → List ℕ → ℕ
transport_checksum src dst proto seg =
    let head = pseudo_header src dst proto (length seg % 65536) in
    65535 - fold_sum (sum_words 0 (pad_even (head ++ seg))) % 65536
