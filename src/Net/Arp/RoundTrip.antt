-- ===== src/Net/Arp/RoundTrip.antt =====
-- ARP packets come back as built, and the cache answers with the latest binding.
use mkgo.Common.{◌<◌, ◌≡◌, refl, arith, [], ◌∷◌, if◌then◌else◌, some}
use mkgo.Net.Base.{ok, Mac, Ip4, ip4_eq, be16_back}
use mkgo.Net.Arp.{ArpPacket, parse_arp, build_arp, ArpCache, arp_lookup, arp_update}

-- `ParseARP` reads back every packet that `Build` writes, when its operation is a 16-bit number.
pub parse_arp-build_arp : (a : ArpPacket) → a.oper < 65536 → parse_arp (build_arp a) ≡ ok a
unfolding parse_arp build_arp
parse_arp-build_arp a h = rw (be16_back a.oper h) refl

-- After `Update`, `Lookup` finds the new address for the updated host, and for any other host what it
-- found before.
pub arp_lookup-arp_update :
    (ip j : Ip4) (mac : Mac) (c : ArpCache)
    → arp_lookup j (arp_update ip mac c) ≡ (if ip4_eq ip j then some mac else arp_lookup j c)
unfolding arp_lookup arp_update
arp_lookup-arp_update ip j mac [] = refl
arp_lookup-arp_update ip j mac ((k, m) ∷ c) = ground (arith, arp_lookup-arp_update ip j mac c)
