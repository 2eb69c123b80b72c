-- ===== src/Net/Base.antt =====
-- Addresses, big-endian words (services/net/be.go) and the errors of the wire formats.
use mkgo.Common.{ℕ, ◌+◌, ◌*◌, ◌/◌, ◌%◌, ◌<◌, ◌≡◌, arith, List, [], ◌∷◌, Bool, ◌&&◌, ◌==◌}
use mkgo.Common.Bytes.{IsByte, byte_at, copy_at}

-- The package's error values.
pub data NetError : Type 0 where
  short_frame bad_arp bad_ipv4 too_big bad_icmp bad_udp bad_tcp : NetError

-- Go's (value, error) pair.
pub data Result {ℓ} (A : Type ℓ) : Type ℓ where
  ok : A → Result A
  err : NetError → Result A

-- `type MAC [6]byte`.
pub record Mac : Type 0 where
  pub m0 : ℕ
  pub m1 : ℕ
  pub m2 : ℕ
  pub m3 : ℕ
  pub m4 : ℕ
  pub m5 : ℕ

-- `type IP4 [4]byte`.
pub record Ip4 : Type 0 where
  pub a0 : ℕ
  pub a1 : ℕ
  pub a2 : ℕ
  pub a3 : ℕ

abbrev pub mac_bytes : Mac → List ℕ
mac_bytes m = m.m0 ∷ m.m1 ∷ m.m2 ∷ m.m3 ∷ m.m4 ∷ m.m5 ∷ []

abbrev pub ip4_bytes : Ip4 → List ℕ
ip4_bytes a = a.a0 ∷ a.a1 ∷ a.a2 ∷ a.a3 ∷ []

-- `copy(m[:], p[off:off+6])` into a fresh array; the callers have tested the length.
abbrev pub mac_at : List ℕ → ℕ → Mac
mac_at p off = record {
  m0 = byte_at p off;
  m1 = byte_at p (off + 1);
  m2 = byte_at p (off + 2);
  m3 = byte_at p (off + 3);
  m4 = byte_at p (off + 4);
  m5 = byte_at p (off + 5);
}

-- `copy(a[:], p[off:off+4])` into a fresh array.
abbrev pub ip4_at : List ℕ → ℕ → Ip4
ip4_at p off = record {
  a0 = byte_at p off;
  a1 = byte_at p (off + 1);
  a2 = byte_at p (off + 2);
  a3 = byte_at p (off + 3);
}

-- Go's `==` on the arrays.
abbrev pub mac_eq : Mac → Mac → Bool
mac_eq a b =
    a.m0 == b.m0 && a.m1 == b.m1 && a.m2 == b.m2 && a.m3 == b.m3 && a.m4 == b.m4 && a.m5 == b.m5

abbrev pub ip4_eq : Ip4 → Ip4 → Bool
ip4_eq a b = a.a0 == b.a0 && a.a1 == b.a1 && a.a2 == b.a2 && a.a3 == b.a3

abbrev pub zero_ip4 : Ip4
zero_ip4 = record { a0 = 0; a1 = 0; a2 = 0; a3 = 0 }

abbrev pub zero_mac : Mac
zero_mac = record { m0 = 0; m1 = 0; m2 = 0; m3 = 0; m4 = 0; m5 = 0 }

abbrev pub broadcast_mac : Mac
broadcast_mac = record { m0 = 0xff; m1 = 0xff; m2 = 0xff; m3 = 0xff; m4 = 0xff; m5 = 0xff }

-- The elements of the Go arrays are bytes.
pub record IsMac (m : Mac) : Type 0 where
  pub b0 : IsByte m.m0
  pub b1 : IsByte m.m1
  pub b2 : IsByte m.m2
  pub b3 : IsByte m.m3
  pub b4 : IsByte m.m4
  pub b5 : IsByte m.m5

pub record IsIp4 (a : Ip4) : Type 0 where
  pub b0 : IsByte a.a0
  pub b1 : IsByte a.a1
  pub b2 : IsByte a.a2
  pub b3 : IsByte a.a3

-- `BePut16(b[off:off+2], v)` writes two bytes, the high one first.
abbrev pub be_put16 : ℕ → ℕ → List ℕ → List ℕ
be_put16 off v b = copy_at off (v / 256 % 256 ∷ v % 256 ∷ []) b

abbrev pub be_put32 : ℕ → ℕ → List ℕ → List ℕ
be_put32 off v b =
    copy_at off (v / 16777216 % 256 ∷ v / 65536 % 256 ∷ v / 256 % 256 ∷ v % 256 ∷ []) b

-- `BeGet16(b[off:off+2])`. The bits of the two bytes are disjoint, so `|` is `+`.
abbrev pub be_get16 : List ℕ → ℕ → ℕ
be_get16 b off = byte_at b off * 256 + byte_at b (off + 1)

abbrev pub be_get32 : List ℕ → ℕ → ℕ
be_get32 b off =
    byte_at b off * 16777216
    + byte_at b (off + 1) * 65536
    + byte_at b (off + 2) * 256
    + byte_at b (off + 3)

-- A word comes back from its bytes.
pub be16_back : (v : ℕ) → v < 65536 → v / 256 % 256 * 256 + v % 256 ≡ v
be16_back v h = omega arith

pub be32_back :
    (v : ℕ)
    → v < 4294967296
    → v / 16777216 % 256 * 16777216 + v / 65536 % 256 * 65536 + v / 256 % 256 * 256 + v % 256 ≡ v
be32_back v h = omega arith
