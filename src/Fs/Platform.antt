-- ===== src/Fs/Platform.antt =====
-- The interface `BlockDev` of services/fs/fat16.go, with the checksum of Go's hash/crc32: what the
-- file system takes from outside, and what is assumed of a device without faults.
use mkgo.Common.{ℕ, ◌+◌, ◌*◌, ◌≤◌, ◌<◌, ◌≡◌, Bool, true, List, length, Option, some}
use mkgo.Net.Ring.{load_bytes, store_bytes}

-- `read` is `none` where the device fails. `write` says whether it succeeded, and what it left.
pub record Platform : Type 1 where
  pub Disk : Type 0
  pub block_size : Disk → ℕ
  pub num_blocks : Disk → ℕ
  pub read : ℕ → Disk → Option (List ℕ)
  pub write : ℕ → List ℕ → Disk → Bool × Disk
  pub crc32 : List ℕ → ℕ

-- A device of sectors of 512 bytes that keeps what is written, seen as one array of bytes. A write
-- may cover several sectors, as `Write` documents.
pub record IsFaultless (p : Platform) : Type 0 where
  pub bytes : p.Disk → ℕ → ℕ
  pub read_within :
      (d : p.Disk) (lba : ℕ)
      → lba < p.num_blocks d
      → p.read lba d ≡ some (load_bytes (lba * 512) 512 (bytes d))
  pub write_within :
      (d : p.Disk) (lba m : ℕ) (b : List ℕ)
      → length b ≡ m * 512
      → lba + m ≤ p.num_blocks d
      → ((p.write lba b d).0 ≡ true)
        × (p.num_blocks (p.write lba b d).1 ≡ p.num_blocks d)
        × (p.block_size (p.write lba b d).1 ≡ p.block_size d)
        × (bytes (p.write lba b d).1 ≡ store_bytes (lba * 512) b (bytes d))
  pub crc32_range : (b : List ℕ) → p.crc32 b < 4294967296
