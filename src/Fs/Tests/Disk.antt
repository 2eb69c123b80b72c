-- ===== src/Fs/Tests/Disk.antt =====
-- A disk in memory as `RamDisk` of services/fs/block.go is one, for the tests.
use mkgo.Common.{
  ℕ, ◌+◌, ◌*◌, ◌/◌, ◌%◌, ◌≤◌, ◌<◌, ◌≡◌, refl, arith, Bool, true, false, ◌&&◌, List, length, ltb,
  leb, ◌==◌, if◌then◌else◌, none, some,
}
use mkgo.Net.Ring.{Memory, load_bytes, store_bytes}
use mkgo.Fs.Platform.{Platform, IsFaultless}

-- A disk of so many sectors, with its bytes.
abbrev pub RamDisk : Type 0
RamDisk = ℕ × Memory

abbrev fits : ℕ → List ℕ → RamDisk → Bool
fits lba b d = length b % 512 == 0 && leb (lba + length b / 512) d.0

abbrev pub ram : Platform
ram = record {
  Disk = RamDisk;
  block_size = λ d. 512;
  num_blocks = λ d. d.0;
  read = λ lba d. if ltb lba d.0 then some (load_bytes (lba * 512) 512 d.1) else none;
  write =
      λ lba b d. if fits lba b d then (true, (d.0, store_bytes (lba * 512) b d.1)) else (false, d);
  crc32 = λ b. length b % 4294967296;
}

pub ram_read :
    (d : RamDisk) (lba : ℕ) → lba < d.0 → ram.read lba d ≡ some (load_bytes (lba * 512) 512 d.1)
ram_read d lba h = let t : ltb lba d.0 ≡ true = ground arith in rw t refl

pub ram_write :
    (d : RamDisk) (lba m : ℕ) (b : List ℕ)
    → length b ≡ m * 512
    → lba + m ≤ d.0
    → ((ram.write lba b d).0 ≡ true)
      × ((ram.write lba b d).1.0 ≡ d.0)
      × (◌≡◌ {A = ℕ} 512 512)
      × ((ram.write lba b d).1.1 ≡ store_bytes (lba * 512) b d.1)
ram_write d lba m b h k =
    let t : fits lba b d ≡ true = ground arith in rw t (refl, refl, refl, refl)

pub ram_crc32 : (b : List ℕ) → length b % 4294967296 < 4294967296
ram_crc32 b = omega arith

abbrev pub ram_faultless : IsFaultless ram
ram_faultless = record {
  bytes = λ d. d.1;
  read_within = ram_read;
  write_within = ram_write;
  crc32_range = ram_crc32;
}
