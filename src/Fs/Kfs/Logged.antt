-- ===== src/Fs/Kfs/Logged.antt =====
-- What a record that was appended leaves as it was, on the device and in memory.
use mkgo.Common.{ℕ, ◌+◌, ◌*◌, ◌≤◌, ◌<◌, ◌≡◌, inl, inr, sym, ◌∙◌, ap, arith, List, length}
use mkgo.Net.Ring.{Memory, load_bytes}
use mkgo.Net.Ring.Memory.{load_bytes-agree, load_bytes-store_bytes, store_bytes-outside}
use mkgo.Fs.Platform.{Platform, IsFaultless}
use mkgo.Fs.Kfs.Log.{Kfs, frame, superblock}
use mkgo.Fs.Kfs.Append.{Logged}
use mkgo.Fs.Kfs.Replay.{Written, OnDevice}
use mkgo.Fs.Kfs.Recover.{HasSuperblock}

module _ (e : Platform) (F : IsFaultless e) (typ : ℕ) (p : List ℕ) (k k' : Kfs e)
    (g : Logged e F typ p k k') where
  pub Logged-log_end : k'.log_end ≡ k.log_end
  Logged-log_end = ap (λ (x : Kfs e). x.log_end) g.rest

  pub Logged-OnDevice : OnDevice e F k → OnDevice e F k'
  Logged-OnDevice v =
      let same_data : k'.log_data ≡ k.log_data = ap (λ (x : Kfs e). x.log_data) g.rest in
      record {
        blocks = ap (λ (x : Kfs e). x.num_blocks) g.rest ∙ v.blocks ∙ sym g.on_disk.same_blocks;
        log_size =
            Logged-log_end ∙ v.log_size ∙ ap (λ (n : ℕ). n * 512) (sym g.on_disk.same_blocks);
        cached = rw same_data v.cached;
      }

  below : (i : ℕ) → i < k.w_off → F.bytes k'.disk i ≡ F.bytes k.disk i
  below i h =
      ap (λ (f : Memory). f i) g.on_disk.stored
      ∙ store_bytes-outside (frame e typ p) k.w_off (F.bytes k.disk) i (inl h)

  pub Logged-HasSuperblock : 512 ≤ k.w_off → HasSuperblock e F k.disk → HasSuperblock e F k'.disk
  Logged-HasSuperblock h s = record {
    sectors = g.on_disk.same_size ∙ s.sectors;
    some_sector = omega (arith, g.on_disk.same_blocks, s.some_sector);
    first =
        load_bytes-agree 512 0 (F.bytes k'.disk) (F.bytes k.disk) (λ i p q. below i (omega arith))
        ∙ s.first
        ∙ ap (superblock e 512) (sym g.on_disk.same_blocks);
  }

  -- The bytes below the old cursor stay.
  pub Logged-kept :
      (at : ℕ) (b : List ℕ)
      → at + length b ≤ k.w_off
      → Written at b (F.bytes k.disk)
      → Written at b (F.bytes k'.disk)
  Logged-kept at b h w =
      load_bytes-agree (length b) at (F.bytes k'.disk) (F.bytes k.disk)
        (λ i p q. below i (omega arith))
      ∙ w

  -- The frame stands at the old cursor.
  pub Logged-added : Written k.w_off (frame e typ p) (F.bytes k'.disk)
  Logged-added =
      ap (load_bytes k.w_off (length (frame e typ p))) g.on_disk.stored
      ∙ load_bytes-store_bytes (frame e typ p) k.w_off (F.bytes k.disk)

  -- What was blank behind the frame is blank.
  pub Logged-blank :
      ((i : ℕ) → k.w_off ≤ i → F.bytes k.disk i ≡ 0)
      → (i : ℕ) → k'.w_off ≤ i
      → F.bytes k'.disk i ≡ 0
  Logged-blank blank i h =
      ap (λ (f : Memory). f i) g.on_disk.stored
      ∙ store_bytes-outside (frame e typ p) k.w_off (F.bytes k.disk) i
          (inr (omega (arith, g.cursor)))
      ∙ blank i (omega (arith, g.cursor))
