-- ===== src/Blkdev/Transfer.antt =====
-- Which transfers reach a driver.
use obsidian_kernel.Base.{ℕ, ◌+◌, ◌-◌, ◌<◌, ◌≤◌, ◌^◌, true, some, ◌≡◌, ◌≢◌, ◌⊎◌, negsuc, arith}
use obsidian_kernel.Blkdev.{Device, Entry, blk_read, blk_write}

module _ (S : Type 0) where
  -- On a device of known size, a read whose end does not wrap past 2^64 reaches the driver exactly
  -- if it names a sector and a buffer and stays within the device; otherwise it returns -1 and
  -- leaves the machine as it was.
  pub blk_read_checked :
      (d : Device S) (f : Entry S) (lba count buf : ℕ) (s : S)
      → d.read_sectors ≡ some f
      → d.sectors ≢ 0
      → lba + count < 2 ^ 64
      → (count ≢ 0
          → buf ≢ 0
          → lba + count ≤ d.sectors
          → blk_read S (some d) lba count buf s ≡ f lba count buf s)
        × ((count ≡ 0) ⊎ (buf ≡ 0) ⊎ (d.sectors < lba + count)
            → blk_read S (some d) lba count buf s ≡ (negsuc 0, s))
  unfolding blk_read
  blk_read_checked d f lba count buf s e n h = ((λ c b k. grind arith), (λ o. grind arith))

  -- On a writable device of known size with a write entry point, a write whose end does not wrap
  -- past 2^64 reaches the driver exactly if it names a sector and a buffer and stays within the
  -- device; otherwise it returns -1 and leaves the machine as it was.
  pub blk_write_checked :
      (d : Device S) (f : Entry S) (lba count buf : ℕ) (s : S)
      → d.write_sectors ≡ some f
      → d.writable ≡ true
      → d.sectors ≢ 0
      → lba + count < 2 ^ 64
      → (count ≢ 0
          → buf ≢ 0
          → lba + count ≤ d.sectors
          → blk_write S (some d) lba count buf s ≡ f lba count buf s)
        × ((count ≡ 0) ⊎ (buf ≡ 0) ⊎ (d.sectors < lba + count)
            → blk_write S (some d) lba count buf s ≡ (negsuc 0, s))
  unfolding blk_write
  blk_write_checked d f lba count buf s e w n h = ((λ c b k. grind arith), (λ o. grind arith))

  -- A read whose end wraps past 2^64 to a sector within the device reaches the driver, although
  -- every sector it names below 2^64 is past the end of the device.
  pub blk_read_wraps :
      (d : Device S) (f : Entry S) (lba count buf : ℕ) (s : S)
      → d.read_sectors ≡ some f
      → d.sectors < lba
      → lba < 2 ^ 64
      → 2 ^ 64 ≤ lba + count
      → lba + count - 2 ^ 64 ≤ d.sectors
      → count < 2 ^ 32
      → buf ≢ 0
      → blk_read S (some d) lba count buf s ≡ f lba count buf s
  unfolding blk_read
  blk_read_wraps d f lba count buf s e a b c k m n = grind arith
