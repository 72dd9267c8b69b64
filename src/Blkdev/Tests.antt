-- ===== src/Blkdev/Tests.antt =====
-- The block device layer with a driver that counts the sectors it was asked for.
use obsidian_kernel.Base.{
  ℕ, ◌+◌, ◌-◌, ◌<◌, ◌≤◌, ◌^◌, true, false, [], ◌∷◌, some, ◌≡◌, ◌≢◌, ◌⊎◌, refl, pos, negsuc, arith,
}
use obsidian_kernel.Blkdev.{Device, Entry, blkdev_init, blk_register, blk_get, blk_read, stored}
use obsidian_kernel.Blkdev.Register.{IsUsable, IsRegistry, blk_register-IsRegistry}
use obsidian_kernel.Blkdev.Transfer.{blk_read_checked}

abbrev counting : Entry ℕ
counting lba count buf s = (pos 0, s + count)

-- A disk named "ata" of a hundred sectors.
abbrev disk : Device ℕ
disk = record {
  name = 97 ∷ 116 ∷ 97 ∷ [];
  sectors = 100;
  sector_size = 512;
  present = true;
  writable = true;
  read_sectors = some counting;
  write_sectors = some counting;
}

read_last : blk_read ℕ (some disk) 98 2 4096 7 ≡ (pos 0, 9)
unfolding blk_read
read_last = refl

-- The last two sectors below 2^64: the sum of the check is 0.
read_wrapped : blk_read ℕ (some disk) (2 ^ 64 - 2) 2 4096 7 ≡ (pos 0, 9)
unfolding blk_read
read_wrapped = refl

abbrev count : ℕ
count = 3

abbrev buffer : ℕ
buffer = 4096

blk_read_checked_example :
    (count ≢ 0
      → buffer ≢ 0
      → 97 + count ≤ 100
      → blk_read ℕ (some disk) 97 count buffer 7 ≡ counting 97 count buffer 7)
    × ((count ≡ 0) ⊎ (buffer ≡ 0) ⊎ (100 < 97 + count)
        → blk_read ℕ (some disk) 97 count buffer 7 ≡ (negsuc 0, 7))
blk_read_checked_example =
    blk_read_checked ℕ disk counting 97 count buffer 7 refl (omega arith) (omega arith)

blk_register-IsRegistry_example :
    IsRegistry ℕ (blk_register ℕ (some disk) (blkdev_init ℕ)).1
    × (IsUsable ℕ disk
        → (blkdev_init ℕ).ndevs < 4
        → ((blk_register ℕ (some disk) (blkdev_init ℕ)).0 ≡ true)
          × (blk_get ℕ (pos (blkdev_init ℕ).ndevs) (blk_register ℕ (some disk) (blkdev_init ℕ)).1
              ≡ some (stored ℕ disk))
          × ((i : ℕ)
              → i < (blkdev_init ℕ).ndevs
              → blk_get ℕ (pos i) (blk_register ℕ (some disk) (blkdev_init ℕ)).1
                ≡ blk_get ℕ (pos i) (blkdev_init ℕ)))
    × ((true ≡ false) ⊎ (false ≡ true) ⊎ (disk.sector_size ≡ 0) ⊎ ((blkdev_init ℕ).ndevs ≡ 4)
        → blk_register ℕ (some disk) (blkdev_init ℕ) ≡ (false, blkdev_init ℕ))
unfolding blkdev_init
blk_register-IsRegistry_example = blk_register-IsRegistry ℕ disk (blkdev_init ℕ) (refl, omega arith)
