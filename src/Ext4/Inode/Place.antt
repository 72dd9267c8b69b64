-- ===== src/Ext4/Inode/Place.antt =====
-- The block device under the driver as a store of blocks, and the driver's calls on it.
use obsidian_kernel.Base.{ℕ, ◌*◌, ◌<◌, Bool, true, List, some, u64, ◌≡◌, ap}
use obsidian_kernel.Ext4.{Disk, Ext4, e4_read_block, e4_write_block, read_scratch1}

-- Reads of the blocks below `blocks` give what they hold, and a write changes that block.
pub record IsStore {D : Type 0} (disk : Disk D) (spb blocks : ℕ) (at : D → ℕ → List ℕ)
    : Type 0 where
  pub reads :
      (b : ℕ) (buf : List ℕ) (d : D)
      → b < blocks
      → disk.blk_read (u64 (b * spb)) spb buf d ≡ (true, at d b, d)
  pub writes :
      (b : ℕ) (buf : List ℕ) (d : D)
      → b < blocks
      → (disk.blk_write (u64 (b * spb)) spb buf d).0 ≡ true
  pub holds :
      (b : ℕ) (buf : List ℕ) (d : D)
      → b < blocks
      → at (disk.blk_write (u64 (b * spb)) spb buf d).1 b ≡ buf

-- The driver with a device that can be written.
abbrev pub mounted : {D : Type 0} → D → Ext4 D → Ext4 D
mounted d e = record e { dev = some d; writable = true }

module _ {D : Type 0} (disk : Disk D) (spb blocks : ℕ) (at : D → ℕ → List ℕ)
    (store : IsStore disk spb blocks at) where
  pub read_scratch1-mounted :
      (b : ℕ) (d : D) (e : Ext4 D)
      → b < blocks
      → read_scratch1 disk b (mounted d (record e { sectors_per_block = spb }))
        ≡ (true, mounted d (record e { sectors_per_block = spb; scratch1 = at d b }))
  unfolding read_scratch1 e4_read_block
  read_scratch1-mounted b d e h =
      ap
        (λ (r : Bool × List ℕ × D).
          (r.0, mounted r.2 (record e { sectors_per_block = spb; scratch1 = r.1 })))
        (store.reads b e.scratch1 d h)

  pub e4_write_block-mounted :
      (b : ℕ) (buf : List ℕ) (d : D) (e : Ext4 D)
      → b < blocks
      → e4_write_block disk b buf (mounted d (record e { sectors_per_block = spb })) ≡ (
        true,
        mounted (disk.blk_write (u64 (b * spb)) spb buf d).1 (record e { sectors_per_block = spb }),
      )
  unfolding e4_write_block
  e4_write_block-mounted b buf d e h =
      ap
        (λ (r : Bool). (
          r,
          mounted (disk.blk_write (u64 (b * spb)) spb buf d).1
              (record e { sectors_per_block = spb }),
        ))
        (store.writes b buf d h)
