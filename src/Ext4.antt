-- ===== src/Ext4.antt =====
-- The ext4 driver of fs/ext4_core.c, ext4_int.h, ext4_disk.h and ext4_csum.c.
-- The state is `struct ext4_fs` with the two scratch blocks. The superblock, the group descriptors and
-- inodes are the bytes of their packed structures; a pointer to a descriptor is its offset among
-- them. A read past the end of such an array, which C leaves undefined, gives 0 here.
pub mod Csum
pub mod Group
pub mod Inode
pub mod Map
pub mod Alloc
pub mod Io
pub mod Extents
pub mod Truncate
pub mod Dir
pub mod Journal
pub mod Path
pub mod Files
pub mod Mount
mod Tests
use obsidian_kernel.Base.{
  ℕ, ◌+◌, ◌*◌, ◌/◌, ◌^◌, not, Bool, true, false, List, Option, none, some, if◌then◌else◌, replicate,
  take, read32, u64, ◌&&◌,
}

-- The block device layer as the driver sees it: `blk_read` of a first sector and a number of sectors
-- into a buffer, and `blk_write` of a buffer; true is the result 0.
pub record Disk (D : Type 0) : Type 0 where
  pub blk_read : ℕ → ℕ → List ℕ → D → Bool × List ℕ × D
  pub blk_write : ℕ → ℕ → List ℕ → D → Bool × D

-- `struct ext4_fs`; `scratch1` and `scratch2` are static variables of the driver.
pub record Ext4 (D : Type 0) : Type 0 where
  pub dev : Option D
  pub block_size : ℕ
  pub sectors_per_block : ℕ
  pub blocks_count : ℕ
  pub inodes_count : ℕ
  pub blocks_per_group : ℕ
  pub inodes_per_group : ℕ
  pub group_count : ℕ
  pub first_data_block : ℕ
  pub inode_size : ℕ
  pub desc_size : ℕ
  pub first_ino : ℕ
  pub feat_compat : ℕ
  pub feat_incompat : ℕ
  pub feat_ro_compat : ℕ
  pub has_extents : Bool
  pub has_64bit : Bool
  pub meta_csum : Bool
  pub gdt_csum : Bool
  pub csum_seed_feat : Bool
  pub writable : Bool
  pub csum_seed : ℕ
  pub uuid : List ℕ
  pub sb : List ℕ
  pub gdt : List ℕ
  pub scratch1 : List ℕ
  pub scratch2 : List ℕ

-- Offsets of fields in `struct ext4_superblock`.
abbrev pub sb_free_blocks_lo : ℕ
sb_free_blocks_lo = 0x0C

abbrev pub sb_free_inodes : ℕ
sb_free_inodes = 0x10

abbrev pub sb_free_blocks_hi : ℕ
sb_free_blocks_hi = 0x158

abbrev pub sb_checksum_seed : ℕ
sb_checksum_seed = 0x26C

abbrev pub sb_checksum : ℕ
sb_checksum = 0x3FC

module _ {D : Type 0} where
  -- With whether each `kmalloc` returned a block.
  unfoldable pub e4_init_scratch : Bool → Bool → ℕ → Ext4 D → Bool × Ext4 D
  e4_init_scratch room1 room2 block_size e =
      if room1 && room2
      then (true, record e { scratch1 = replicate block_size 0; scratch2 = replicate block_size 0 })
      else (false, e)

  module _ (disk : Disk D) where
    -- The two drivers' calls on the device, if there is one.
    abbrev pub read_dev : ℕ → List ℕ → Ext4 D → Option D → Bool × List ℕ × Ext4 D
    read_dev block buf e none = (false, buf, e)
    read_dev block buf e (some d) =
        let (ok, got, d) =
          disk.blk_read (u64 (block * e.sectors_per_block)) e.sectors_per_block buf d in
        (ok, got, record e { dev = some d })

    abbrev pub write_dev : ℕ → List ℕ → Ext4 D → Option D → Bool × Ext4 D
    write_dev block buf e none = (false, e)
    write_dev block buf e (some d) =
        let (ok, d) =
          disk.blk_write (u64 (block * e.sectors_per_block)) e.sectors_per_block buf d in
        if not e.writable then (false, e) else (ok, record e { dev = some d })

    unfoldable pub e4_read_block : ℕ → List ℕ → Ext4 D → Bool × List ℕ × Ext4 D
    e4_read_block block buf e = read_dev block buf e e.dev

    unfoldable pub e4_write_block : ℕ → List ℕ → Ext4 D → Bool × Ext4 D
    e4_write_block block buf e = write_dev block buf e e.dev

    -- `e4_read_block` into a scratch block.
    unfoldable pub read_scratch1 : ℕ → Ext4 D → Bool × Ext4 D
    read_scratch1 block e =
        let (ok, got, e) = e4_read_block block e.scratch1 e in (ok, record e { scratch1 = got })

    unfoldable pub read_scratch2 : ℕ → Ext4 D → Bool × Ext4 D
    read_scratch2 block e =
        let (ok, got, e) = e4_read_block block e.scratch2 e in (ok, record e { scratch2 = got })

    -- `blk_write` of the superblock at byte 1024; a null device is refused by `blk_write`.
    pub e4_sync_superblock : Ext4 D → Bool × Ext4 D
    e4_sync_superblock e = sync e.dev
      where
        sync : Option D → Bool × Ext4 D
        sync none = (false, e)
        sync (some d) =
            let (ok, d) = disk.blk_write 2 2 (take 1024 e.sb) d in (ok, record e { dev = some d })
