-- ===== src/Ext4/Group.antt =====
-- The checksums that the driver keeps in its structures, and the group descriptors, of
-- fs/ext4_core.c. `gd` is the offset of a descriptor in the array of the bytes of all.
use obsidian_kernel.Base.{
  ℕ, zero, suc, ◌+◌, ◌*◌, ◌-◌, ◌/◌, ◌%◌, ◌^◌, leb, not, Bool, true, false, List, Option, none, some,
  if◌then◌else◌, replicate, take, drop, u16, u32, le32, read32, slice, blit, put16, put32,
}
use obsidian_kernel.Ext4.{
  Disk, Ext4, sb_checksum_seed, sb_checksum, read_scratch1, read_scratch2, e4_write_block,
}
use obsidian_kernel.Ext4.Csum.{ext4_crc32c, ext4_crc16}

-- Offsets of fields in `struct ext4_group_desc`.
abbrev pub gd_block_bitmap_lo : ℕ
gd_block_bitmap_lo = 0

abbrev pub gd_inode_bitmap_lo : ℕ
gd_inode_bitmap_lo = 4

abbrev pub gd_inode_table_lo : ℕ
gd_inode_table_lo = 8

abbrev pub gd_free_blocks_lo : ℕ
gd_free_blocks_lo = 12

abbrev pub gd_free_inodes_lo : ℕ
gd_free_inodes_lo = 14

abbrev pub gd_used_dirs_lo : ℕ
gd_used_dirs_lo = 16

abbrev pub gd_flags : ℕ
gd_flags = 18

abbrev pub gd_block_csum_lo : ℕ
gd_block_csum_lo = 24

abbrev pub gd_inode_csum_lo : ℕ
gd_inode_csum_lo = 26

abbrev pub gd_itable_unused_lo : ℕ
gd_itable_unused_lo = 28

abbrev pub gd_checksum : ℕ
gd_checksum = 30

abbrev pub gd_block_bitmap_hi : ℕ
gd_block_bitmap_hi = 32

abbrev pub gd_inode_bitmap_hi : ℕ
gd_inode_bitmap_hi = 36

abbrev pub gd_inode_table_hi : ℕ
gd_inode_table_hi = 40

abbrev pub gd_free_blocks_hi : ℕ
gd_free_blocks_hi = 44

abbrev pub gd_free_inodes_hi : ℕ
gd_free_inodes_hi = 46

abbrev pub gd_used_dirs_hi : ℕ
gd_used_dirs_hi = 48

abbrev pub gd_itable_unused_hi : ℕ
gd_itable_unused_hi = 50

abbrev pub gd_block_csum_hi : ℕ
gd_block_csum_hi = 56

abbrev pub gd_inode_csum_hi : ℕ
gd_inode_csum_hi = 58

module _ {D : Type 0} where
  -- Writes a 16-bit field of the descriptor at `gd`.
  abbrev pub set_gd : ℕ → ℕ → ℕ → Ext4 D → Ext4 D
  set_gd gd field v e = record e { gdt = put16 e.gdt (gd + field) v }

  pub e4_meta_seed : Ext4 D → ℕ
  e4_meta_seed e = if e.csum_seed_feat then read32 e.sb sb_checksum_seed else e.csum_seed

  pub e4_sb_recompute_checksum : Ext4 D → Ext4 D
  e4_sb_recompute_checksum e = record e {
    sb = put32 e.sb sb_checksum (ext4_crc32c (2 ^ 32 - 1) (take 1020 e.sb));
  }

  -- The checksum of a descriptor's bytes with its own field 0.
  abbrev pub meta_desc_csum : ℕ → List ℕ → Ext4 D → ℕ
  meta_desc_csum group desc e =
      ext4_crc32c (ext4_crc32c (e4_meta_seed e) (le32 group)) (take e.desc_size desc)

  abbrev pub gdt_desc_csum : ℕ → List ℕ → Ext4 D → ℕ
  gdt_desc_csum group desc e =
      ext4_crc16
        (ext4_crc16 (ext4_crc16 (ext4_crc16 (2 ^ 16 - 1) (take 16 e.uuid)) (le32 group))
          (take 30 desc))
        (slice desc 32 (u32 (e.desc_size + 2 ^ 32 - 32)))

  pub e4_desc_checksum_set : ℕ → ℕ → Ext4 D → Ext4 D
  e4_desc_checksum_set group gd e =
      let cleared = set_gd gd gd_checksum 0 e in
      if e.meta_csum
      then set_gd gd gd_checksum (u16 (meta_desc_csum group (drop gd cleared.gdt) e)) cleared
      else if e.gdt_csum
      then set_gd gd gd_checksum (gdt_desc_csum group (drop gd e.gdt) e) e
      else e

  pub e4_bitmap_checksum_set : ℕ → List ℕ → Bool → ℕ → Ext4 D → Ext4 D
  e4_bitmap_checksum_set group bitmap inode_bitmap gd e =
      let sz = (if inode_bitmap then e.inodes_per_group else e.blocks_per_group) / 8 in
      let crc = ext4_crc32c (e4_meta_seed e) (take sz bitmap) in
      if not e.meta_csum
      then e
      else if inode_bitmap
      then (if leb 60 e.desc_size
            then set_gd gd gd_inode_csum_hi (u16 (crc / 2 ^ 16))
            else (λ e. e))
          (set_gd gd gd_inode_csum_lo (u16 crc) e)
      else (if leb 58 e.desc_size
            then set_gd gd gd_block_csum_hi (u16 (crc / 2 ^ 16))
            else (λ e. e))
          (set_gd gd gd_block_csum_lo (u16 crc) e)

  unfoldable pub e4_gd : ℕ → Ext4 D → Option ℕ
  e4_gd group e = if leb e.group_count group then none else some (group * e.desc_size)

  -- The block of the descriptor table with a group's descriptor, and its place there.
  abbrev pub desc_block : ℕ → Ext4 D → ℕ
  desc_block group e = u32 (u32 (e.first_data_block + 1) + group / (e.block_size / e.desc_size))

  abbrev pub desc_offset : ℕ → Ext4 D → ℕ
  desc_offset group e = group % (e.block_size / e.desc_size) * e.desc_size

  module _ (disk : Disk D) where
    -- The copy of the descriptors of the groups from `g` on, `n` of them.
    unfoldable pub load_descs : ℕ → ℕ → Ext4 D → Bool × Ext4 D
    load_descs zero g e = (true, e)
    load_descs (suc n) g e =
        let (ok, e) = read_scratch1 disk (desc_block g e) e in
        let desc = slice e.scratch1 (desc_offset g e) e.desc_size in
        let rest = load_descs n (g + 1) (record e { gdt = blit e.gdt (g * e.desc_size) desc }) in
        if not ok then (false, e) else rest

    -- With whether `kzalloc` returned a block. The check of group 0 only prints.
    unfoldable pub e4_load_gdt : Bool → Ext4 D → Bool × Ext4 D
    e4_load_gdt room e =
        if not room
        then (false, e)
        else load_descs e.group_count 0
            (record e { gdt = replicate (u32 (e.desc_size * e.group_count)) 0 })

    abbrev pub sync_desc : ℕ → ℕ → Ext4 D → Bool × Ext4 D
    sync_desc group gd e =
        let (ok, e) = read_scratch2 disk (desc_block group e) (e4_desc_checksum_set group gd e) in
        let buf = blit e.scratch2 (desc_offset group e) (slice e.gdt gd e.desc_size) in
        if not ok
        then (false, e)
        else e4_write_block disk (desc_block group e) buf (record e { scratch2 = buf })

    unfoldable pub e4_sync_gd : ℕ → Ext4 D → Bool × Ext4 D
    e4_sync_gd group e = sync (e4_gd group e)
      where
        sync : Option ℕ → Bool × Ext4 D
        sync none = (false, e)
        sync (some gd) = sync_desc group gd e
