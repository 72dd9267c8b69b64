-- ===== src/Ext4/Mount.antt =====
-- `ext4_mount` of fs/ext4_mount.c. `first` is what `blk_first` returns, and `room` says which of the
-- calls of `kmalloc` and `kzalloc`, in their order, return a block.
pub mod Fails
use obsidian_kernel.Base.{
  ℕ, ◌+◌, ◌*◌, ◌-◌, ◌/◌, ◌%◌, ◌^◌, ◌==◌, ltb, Bool, true, false, List, [], Option, none, some,
  if◌then◌else◌, replicate, take, u16, u32, u64, read16, read32, slice, put16, bit_and, bit_or, not,
  ◌||◌, ◌&&◌, is_null,
}
use obsidian_kernel.Ext4.{Disk, Ext4, e4_init_scratch, e4_sync_superblock}
use obsidian_kernel.Ext4.Group.{e4_load_gdt, e4_sb_recompute_checksum}
use obsidian_kernel.Ext4.Journal.{Journal, e4_journal_pending, e4_journal_replay}

abbrev pub ext4_magic : ℕ
ext4_magic = 0xEF53

abbrev pub supported_incompat : ℕ
supported_incompat = 0x22C6

-- A superblock's fields.
abbrev pub sb_magic : List ℕ → ℕ
sb_magic sb = read16 sb 0x38

abbrev pub sb_log_block_size : List ℕ → ℕ
sb_log_block_size sb = read32 sb 0x18

abbrev pub sb_feat_incompat : List ℕ → ℕ
sb_feat_incompat sb = read32 sb 0x60

abbrev pub sb_feat_ro_compat : List ℕ → ℕ
sb_feat_ro_compat sb = read32 sb 0x64

abbrev pub has : ℕ → ℕ → Bool
has features bit = not (bit_and features bit == 0)

module _ {D : Type 0} where
  -- `memset(&e4, 0, sizeof e4)`; the scratch blocks are not part of it.
  abbrev pub zeroed : Ext4 D → Ext4 D
  zeroed e = record e {
    dev = none;
    block_size = 0;
    sectors_per_block = 0;
    blocks_count = 0;
    inodes_count = 0;
    blocks_per_group = 0;
    inodes_per_group = 0;
    group_count = 0;
    first_data_block = 0;
    inode_size = 0;
    desc_size = 0;
    first_ino = 0;
    feat_compat = 0;
    feat_incompat = 0;
    feat_ro_compat = 0;
    has_extents = false;
    has_64bit = false;
    meta_csum = false;
    gdt_csum = false;
    csum_seed_feat = false;
    writable = false;
    csum_seed = 0;
    uuid = replicate 16 0;
    sb = replicate 1024 0;
    gdt = [];
  }

  -- The fields that are read off the superblock.
  abbrev pub configured : Ext4 D → Ext4 D
  configured e =
      let inc = sb_feat_incompat e.sb in
      let ro = sb_feat_ro_compat e.sb in
      let block_size = 1024 * 2 ^ sb_log_block_size e.sb in
      let wide = has inc 0x80 in
      let hi = if wide then read32 e.sb 0x150 * 2 ^ 32 else 0 in
      let desc_size = read16 e.sb 0xFE in
      record e {
        block_size = block_size;
        sectors_per_block = block_size / 512;
        blocks_count = read32 e.sb 4 + hi;
        inodes_count = read32 e.sb 0;
        blocks_per_group = read32 e.sb 0x20;
        inodes_per_group = read32 e.sb 0x28;
        first_data_block = read32 e.sb 0x14;
        inode_size = read16 e.sb 0x58;
        first_ino = if read32 e.sb 0x54 == 0 then 11 else read32 e.sb 0x54;
        feat_compat = read32 e.sb 0x5C;
        feat_incompat = inc;
        feat_ro_compat = ro;
        has_extents = has inc 0x40;
        has_64bit = wide;
        meta_csum = has ro 0x400;
        gdt_csum = has ro 0x10;
        csum_seed_feat = has inc 0x2000;
        uuid = slice e.sb 0x68 16;
        desc_size = if wide && not (desc_size == 0) then desc_size else 32;
      }

  -- The groups; C divides by zero where a group has no blocks, and the result is 0 here.
  abbrev pub groups : Ext4 D → ℕ
  groups e =
      let rem = u64 (e.blocks_count + 2 ^ 64 - e.first_data_block) in
      u32 (u64 (rem + e.blocks_per_group + 2 ^ 64 - 1) / e.blocks_per_group)

  -- A failure sets the device to NULL.
  abbrev pub refused : Ext4 D → Bool × Ext4 D
  refused e = (false, record e { dev = none })

  module _ (disk : Disk D) where
    -- The mount's own mark on the superblock, which is written.
    abbrev pub finish : Ext4 D → Bool × Ext4 D
    finish e =
        let state = put16 e.sb 0x3A (bit_or (read16 e.sb 0x3A) 1) in
        let counted = put16 state 0x34 (u16 (read16 state 0x34 + 1)) in
        let (ok, e) =
          e4_sync_superblock disk (e4_sb_recompute_checksum (record e { sb = counted })) in
        if ok then (true, e) else refused e

    -- The journal's recovery, whose result is not looked at.
    abbrev pub recovered : (ℕ → Bool) → Journal → Ext4 D → Ext4 D
    recovered room j e =
        if has e.feat_incompat 0x4 && e4_journal_pending e
        then (e4_journal_replay disk (λ n. room (5 + n)) j e).2
        else e

    -- From the group descriptors on.
    abbrev pub load_groups : (ℕ → Bool) → Journal → Ext4 D → Bool × Ext4 D
    load_groups room j e =
        let (ok, loaded) = e4_load_gdt disk (room 4) e in
        if not (room 3)
        then refused e
        else if not ok
        then refused loaded
        else finish (recovered room j loaded)

    -- From the scratch blocks on.
    abbrev pub load_scratch : (ℕ → Bool) → Journal → Ext4 D → Bool × Ext4 D
    load_scratch room j e =
        let (ok, scratched) = e4_init_scratch (room 1) (room 2) e.block_size e in
        if not ok then refused e else load_groups room j scratched

    -- The superblock that was read, checked.
    unfoldable pub mount_super : (ℕ → Bool) → Journal → Ext4 D → Bool × Ext4 D
    mount_super room j e =
        let c = configured e in
        let counted = record c { group_count = groups c } in
        if not (sb_magic e.sb == ext4_magic)
        then (false, e)
        else if ltb 3 (sb_log_block_size e.sb)
        then refused e
        else if not (bit_and (sb_feat_incompat e.sb) (2 ^ 32 - 1 - supported_incompat) == 0)
        then refused e
        else if has (sb_feat_ro_compat e.sb) 0x200
        then refused e
        else if ltb c.desc_size 32 || ltb 128 c.desc_size || not (bit_and c.desc_size 3 == 0)
        then refused c
        else if (groups c == 0) || ltb 65536 (groups c)
        then refused counted
        else load_scratch room j counted

    abbrev pub mount_dev : (ℕ → Bool) → Journal → Option D → Ext4 D → Bool × Ext4 D
    mount_dev room j none e = (false, e)
    mount_dev room j (some d) e =
        let (ok, img, after) = disk.blk_read 2 2 (replicate 1024 0) d in
        if not (room 0)
        then (false, e)
        else if not ok
        then (false, e)
        else mount_super room j (record e { sb = take 1024 img })

    unfoldable pub ext4_mount : (ℕ → Bool) → Journal → Option D → Ext4 D → Bool × Ext4 D
    ext4_mount room j first e =
        if not (is_null e.dev) then (true, e) else mount_dev room j first (zeroed e)

pub ext4_ready : {D : Type 0} → Ext4 D → Bool
ext4_ready e = not (is_null e.dev)
