-- ===== src/Ext4/Alloc.antt =====
-- The allocation of blocks and inodes of fs/ext4_core.c: the bitmaps of the groups, and the counters
-- of what is free.
pub mod Search
use obsidian_kernel.Base.{
  ℕ, zero, suc, ◌+◌, ◌*◌, ◌-◌, ◌/◌, ◌%◌, ◌^◌, ◌==◌, ltb, leb, not, Bool, true, false, List, Option,
  none, some, if◌then◌else◌, bit_and, bit_or, u16, u32, u64, read16, read32, put32, get_or, set,
  replicate, ◌&&◌, ◌||◌, ℤ, pos, negsuc,
}
use obsidian_kernel.Ext4.{
  Disk, Ext4, read_scratch1, e4_write_block, sb_free_blocks_lo, sb_free_blocks_hi, sb_free_inodes,
}
use obsidian_kernel.Ext4.Group.{
  e4_gd, e4_sync_gd, e4_bitmap_checksum_set, set_gd, gd_block_bitmap_lo, gd_block_bitmap_hi,
  gd_inode_bitmap_lo, gd_inode_bitmap_hi, gd_free_blocks_lo, gd_free_blocks_hi, gd_free_inodes_lo,
  gd_free_inodes_hi, gd_used_dirs_lo, gd_used_dirs_hi, gd_flags, gd_itable_unused_lo,
  gd_itable_unused_hi,
}

-- `bm[i >> 3] & (1u << (i & 7))`
abbrev pub is_marked : List ℕ → ℕ → Bool
is_marked bm i = not (bit_and (get_or bm (i / 8) 0) (2 ^ (i % 8)) == 0)

abbrev pub mark : List ℕ → ℕ → List ℕ
mark bm i = set bm (i / 8) (bit_or (get_or bm (i / 8) 0) (2 ^ (i % 8)))

abbrev pub unmark : List ℕ → ℕ → List ℕ
unmark bm i = set bm (i / 8) (bit_and (get_or bm (i / 8) 0) (255 - 2 ^ (i % 8)))

-- A signed count of `w` bits and a change of it, not below 0.
unfoldable pub adjusted : ℕ → ℕ → ℤ → ℕ
adjusted w n (pos k) = if leb (2 ^ (w - 1)) (n + k) then 0 else n + k
adjusted w n (negsuc k) = if leb (2 ^ (w - 1)) n then 0 else n - suc k

-- The search of a byte `v` for a clear bit, from `bit` on with `n` bits left; `base` is the index of
-- the byte's first bit.
unfoldable pub bit_search : ℕ → ℕ → ℕ → ℕ → ℕ → Option ℕ
bit_search zero bit v base last_bits = none
bit_search (suc n) bit v base last_bits =
    let rest = bit_search n (bit + 1) v base last_bits in
    if leb last_bits (base + bit)
    then none
    else if bit_and v (2 ^ bit) == 0
    then some (base + bit)
    else rest

abbrev pub or_else : Option ℕ → Option ℕ → Option ℕ
or_else (some i) o = some i
or_else none o = o

-- The search of a bitmap, from byte `byte_i` on with `n` bytes left.
unfoldable pub byte_search : ℕ → ℕ → List ℕ → ℕ → Option ℕ
byte_search zero byte_i bm last_bits = none
byte_search (suc n) byte_i bm last_bits =
    let rest = byte_search n (byte_i + 1) bm last_bits in
    let v = get_or bm byte_i 0 in
    if v == 0xFF then rest else or_else (bit_search 8 0 v (byte_i * 8) last_bits) rest

-- The bits below the first inode of the file system, marked when a bitmap is made.
pub mark_reserved : ℕ → ℕ → List ℕ → List ℕ
mark_reserved zero i bm = bm
mark_reserved (suc n) i bm = mark_reserved n (i + 1) (mark bm i)

module _ {D : Type 0} where
  pub blk_of : ℕ → ℕ → Ext4 D → ℕ
  blk_of group index e = u64 (e.first_data_block + u64 (group * e.blocks_per_group) + index)

  unfoldable pub adjust_free_blocks : ℕ → ℤ → Ext4 D → Ext4 D
  adjust_free_blocks gd delta e =
      let v = adjusted 32 (read16 e.gdt (gd + gd_free_blocks_lo)) delta in
      let low = set_gd gd gd_free_blocks_lo (u16 v) e in
      let both =
        if e.has_64bit && leb 44 e.desc_size
        then set_gd gd gd_free_blocks_hi (u16 (v / 2 ^ 16)) low
        else low in
      let total =
        adjusted 64 (read32 e.sb sb_free_blocks_lo + read32 e.sb sb_free_blocks_hi * 2 ^ 32)
          delta in
      record both {
        sb =
            put32 (put32 e.sb sb_free_blocks_lo (u32 total)) sb_free_blocks_hi
              (u32 (total / 2 ^ 32));
      }

  unfoldable pub adjust_free_inodes : ℕ → ℤ → Ext4 D → Ext4 D
  adjust_free_inodes gd delta e =
      let v = adjusted 32 (read16 e.gdt (gd + gd_free_inodes_lo)) delta in
      let low = set_gd gd gd_free_inodes_lo (u16 v) e in
      let both =
        if e.has_64bit && leb 46 e.desc_size
        then set_gd gd gd_free_inodes_hi (u16 (v / 2 ^ 16)) low
        else low in
      record both {
        sb = put32 e.sb sb_free_inodes (adjusted 32 (read32 e.sb sb_free_inodes) delta);
      }

  -- The bits of a group's bitmap that stand for blocks: fewer in the last group.
  pub group_bits : ℕ → Ext4 D → ℕ
  group_bits g e =
      if g == e.group_count - 1
      then u32
          (e.blocks_count + 2 ^ 64 - e.first_data_block + (2 ^ 64 - u64 (g * e.blocks_per_group)))
      else e.blocks_per_group

  abbrev pub bitmap_block : Bool → ℕ → Ext4 D → ℕ
  bitmap_block inode_map gd e =
      let lo = if inode_map then gd_inode_bitmap_lo else gd_block_bitmap_lo in
      let hi = if inode_map then gd_inode_bitmap_hi else gd_block_bitmap_hi in
      read32 e.gdt (gd + lo) + (if e.has_64bit then read32 e.gdt (gd + hi) * 2 ^ 32 else 0)

  -- The count of directories, one more in a group where `mode` has the bit of directories.
  abbrev pub count_dir : ℕ → ℕ → Ext4 D → Ext4 D
  count_dir gd mode e =
      let d = u16 (read16 e.gdt (gd + gd_used_dirs_lo) + 1) in
      let low = set_gd gd gd_used_dirs_lo d e in
      if bit_and mode 0x4000 == 0
      then e
      else if e.has_64bit && leb 48 e.desc_size
      then set_gd gd gd_used_dirs_hi (u16 (d / 2 ^ 16)) low
      else low

  -- A bitmap that was never initialized.
  abbrev pub materialize : ℕ → ℕ → Ext4 D → Ext4 D
  materialize g gd e =
      let zeros = replicate e.block_size 0 in
      let reserved = mark_reserved (min_reserved e) 0 zeros in
      let clear = set_gd gd gd_flags (bit_and (read16 e.gdt (gd + gd_flags)) 0xFFFE) e in
      let low = set_gd gd gd_itable_unused_lo 0 clear in
      let both =
        if e.has_64bit && leb 50 e.desc_size then set_gd gd gd_itable_unused_hi 0 low else low in
      if bit_and (read16 e.gdt (gd + gd_flags)) 0x1 == 0
      then e
      else record both { scratch1 = if g == 0 then reserved else zeros }
    where
      min_reserved : Ext4 D → ℕ
      min_reserved e =
          let below = u32 (e.first_ino + 2 ^ 32 - 1) in
          if leb below e.inodes_per_group then below else e.inodes_per_group

  -- The scan of an inode bitmap from index `i` on, with `n` left: the index and the inode.
  pub inode_search : ℕ → ℕ → ℕ → Ext4 D → Option (ℕ × ℕ)
  inode_search zero i g e = none
  inode_search (suc n) i g e =
      let rest = inode_search n (i + 1) g e in
      let ino = u32 (g * e.inodes_per_group + i + 1) in
      if is_marked e.scratch1 i || ltb ino e.first_ino || ltb e.inodes_count ino
      then rest
      else some (i, ino)

  pub e4_count_free : Ext4 D → ℕ × ℕ
  e4_count_free e = (read32 e.sb sb_free_blocks_lo, read32 e.sb sb_free_inodes)

  module _ (disk : Disk D) where
    -- The descriptor and the bitmap's block; the bitmap is left in `scratch1`.
    unfoldable pub load_bitmap : Bool → ℕ → Ext4 D → Option (ℕ × ℕ) × Ext4 D
    load_bitmap inode_map group e = load (e4_gd group e)
      where
        load : Option ℕ → Option (ℕ × ℕ) × Ext4 D
        load none = (none, e)
        load (some gd) =
            let blk = bitmap_block inode_map gd e in
            let (ok, read) = read_scratch1 disk blk e in (if ok then some (gd, blk) else none, read)

    -- What follows a change of a bitmap in `scratch1`: the checksum and the counters.
    abbrev pub bitmap_changed : Bool → ℕ → ℕ → ℤ → List ℕ → Ext4 D → Ext4 D
    bitmap_changed inode_map g gd delta bm e =
        let summed = e4_bitmap_checksum_set g bm inode_map gd (record e { scratch1 = bm }) in
        if inode_map then adjust_free_inodes gd delta summed else adjust_free_blocks gd delta summed

    -- The block at index `bidx` of a group is taken, and zeroed on the disk.
    unfoldable pub take_block : ℕ → ℕ → ℕ → ℕ → Ext4 D → Ext4 D
    take_block g gd blk bidx e =
        let bm = mark e.scratch1 bidx in
        let synced = (e4_sync_gd disk g (bitmap_changed false g gd (negsuc 0) bm e)).1 in
        let written = (e4_write_block disk blk synced.scratch1 synced).1 in
        let zeroed = record written { scratch2 = replicate e.block_size 0 } in
        (e4_write_block disk (blk_of g bidx e) zeroed.scratch2 zeroed).1

    -- A group's free block is taken, or the search goes on with `next`.
    abbrev pub take_or_next :
        (Ext4 D → Option ℕ × Ext4 D) → ℕ → ℕ → ℕ → Option ℕ → Ext4 D → Option ℕ × Ext4 D
    take_or_next next g gd blk none e = next e
    take_or_next next g gd blk (some bidx) e = (some (blk_of g bidx e), take_block g gd blk bidx e)

    unfoldable pub block_in :
        (Ext4 D → Option ℕ × Ext4 D) → ℕ → Option (ℕ × ℕ) × Ext4 D → Option ℕ × Ext4 D
    block_in next g (none, e) = next e
    block_in next g (some (gd, blk), e) =
        let last_bits = group_bits g e in
        let found = byte_search (u32 (last_bits + 7) / 8) 0 e.scratch1 last_bits in
        take_or_next next g gd blk found e

    -- The groups, from the one at distance `gi` on, with `n` left.
    unfoldable pub alloc_block_loop : ℕ → ℕ → ℕ → Ext4 D → Option ℕ × Ext4 D
    alloc_block_loop zero gi hint_group e = (none, e)
    alloc_block_loop (suc n) gi hint_group e =
        let g = u32 (hint_group + gi) % e.group_count in
        block_in (alloc_block_loop n (gi + 1) hint_group) g (load_bitmap false g e)

    unfoldable pub e4_alloc_block_near : ℕ → Ext4 D → Option ℕ × Ext4 D
    e4_alloc_block_near hint_group e =
        if not e.writable then (none, e) else alloc_block_loop e.group_count 0 hint_group e

    -- The bit at `idx` of a group's bitmap is cleared, if it was set, and all is written back.
    unfoldable pub release : Bool → ℕ → ℕ → Option (ℕ × ℕ) × Ext4 D → Bool × Ext4 D
    release inode_map g idx (none, e) = (false, e)
    release inode_map g idx (some (gd, blk), e) =
        let bm = unmark e.scratch1 idx in
        let synced = (e4_sync_gd disk g (bitmap_changed inode_map g gd (pos 1) bm e)).1 in
        if not (is_marked e.scratch1 idx)
        then (false, e)
        else e4_write_block disk blk synced.scratch1 synced

    unfoldable pub e4_free_block : ℕ → Ext4 D → Bool × Ext4 D
    e4_free_block block e =
        let g = u32 ((block - e.first_data_block) / e.blocks_per_group) in
        let idx = u32 ((block - e.first_data_block) % e.blocks_per_group) in
        if not e.writable || ltb block e.first_data_block || leb e.blocks_count block
        then (false, e)
        else release false g idx (load_bitmap false g e)

    abbrev pub take_inode : ℕ → ℕ → ℕ → ℕ → ℕ → Ext4 D → Ext4 D
    take_inode g gd blk i mode e =
        let counted =
          count_dir gd mode (bitmap_changed true g gd (negsuc 0) (mark e.scratch1 i) e) in
        let synced = (e4_sync_gd disk g counted).1 in
        (e4_write_block disk blk synced.scratch1 synced).1

    abbrev pub take_inode_or_next :
        (Ext4 D → Option ℕ × Ext4 D) → ℕ → ℕ → ℕ → ℕ → Option (ℕ × ℕ) → Ext4 D → Option ℕ × Ext4 D
    take_inode_or_next next g gd blk mode none e = next e
    take_inode_or_next next g gd blk mode (some (i, ino)) e =
        (some ino, take_inode g gd blk i mode e)

    pub inode_in :
        (Ext4 D → Option ℕ × Ext4 D) → ℕ → ℕ → Option (ℕ × ℕ) × Ext4 D → Option ℕ × Ext4 D
    inode_in next mode g (none, e) = next e
    inode_in next mode g (some (gd, blk), e) =
        let made = materialize g gd e in
        let from = u32 (e.first_ino + 2 ^ 32 - 1) in
        let found = inode_search (e.inodes_per_group - from) from g made in
        take_inode_or_next next g gd blk mode found made

    pub alloc_inode_loop : ℕ → ℕ → ℕ → ℕ → Ext4 D → Option ℕ × Ext4 D
    alloc_inode_loop zero gi prefer_group mode e = (none, e)
    alloc_inode_loop (suc n) gi prefer_group mode e =
        let g = u32 (prefer_group + gi) % e.group_count in
        inode_in (alloc_inode_loop n (gi + 1) prefer_group mode) mode g (load_bitmap true g e)

    pub e4_alloc_inode : ℕ → ℕ → Ext4 D → Option ℕ × Ext4 D
    e4_alloc_inode prefer_group mode e =
        if not e.writable then (none, e) else alloc_inode_loop e.group_count 0 prefer_group mode e

    pub e4_free_inode : ℕ → Ext4 D → Bool × Ext4 D
    e4_free_inode ino e =
        let g = (ino - 1) / e.inodes_per_group in
        let idx = (ino - 1) % e.inodes_per_group in
        if not e.writable || ltb ino e.first_ino || ltb e.inodes_count ino
        then (false, e)
        else release true g idx (load_bitmap true g e)
