-- ===== src/Ext4/Inode.antt =====
-- Inodes of fs/ext4_core.c: where they stand on the disk, reading and writing them, and the
-- checksums of inodes, extent blocks and directory blocks. An inode in memory is 256 bytes.
pub mod Place
pub mod Store
pub mod Keeps
use obsidian_kernel.Base.{
  ℕ, zero, suc, ◌+◌, ◌*◌, ◌-◌, ◌/◌, ◌%◌, ◌^◌, ◌==◌, ltb, leb, not, Bool, true, false, List, Option,
  none, some, if◌then◌else◌, take, drop, bit_and, u16, u32, u64, le32, read8, read16, read32, slice,
  blit, put16, put32, replicate, ◌||◌, ◌&&◌,
}
use obsidian_kernel.Ext4.{Disk, Ext4, e4_read_block, e4_write_block, read_scratch1, read_scratch2}
use obsidian_kernel.Ext4.Csum.{ext4_crc32c}
use obsidian_kernel.Ext4.Group.{e4_gd, e4_meta_seed, gd_inode_table_lo, gd_inode_table_hi}

-- Offsets of fields in `struct ext4_inode`.
abbrev pub ino_mode : ℕ
ino_mode = 0x00

abbrev pub ino_size_lo : ℕ
ino_size_lo = 0x04

abbrev pub ino_flags : ℕ
ino_flags = 0x20

abbrev pub ino_block : ℕ
ino_block = 0x28

abbrev pub ino_generation : ℕ
ino_generation = 0x64

abbrev pub ino_size_hi : ℕ
ino_size_hi = 0x6C

abbrev pub ino_checksum_lo : ℕ
ino_checksum_lo = 0x7C

abbrev pub ino_extra_isize : ℕ
ino_extra_isize = 0x80

abbrev pub ino_checksum_hi : ℕ
ino_checksum_hi = 0x82

abbrev pub dirent_tail_marker : ℕ
dirent_tail_marker = 0xDE

-- `sizeof(struct ext4_inode)`
abbrev pub inode_struct_size : ℕ
inode_struct_size = 256

-- Which of the two scratch blocks a pointer names.
pub data Scratch : Type 0 where
  scratch_1 scratch_2 : Scratch

pub e4_is_dir : List ℕ → Bool
e4_is_dir i = bit_and (read16 i ino_mode) 0xF000 == 0x4000

pub e4_is_regular : List ℕ → Bool
e4_is_regular i = bit_and (read16 i ino_mode) 0xF000 == 0x8000

module _ {D : Type 0} where
  pub e4_inode_size : List ℕ → Ext4 D → ℕ
  e4_inode_size i e =
      let sz = read32 i ino_size_lo in
      if e4_is_dir i
      then sz
      else if not (bit_and e.feat_ro_compat 0x2 == 0)
      then sz + read32 i ino_size_hi * 2 ^ 32
      else sz

  abbrev pub inode_has_csum_hi : List ℕ → Ext4 D → Bool
  inode_has_csum_hi i e = ltb 128 e.inode_size && leb 6 (read16 i ino_extra_isize)

  -- The checksum of an inode's number, generation and further bytes.
  abbrev pub numbered_csum : ℕ → List ℕ → List ℕ → Ext4 D → ℕ
  numbered_csum ino host bytes e =
      ext4_crc32c
        (ext4_crc32c (ext4_crc32c (e4_meta_seed e) (le32 ino)) (slice host ino_generation 4)) bytes

  pub e4_inode_checksum_set : ℕ → List ℕ → Ext4 D → List ℕ
  e4_inode_checksum_set ino i e =
      let saved_hi = read16 i ino_checksum_hi in
      let cleared = put16 (put16 i ino_checksum_lo 0) ino_checksum_hi 0 in
      let crc = numbered_csum ino cleared (take e.inode_size cleared) e in
      let low = put16 cleared ino_checksum_lo (u16 crc) in
      if not e.meta_csum
      then i
      else put16 low ino_checksum_hi
          (if inode_has_csum_hi i e then u16 (crc / 2 ^ 16) else saved_hi)

  abbrev pub buf_get : Scratch → Ext4 D → List ℕ
  buf_get scratch_1 e = e.scratch1
  buf_get scratch_2 e = e.scratch2

  abbrev pub buf_set : Scratch → List ℕ → Ext4 D → Ext4 D
  buf_set scratch_1 b e = record e { scratch1 = b }
  buf_set scratch_2 b e = record e { scratch2 = b }

  abbrev pub table_at : ℕ → Ext4 D → ℕ
  table_at gd e =
      read32 e.gdt (gd + gd_inode_table_lo)
      + (if e.has_64bit then read32 e.gdt (gd + gd_inode_table_hi) * 2 ^ 32 else 0)

  unfoldable pub inode_table_block : ℕ → Ext4 D → ℕ
  inode_table_block ino e = table (e4_gd ((ino - 1) / e.inodes_per_group) e)
    where
      table : Option ℕ → ℕ
      table none = 0
      table (some gd) = table_at gd e

  -- Where an inode stands: its byte in the table of its group, and from that its block and its place.
  unfoldable pub inode_byte : ℕ → Ext4 D → ℕ
  inode_byte ino e = (ino - 1) % e.inodes_per_group * e.inode_size

  unfoldable pub inode_block : ℕ → Ext4 D → ℕ
  inode_block ino e = u64 (inode_table_block ino e + inode_byte ino e / e.block_size)

  unfoldable pub inode_offset : ℕ → Ext4 D → ℕ
  inode_offset ino e = u32 (inode_byte ino e % e.block_size)

  module _ (disk : Disk D) where
    -- `out` is the caller's structure.
    unfoldable pub e4_read_inode : ℕ → List ℕ → Ext4 D → Bool × List ℕ × Ext4 D
    e4_read_inode ino out e =
        let blk = inode_block ino e in
        let off = inode_offset ino e in
        let part = e.block_size - off in
        let (ok, one) = read_scratch1 disk blk e in
        let (ok2, two) = read_scratch2 disk (u64 (blk + 1)) one in
        if ltb ino 1 || ltb e.inodes_count ino
        then (false, out, e)
        else if not ok
        then (false, out, one)
        else if leb (u32 (off + e.inode_size)) e.block_size
        then (true, blit out 0 (slice one.scratch1 off e.inode_size), one)
        else if not ok2
        then (false, out, two)
        else (
          true,
          blit (blit out 0 (slice two.scratch1 off part)) part
              (take (e.inode_size - part) two.scratch2),
          two,
        )

    -- The part of `e4_write_inode` for an inode that does not fit its first block.
    unfoldable pub write_split : ℕ → ℕ → List ℕ → Ext4 D → Bool × Ext4 D
    write_split blk off i e =
        let part = e.block_size - off in
        let first = blit e.scratch1 off (take part i) in
        let (ok1, e) = e4_write_block disk blk first (record e { scratch1 = first }) in
        let (ok2, e2) = read_scratch1 disk (u64 (blk + 1)) e in
        let second = blit e2.scratch1 0 (slice i part (e2.inode_size - part)) in
        if not ok1
        then (false, e)
        else if not ok2
        then (false, e2)
        else e4_write_block disk (u64 (blk + 1)) second (record e2 { scratch1 = second })

    unfoldable pub e4_write_inode : ℕ → List ℕ → Ext4 D → Bool × Ext4 D
    e4_write_inode ino i e =
        let blk = inode_block ino e in
        let off = inode_offset ino e in
        let (ok, one) = read_scratch1 disk blk e in
        let buf = blit one.scratch1 off (take e.inode_size i) in
        if ltb ino 1 || ltb e.inodes_count ino || not e.writable
        then (false, e)
        else if not ok
        then (false, one)
        else if leb (u32 (off + e.inode_size)) e.block_size
        then e4_write_block disk blk buf (record one { scratch1 = buf })
        else write_split blk off i one

    -- The checksum behind the entries of an extent block. `eh` is one of the scratch blocks, and
    -- reading the inode writes to both before `eh` is used.
    pub e4_extent_block_checksum_set : ℕ → Scratch → Ext4 D → Ext4 D
    e4_extent_block_checksum_set ino eh e =
        let (ok, host, read) = e4_read_inode ino (replicate inode_struct_size 0) e in
        let bytes = buf_get eh read in
        let end = 12 + read16 bytes 4 * 12 in
        if not e.meta_csum
        then e
        else if not ok
        then read
        else buf_set eh (put32 bytes end (numbered_csum ino host (take end bytes) read)) read

    -- Whether the entries of a directory block fill it, from offset `d`, with the rounds left: each
    -- moves on by 8 bytes at least.
    pub entries_fill : ℕ → ℕ → List ℕ → ℕ → Bool
    entries_fill zero d blk top = false
    entries_fill (suc n) d blk top =
        let rl = read16 blk (d + 4) in
        let rest = entries_fill n (d + rl) blk top in
        if leb top d then d == top else if ltb rl 8 || not (bit_and rl 3 == 0) then false else rest

    pub e4_dir_block_checksum_set : ℕ → Scratch → Ext4 D → Ext4 D
    e4_dir_block_checksum_set dir_ino b e =
        let (ok, host, read) = e4_read_inode dir_ino (replicate inode_struct_size 0) e in
        let blk = buf_get b read in
        let top = e.block_size in
        let tail = top - 12 in
        let is_tail =
          (read32 blk tail == 0)
          && (read8 blk (tail + 6) == dirent_tail_marker)
          && (read16 blk (tail + 4) == 12) in
        let crc = numbered_csum dir_ino host (take tail blk) read in
        if not e.meta_csum
        then e
        else if not ok
        then read
        else if not (entries_fill (suc (top / 8)) 0 blk top) || not is_tail
        then read
        else buf_set b (put32 blk (top - 4) crc) read
