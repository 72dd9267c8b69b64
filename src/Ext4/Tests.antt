-- ===== src/Ext4/Tests.antt =====
-- The driver on a device of small blocks.
mod Files
use obsidian_kernel.Base.{
  ℕ, ◌+◌, ◌*◌, ◌/◌, ◌<◌, ◌==◌, true, false, List, [], ◌∷◌, some, if◌then◌else◌, u64, replicate, ◌≡◌,
  refl, arith, ap, read32, blit, take, put32, put16, drop, ==-refl, u32, le32, ◌++◌,
}
use obsidian_kernel.Ext4.{Disk, Ext4, read_scratch1, e4_read_block}
use obsidian_kernel.Ext4.Group.{e4_gd}
use obsidian_kernel.Ext4.Csum.{ext4_crc32c}
use obsidian_kernel.Ext4.Csum.Table.{bitwise_crc32c, ext4_crc32c-bitwise_crc32c}
use obsidian_kernel.Ext4.Inode.{
  ino_block, inode_block, inode_offset, inode_byte, inode_table_block, e4_read_inode,
  e4_write_inode,
}
use obsidian_kernel.Ext4.Inode.Place.{IsStore}
use obsidian_kernel.Ext4.Inode.Store.{on, e4_read_inode-e4_write_inode}
use obsidian_kernel.Ext4.Map.{extent_lookup, indirect_lookup}
use obsidian_kernel.Ext4.Map.Extent.{FromRoot, extent_lookup-FromRoot}
use obsidian_kernel.Ext4.Map.Indirect.{indirect_lookup_single}
use obsidian_kernel.Ext4.Alloc.{byte_search, is_marked}
use obsidian_kernel.Ext4.Alloc.Search.{IsFirstClear, byte_search_first}

-- A device that keeps its blocks of two sectors.
abbrev Blocks : Type 0
Blocks = ℕ → List ℕ

abbrev memory_disk : Disk Blocks
memory_disk = record {
  blk_read = λ lba count buf d. (true, d (lba / 2), d);
  blk_write = λ lba count buf d. (true, λ b. if b == lba / 2 then buf else d b);
}

-- Blocks of 64 bytes: block 1 has the descriptors, 2 and 3 the bitmaps, 4 the inodes.
abbrev content : Blocks
content b = if b == 2 then 255 ∷ 0x7F ∷ replicate 62 0 else replicate 64 3

abbrev small : Ext4 Blocks
small = record {
  dev = some content;
  block_size = 64;
  sectors_per_block = 2;
  blocks_count = 100;
  inodes_count = 16;
  blocks_per_group = 100;
  inodes_per_group = 16;
  group_count = 1;
  first_data_block = 0;
  inode_size = 16;
  desc_size = 32;
  first_ino = 11;
  feat_compat = 0;
  feat_incompat = 0;
  feat_ro_compat = 0;
  has_extents = true;
  has_64bit = false;
  meta_csum = false;
  gdt_csum = false;
  csum_seed_feat = false;
  writable = true;
  csum_seed = 0;
  uuid = replicate 16 0;
  sb = replicate 1024 1;
  gdt = le32 2 ++ (le32 3 ++ (le32 4 ++ replicate 20 1));
  scratch1 = [];
  scratch2 = [];
}

memory_disk-IsStore : IsStore memory_disk 2 1000 (λ d b. d b)
memory_disk-IsStore = record {
  reads = λ b buf d h. ap (λ n. (true, d n, d)) (place b h);
  writes = λ b buf d h. refl;
  holds = λ b buf d h. rw (place b h, ==-refl b) refl;
}
  where
    place : (b : ℕ) → b < 1000 → u64 (b * 2) / 2 ≡ b
    place b h = omega arith

abbrev some_inode : List ℕ
some_inode = replicate 16 7

abbrev digits : List ℕ
digits = 49 ∷ 50 ∷ 51 ∷ []

e4_read_inode-e4_write_inode_example :
    (let e = on memory_disk 2 1000 (λ d b. d b) memory_disk-IsStore content small in
      ((e4_write_inode memory_disk 5 some_inode e).0 ≡ true)
      × ((e4_read_inode memory_disk 5 [] (e4_write_inode memory_disk 5 some_inode e).1).0 ≡ true)
      × ((e4_read_inode memory_disk 5 [] (e4_write_inode memory_disk 5 some_inode e).1).1
          ≡ blit [] 0 (take 16 some_inode)))
unfolding inode_block inode_offset inode_byte inode_table_block e4_gd
e4_read_inode-e4_write_inode_example =
    e4_read_inode-e4_write_inode memory_disk 2 1000 (λ d b. d b) memory_disk-IsStore 5 some_inode []
      content small (omega arith, omega arith, omega arith, omega arith, omega arith) (omega arith)
      refl

-- An inode whose tree has depth 1.
abbrev deep_inode : List ℕ
deep_inode = put16 (put16 (put16 (replicate 256 0) 40 0xF30A) 42 1) 46 1

extent_lookup-FromRoot_example :
    FromRoot memory_disk
      (drop ino_block deep_inode)
      5
      (extent_lookup memory_disk deep_inode 5 small).0
extent_lookup-FromRoot_example = extent_lookup-FromRoot memory_disk deep_inode 5 small

-- An inode with an indirect block, and what its reads leave.
abbrev old_inode : List ℕ
old_inode = put32 (replicate 256 0) (ino_block + 4 * 12) 9

abbrev one : Ext4 Blocks
one = (read_scratch1 memory_disk 9 small).1

abbrev two : Ext4 Blocks
two = (read_scratch1 memory_disk 0x03030303 one).1

-- The bits below 15 are set.
abbrev bitmap : List ℕ
bitmap = 255 ∷ 0x7F ∷ []

byte_search_first_example :
    IsFirstClear (is_marked bitmap) 0 16 (byte_search (u32 (16 + 7) / 8) 0 bitmap 16)
byte_search_first_example = byte_search_first bitmap 16 (omega arith)

ext4_crc32c-bitwise_crc32c_example :
    ext4_crc32c 0xFFFFFFFF digits ≡ bitwise_crc32c 0xFFFFFFFF digits
ext4_crc32c-bitwise_crc32c_example =
    ext4_crc32c-bitwise_crc32c digits 0xFFFFFFFF (omega arith, (omega arith, (omega arith, tt)))
