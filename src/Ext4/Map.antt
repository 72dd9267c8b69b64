-- ===== src/Ext4/Map.antt =====
-- The block of the disk that a block of a file stands in, through extents or indirect blocks, of
-- fs/ext4_core.c. A result is the block, 0 for a hole, or `none` for the result -1.
pub mod Extent
pub mod Indirect
use obsidian_kernel.Base.{
  ℕ, zero, suc, ◌+◌, ◌*◌, ◌-◌, ◌/◌, ◌%◌, ◌^◌, ◌==◌, ltb, leb, not, Bool, true, false, List, Option,
  none, some, if◌then◌else◌, drop, bit_and, u32, u64, read16, read32, ◌&&◌,
}
use obsidian_kernel.Ext4.{Disk, Ext4, read_scratch1}
use obsidian_kernel.Ext4.Inode.{ino_block, ino_flags}

-- Entry `i` of a node: an extent, or an index to a further node.
abbrev pub entry_at : ℕ → ℕ
entry_at i = 12 + i * 12

abbrev pub first_block : List ℕ → ℕ → ℕ
first_block node i = read32 node (entry_at i)

abbrev pub count : List ℕ → ℕ → ℕ
count node i = read16 node (entry_at i + 4)

abbrev pub start : List ℕ → ℕ → ℕ
start node i = read32 node (entry_at i + 8) + read16 node (entry_at i + 6) * 2 ^ 32

abbrev pub unwritten : List ℕ → ℕ → Bool
unwritten node i = leb 32768 (count node i)

abbrev pub leaf : List ℕ → ℕ → ℕ
leaf node i = read32 node (entry_at i + 4) + read16 node (entry_at i + 8) * 2 ^ 32

-- The blocks that an extent covers, written or not.
abbrev pub length_of : List ℕ → ℕ → ℕ
length_of node i = if unwritten node i then count node i - 32768 else count node i

abbrev pub covers : List ℕ → ℕ → ℕ → Bool
covers node i logical =
    leb (first_block node i) logical && ltb logical (u32 (first_block node i + length_of node i))

-- The search of a leaf, at entry `i` with `n` entries left.
unfoldable pub leaf_search : ℕ → ℕ → List ℕ → ℕ → ℕ
leaf_search zero i node logical = 0
leaf_search (suc n) i node logical =
    let rest = leaf_search n (i + 1) node logical in
    if not (covers node i logical)
    then rest
    else if unwritten node i
    then 0
    else u64 (start node i + logical + 2 ^ 64 - first_block node i)

-- The last entry of an index node that begins at or before the block.
unfoldable pub index_search : ℕ → ℕ → List ℕ → ℕ → Option ℕ → Option ℕ
index_search zero i node logical chosen = chosen
index_search (suc n) i node logical chosen =
    index_search n (i + 1) node logical
      (if leb (first_block node i) logical then some i else chosen)

abbrev pub entries_of : List ℕ → ℕ
entries_of node = read16 node 2

-- `stride *= bpp`, `k` times.
pub stride : ℕ → ℕ → ℕ
stride bpp zero = 1
stride bpp (suc k) = u32 (stride bpp k * bpp)

module _ {D : Type 0} (disk : Disk D) where
  -- The descent from an index node in `scratch1` along its chosen entry, `next` being the walk on.
  abbrev pub descend : (ℕ → Ext4 D → Option ℕ × Ext4 D) → Option ℕ → Ext4 D → Option ℕ × Ext4 D
  descend next none e = (none, e)
  descend next (some chosen) e = next (leaf e.scratch1 chosen) e

  -- The rounds of `extent_lookup`, with the depth left; `root` is the root in the inode.
  unfoldable pub extent_walk : ℕ → List ℕ → ℕ → ℕ → Ext4 D → Option ℕ × Ext4 D
  extent_walk zero root logical node_block e =
      (some (leaf_search (entries_of root) 0 root logical), e)
  extent_walk (suc depth) root logical node_block e =
      let (ok, e) = read_scratch1 disk node_block e in
      let chosen = index_search (entries_of e.scratch1) 0 e.scratch1 logical none in
      let below = descend (extent_walk depth root logical) chosen e in
      if not ok then (none, e) else below

  unfoldable pub extent_lookup : List ℕ → ℕ → Ext4 D → Option ℕ × Ext4 D
  extent_lookup i logical e =
      let root = drop ino_block i in
      if not (read16 root 0 == 0xF30A)
      then (none, e)
      else extent_walk (read16 root 6) root logical 0 e

  -- The rounds of `indirect_lookup` from a level down to 0.
  unfoldable pub indirect_level : ℕ → ℕ → ℕ → Ext4 D → Bool × ℕ × Ext4 D
  indirect_level level ind remaining e =
      let bpp = e.block_size / 4 in
      let (ok, e) = read_scratch1 disk ind e in
      let slot = u32 (remaining / stride bpp level % bpp) in
      (ok, read32 e.scratch1 (u32 (slot * 4)), e)

  unfoldable pub indirect_walk : ℕ → ℕ → ℕ → Ext4 D → Option ℕ × Ext4 D
  indirect_walk zero ind remaining e = (some ind, e)
  indirect_walk (suc level) ind remaining e =
      let (ok, next, read) = indirect_level level ind remaining e in
      let rest = indirect_walk level next remaining read in
      if ind == 0 then (some 0, e) else if not ok then (none, read) else rest

  unfoldable pub indirect_lookup : List ℕ → ℕ → Ext4 D → Option ℕ × Ext4 D
  indirect_lookup i logical e =
      let bpp = e.block_size / 4 in
      let single_max = u32 (12 + bpp) in
      let double_max = u32 (single_max + u32 (bpp * bpp)) in
      let block = λ (n : ℕ). read32 i (ino_block + 4 * n) in
      if ltb logical 12
      then (some (block logical), e)
      else if ltb logical single_max
      then indirect_walk 2 (block 12) (logical - 12) e
      else if ltb logical double_max
      then indirect_walk 3 (block 13) (logical - single_max) e
      else indirect_walk 4 (block 14) (logical - double_max) e

  unfoldable pub e4_bmap : List ℕ → ℕ → Ext4 D → Option ℕ × Ext4 D
  e4_bmap i file_block e =
      if not (bit_and (read32 i ino_flags) 0x00080000 == 0)
      then extent_lookup i file_block e
      else indirect_lookup i file_block e
