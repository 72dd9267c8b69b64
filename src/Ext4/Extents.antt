-- ===== src/Ext4/Extents.antt =====
-- Extent trees of fs/ext4_fsops.c: the runs of blocks of a file, the tree that is built of them, and
-- the appending of blocks. An inode that the caller passes is returned changed; on a failure the
-- callers drop it.
pub mod Inline
pub mod Merge
use obsidian_kernel.Base.{
  ℕ, zero, suc, ◌+◌, ◌*◌, ◌-◌, ◌/◌, ◌%◌, ◌^◌, ◌==◌, ltb, leb, Bool, true, false, List, [], ◌∷◌,
  ◌++◌, Option, none, some, if◌then◌else◌, replicate, reverse, take, drop, u16, u32, u64, le16,
  le32, read16, read32, slice, blit, put16, put32, ℤ, pos, negsuc, length, ◌&&◌, not,
}
use obsidian_kernel.Ext4.{Disk, Ext4}
use obsidian_kernel.Ext4.Inode.{ino_block, e4_extent_block_checksum_set, Scratch, scratch_1}
use obsidian_kernel.Ext4.Map.{entry_at}
use obsidian_kernel.Ext4.Alloc.{e4_alloc_block_near}
use obsidian_kernel.Ext4.Io.{
  Io, pure, fail, gets, modify, checked, guard, write_scratch1, write_scratch2, ◌>>=◌, ◌>>◌,
}

pub record Run : Type 0 where
  pub start : ℕ
  pub first_block : ℕ
  pub count : ℕ

abbrev pub ino_blocks_lo : ℕ
ino_blocks_lo = 0x1C

abbrev pub ino_blocks_hi : ℕ
ino_blocks_hi = 0x74

abbrev pub root_max_entries : ℕ
root_max_entries = 4

-- The count of sectors moved by a signed number of bytes, not below 0.
abbrev pub moved : ℕ → ℤ → ℕ
moved cur (pos n) = cur + n / 512
moved cur (negsuc n) = cur - suc n / 512

-- An extent as its 12 bytes.
abbrev pub entry_bytes : Run → List ℕ
entry_bytes r =
    le32 r.first_block
    ++ (le16 (if r.count == 32768 then 32767 else r.count)
        ++ (le16 (r.start / 2 ^ 32) ++ le32 r.start))

-- The extents of the runs in a node, from entry `i` on.
unfoldable pub put_entries : List Run → ℕ → List ℕ → List ℕ
put_entries [] i node = node
put_entries (r ∷ runs) i node = put_entries runs (i + 1) (blit node (entry_at i) (entry_bytes r))

-- A node's header.
abbrev pub header_bytes : ℕ → ℕ → ℕ → List ℕ
header_bytes entries max depth =
    le16 0xF30A ++ (le16 entries ++ (le16 max ++ (le16 depth ++ le32 0)))

-- The indices of the leaves, which stand in `blocks`, in the root; a leaf takes `cap` runs.
pub put_indices : List ℕ → ℕ → ℕ → List Run → List ℕ → List ℕ
put_indices [] i cap runs root = root
put_indices (b ∷ blocks) i cap runs root =
    put_indices blocks (i + 1) cap (drop cap runs)
      (blit root (entry_at i) (le32 (first_of runs) ++ (le32 b ++ (le16 (b / 2 ^ 32) ++ le16 0))))
  where
    first_of : List Run → ℕ
    first_of [] = 0
    first_of (r ∷ rs) = r.first_block

-- A change of the root of the tree in an inode.
abbrev pub in_root : (List ℕ → List ℕ) → List ℕ → List ℕ
in_root f i = blit i ino_block (f (drop ino_block i))

-- The tree in an inode of a few runs.
unfoldable pub build_inline : List Run → List ℕ → List ℕ
build_inline runs i =
    in_root
      (λ root. put_entries runs 0 (blit root 0 (header_bytes (length runs) root_max_entries 0))) i

-- A block is put behind the last run if it continues it, else it begins a run. The runs stand in
-- the opposite order.
unfoldable pub add_run : ℕ → ℕ → List Run → List Run
add_run blk file_block [] = record { start = blk; first_block = u32 file_block; count = 1 } ∷ []
add_run blk file_block (r ∷ runs) =
    if u64 (r.start + r.count) == blk && u32 (r.first_block + r.count) == file_block
    then record r { count = r.count + 1 } ∷ runs
    else record { start = blk; first_block = u32 file_block; count = 1 } ∷ r ∷ runs

module _ {D : Type 0} where
  pub add_iblocks : List ℕ → ℤ → Ext4 D → List ℕ
  add_iblocks i delta_bytes e =
      let big = ltb 128 e.inode_size in
      let hi = if big then read16 i ino_blocks_hi * 2 ^ 32 else 0 in
      let cur = moved (read32 i ino_blocks_lo + hi) delta_bytes in
      let low = put32 i ino_blocks_lo (u32 cur) in
      if big then put16 low ino_blocks_hi (u16 (cur / 2 ^ 32)) else low

  -- The extents that a leaf block can hold.
  pub leaf_max : Ext4 D → ℕ
  leaf_max e = u32 (e.block_size + 2 ^ 32 - 12 - (if e.meta_csum then 4 else 0)) / 12

  pub leaf_capacity : Ext4 D → ℕ
  leaf_capacity e = if leaf_max e == 0 then 1 else leaf_max e

  module _ (disk : Disk D) where
    -- The leaf's block. The leaf is made in `scratch1`, which the checksum reads the inode into.
    pub write_leaf : ℕ → List Run → Io D ℕ
    write_leaf ino runs = do
      blk ← e4_alloc_block_near disk 0
      modify (λ e. record e {
        scratch1 = put_entries runs 0 (
            blit (replicate e.block_size 0) 0
              (header_bytes (u16 (length runs)) (u16 (leaf_max e)) 0));
      })
      modify (e4_extent_block_checksum_set disk ino scratch_1)
      checked (write_scratch1 disk blk)
      pure blk

    -- `leaves` leaves of `cap` runs each, with the inode's count of sectors.
    pub write_leaves : ℕ → ℕ → ℕ → List Run → List ℕ → Io D (List ℕ × List ℕ)
    write_leaves zero cap ino runs i = pure ([], i)
    write_leaves (suc leaves) cap ino runs i = do
      blk ← write_leaf ino (take cap runs)
      i ← gets (λ e. add_iblocks i (pos e.block_size) e)
      rest ← write_leaves leaves cap ino (drop cap runs) i
      pure (blk ∷ rest.0, rest.1)

    abbrev pub build_deep : ℕ → List Run → List ℕ → Io D (List ℕ)
    build_deep ino runs i = do
      cap ← gets leaf_capacity
      let leaves = u32 (length runs + cap + 2 ^ 32 - 1) / cap
      guard (leb leaves root_max_entries)
      made ← write_leaves leaves cap ino runs i
      pure (
          in_root
            (λ root.
              blit (put_indices made.0 0 cap runs root) 0 (header_bytes leaves root_max_entries 1))
            made.1)

    unfoldable pub build_tree : ℕ → List Run → List ℕ → Io D (List ℕ)
    build_tree ino runs i =
        if leb (length runs) root_max_entries
        then pure (build_inline runs i)
        else build_deep ino runs i

    -- The blocks from number `done` on, `n` of them. `data` is none for zeros; C reads past its end
    -- where it does not fill its last block, and the bytes there are zeros here.
    pub append_loop : ℕ → ℕ → ℕ → Option (List ℕ) → List Run → Io D (List Run)
    append_loop zero done start bytes runs = pure runs
    append_loop (suc n) done start bytes runs = do
      hint ← gets (λ e. u32 ((start + done) / e.blocks_per_group))
      blk ← e4_alloc_block_near disk hint
      modify (λ e. record e { scratch2 = content e bytes })
      checked (write_scratch2 disk blk)
      append_loop n (done + 1) start bytes (add_run blk (start + done) runs)
      where
        content : Ext4 D → Option (List ℕ) → List ℕ
        content e none = replicate e.block_size 0
        content e (some b) =
            blit (replicate e.block_size 0) 0 (take e.block_size (drop (done * e.block_size) b))

    -- With whether `kzalloc` returned a block.
    unfoldable pub e4_append_blocks : Bool → List ℕ → ℕ → ℕ → ℕ → Option (List ℕ) → Io D (List ℕ)
    e4_append_blocks room i ino start count bytes = do
      guard room
      runs ← append_loop count 0 start bytes []
      built ← build_tree ino (reverse runs) i
      gets (λ e. add_iblocks built (pos (count * e.block_size)) e)
