-- ===== src/Ext4/Truncate.antt =====
-- The release of a file's blocks, of fs/ext4_fsops.c.
use obsidian_kernel.Base.{
  ℕ, zero, suc, ◌+◌, ◌*◌, ◌-◌, ◌/◌, ◌==◌, Bool, List, [], ◌∷◌, none, some, if◌then◌else◌, replicate,
  drop, u64, read16, read32, put16, put32, bit_and, min, not, ◌||◌, ◌-ℤ◌,
}
use obsidian_kernel.Ext4.{Disk, Ext4, e4_read_block}
use obsidian_kernel.Ext4.Inode.{ino_block, ino_flags, ino_size_lo, ino_size_hi}
use obsidian_kernel.Ext4.Map.{start, unwritten, leaf, length_of, entries_of}
use obsidian_kernel.Ext4.Alloc.{e4_free_block}
use obsidian_kernel.Ext4.Extents.{add_iblocks, in_root, root_max_entries}
use obsidian_kernel.Ext4.Io.{Io}

-- The children that a block of block numbers names, from number `i` on.
pub children : ℕ → ℕ → List ℕ → List ℕ
children zero i snapshot = []
children (suc n) i snapshot = read32 snapshot (i * 4) ∷ children n (i + 1) snapshot

module _ {D : Type 0} (disk : Disk D) where
  -- The blocks from `blk` on, `n` of them.
  pub free_run : ℕ → ℕ → Ext4 D → Ext4 D
  free_run zero blk e = e
  free_run (suc n) blk e = free_run n (blk + 1) (e4_free_block disk (u64 blk) e).1

  -- The extents of a root without levels, from entry `i` on; the blocks that were freed.
  pub free_extents : ℕ → ℕ → List ℕ → Ext4 D → ℕ × Ext4 D
  free_extents zero i root e = (0, e)
  free_extents (suc n) i root e =
      let freed = if unwritten root i then e else free_run (length_of root i) (start root i) e in
      let rest = free_extents n (i + 1) root freed in
      (rest.0 + (if unwritten root i then 0 else length_of root i), rest.1)

  -- The leaves of a root with levels, and not what they name.
  pub free_leaves : ℕ → ℕ → List ℕ → Ext4 D → Ext4 D
  free_leaves zero i root e = e
  free_leaves (suc n) i root e =
      free_leaves n (i + 1) root
        (if leaf root i == 0 then e else (e4_free_block disk (leaf root i) e).1)

  pub free_extent_tree : List ℕ → Ext4 D → List ℕ × Ext4 D
  free_extent_tree i e =
      let root = drop ino_block i in
      let entries = entries_of root in
      let shallow = free_extents (min entries root_max_entries) 0 root e in
      let deep : ℕ × Ext4 D = (entries, free_leaves (min entries (read16 root 4)) 0 root e) in
      let freed = if read16 root 6 == 0 then shallow else deep in
      let counted = add_iblocks i (0 -ℤ (freed.0 * e.block_size)) freed.1 in
      if not (read16 root 0 == 0xF30A) || entries == 0
      then (i, e)
      else (in_root (λ root. put16 (put16 root 2 0) 6 0) counted, freed.1)

  -- The subtrees of a list of blocks, with the count of what was freed.
  abbrev pub free_each : (ℕ → ℕ → Ext4 D → ℕ × Ext4 D) → List ℕ → ℕ → Ext4 D → ℕ × Ext4 D
  free_each free [] freed e = (freed, e)
  free_each free (b ∷ blocks) freed e =
      let next = free b freed e in free_each free blocks next.0 next.1

  abbrev pub free_one : ℕ → ℕ → Ext4 D → ℕ × Ext4 D
  free_one blk freed e = (freed + 1, (e4_free_block disk blk e).1)

  -- The subtree of a block, with its levels. `room` says which snapshots `kmalloc` has a block for.
  pub free_indirect_tree : (ℕ → Bool) → ℕ → ℕ → ℕ → Ext4 D → ℕ × Ext4 D
  free_indirect_tree room zero blk freed e = if blk == 0 then (freed, e) else free_one blk freed e
  free_indirect_tree room (suc levels) blk freed e =
      let (ok, snapshot, read) = e4_read_block disk blk (replicate e.block_size 0) e in
      let below =
        free_each (free_indirect_tree room levels) (children (e.block_size / 4) 0 snapshot) freed
          read in
      if blk == 0 || not (room blk)
      then (freed, e)
      else if not ok
      then (freed, read)
      else free_one blk below.0 below.1

  -- The direct blocks, from number `n` - 1 down.
  pub free_direct : ℕ → List ℕ → ℕ → Ext4 D → List ℕ × ℕ × Ext4 D
  free_direct zero i freed e = (i, freed, e)
  free_direct (suc n) i freed e =
      let at = ino_block + n * 4 in
      let blk = read32 i at in
      let rest = free_direct n (put32 i at 0) (freed + 1) (e4_free_block disk blk e).1 in
      let skipped = free_direct n i freed e in if blk == 0 then skipped else rest

  -- The indirect blocks, from number `which` on.
  pub free_indirect : (ℕ → Bool) → ℕ → ℕ → List ℕ → ℕ → Ext4 D → List ℕ × ℕ × Ext4 D
  free_indirect room zero which i freed e = (i, freed, e)
  free_indirect room (suc n) which i freed e =
      let at = ino_block + which * 4 in
      let next = free_indirect_tree room (which - 11) (read32 i at) freed e in
      free_indirect room n (which + 1) (put32 i at 0) next.0 next.1

  -- The inode with no blocks.
  abbrev pub released : (ℕ → Bool) → List ℕ → Ext4 D → List ℕ × Ext4 D
  released room i e =
      let (direct, few, one) = free_direct 12 i 0 e in
      let (all, freed, two) = free_indirect room 3 12 direct few one in
      if not (bit_and (read32 i ino_flags) 0x00080000 == 0)
      then free_extent_tree i e
      else (add_iblocks all (0 -ℤ (freed * two.block_size)) two, two)

  pub e4_truncate : (ℕ → Bool) → List ℕ → ℕ → Io D (List ℕ)
  e4_truncate room i new_size e =
      let (done, after) = released room i e in
      if not (new_size == 0)
      then (none, e)
      else (some (put32 (put32 done ino_size_lo 0) ino_size_hi 0), after)
