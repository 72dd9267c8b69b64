-- ===== src/Ext4/Dir/Change.antt =====
-- Adding and removing entries, of fs/ext4_fsops.c.
use obsidian_kernel.Base.{
  ℕ, zero, suc, ◌+◌, ◌-◌, ◌/◌, ◌^◌, ◌==◌, ltb, leb, Bool, true, false, List, [], ◌∷◌, Option, none,
  some, if◌then◌else◌, replicate, u16, u32, read16, read32, blit, put16, put32, bit_and, pos, not,
  drop,
}
use obsidian_kernel.Str.{k_strlen}
use obsidian_kernel.Ext4.{Disk, Ext4, read_scratch1, read_scratch2}
use obsidian_kernel.Ext4.Group.{e4_sync_gd}
use obsidian_kernel.Ext4.Inode.{
  scratch_1, scratch_2, dirent_tail_marker, e4_dir_block_checksum_set, e4_extent_block_checksum_set,
  e4_write_inode, ino_block, ino_flags, ino_size_lo,
}
use obsidian_kernel.Ext4.Map.{e4_bmap, entry_at, leaf, entries_of}
use obsidian_kernel.Ext4.Alloc.{e4_alloc_block_near}
use obsidian_kernel.Ext4.Extents.{Run, entry_bytes, in_root, add_iblocks}
use obsidian_kernel.Ext4.Dir.{
  pad4, or_hole, walk, dir_blocks, find_slack, squeeze, find_name, dirent_bytes,
}
use obsidian_kernel.Ext4.Io.{
  Io, pure, fail, gets, modify, attempt, checked, guard, host_inode, write_scratch1, write_scratch2,
  ◌>>=◌, ◌>>◌,
}

abbrev pub ino_mtime : ℕ
ino_mtime = 0x10

abbrev pub ino_ctime : ℕ
ino_ctime = 0x0C

-- An extent of one block as the next entry of a node.
pub append_entry : ℕ → ℕ → List ℕ → List ℕ
append_entry file_block blk node =
    let n = entries_of node in
    let run : Run = record { start = blk; first_block = file_block; count = 1 } in
    put16 (blit node (entry_at n) (entry_bytes run)) 2 (u16 (n + 1))

module _ {D : Type 0} (disk : Disk D) where
  -- The bytes of a block that the checksum's tail takes.
  abbrev pub tail_room : Ext4 D → ℕ
  tail_room e = if e.meta_csum then 12 else 0

  -- The room that was found is used, and the block `db` is written.
  abbrev pub place : ℕ → ℕ → List ℕ → ℕ → ℕ → ℕ × ℕ → Io D Bool
  place dir_ino db name child_ino file_type found = do
    modify (λ e. record e { scratch1 = squeeze e.scratch1 found child_ino name file_type })
    modify (e4_dir_block_checksum_set disk dir_ino scratch_1)
    checked (write_scratch1 disk db)
    pure true

  abbrev pub place_or : Io D Bool → (ℕ × ℕ → Io D Bool) → Option (ℕ × ℕ) → Io D Bool
  place_or next use_room none = next
  place_or next use_room (some found) = use_room found

  abbrev pub unless_hole : Io D Bool → Io D Bool → ℕ → Io D Bool
  unless_hole next use_block db = if db == 0 then next else use_block

  -- Whether the name went into one of the blocks from number `bi` on, `n` of them.
  pub add_to_blocks : ℕ → ℕ → ℕ → List ℕ → List ℕ → ℕ → ℕ → Io D Bool
  add_to_blocks zero bi dir_ino din name child_ino file_type = pure false
  add_to_blocks (suc n) bi dir_ino din name child_ino file_type = do
    let next = add_to_blocks n (bi + 1) dir_ino din name child_ino file_type
    let need = pad4 (8 + k_strlen name)
    db ← attempt (e4_bmap disk din bi)
    unless_hole next
        (do
          checked (read_scratch1 disk (or_hole db))
          found ← gets (λ e. find_slack (walk e) 0 e.scratch1 e.block_size need)
          place_or next (place dir_ino (or_hole db) name child_ino file_type) found)
        (or_hole db)

  -- A block with one entry, and the checksum's tail.
  pub fresh_block : ℕ → List ℕ → ℕ → Ext4 D → List ℕ
  fresh_block child_ino name file_type e =
      let span = e.block_size - tail_room e in
      let one =
        blit (replicate e.block_size 0) 0 (dirent_bytes child_ino (u16 span) name file_type) in
      if e.meta_csum
      then put16 (blit one (span + 6) (dirent_tail_marker ∷ 0 ∷ [])) (span + 4) 12
      else one

  -- The new block in the directory's tree: in the root, or in the last leaf.
  abbrev pub attach_deep : ℕ → ℕ → ℕ → List ℕ → Io D (List ℕ)
  attach_deep dir_ino file_block blk din = do
    let root = drop ino_block din
    let lb = leaf root (u16 (entries_of root + 2 ^ 16 - 1))
    checked (read_scratch2 disk lb)
    has_room ← gets (λ e. ltb (entries_of e.scratch2) (read16 e.scratch2 4))
    guard has_room
    modify (λ e. record e { scratch2 = append_entry file_block blk e.scratch2 })
    modify (e4_extent_block_checksum_set disk dir_ino scratch_2)
    checked (write_scratch2 disk lb)
    pure din

  pub attach : ℕ → ℕ → ℕ → List ℕ → Io D (List ℕ)
  attach dir_ino file_block blk din =
      let root = drop ino_block din in
      let depth = read16 root 6 in
      if not (read16 root 0 == 0xF30A)
      then fail
      else if depth == 0
      then (if leb (read16 root 4) (entries_of root)
          then fail
          else pure (in_root (append_entry file_block blk) din))
      else if depth == 1
      then attach_deep dir_ino file_block blk din
      else fail

  -- A further block of the directory, at the time `now`.
  pub add_block : ℕ → ℕ → List ℕ → List ℕ → ℕ → ℕ → Io D (Unit {0})
  add_block now dir_ino din name child_ino file_type = do
    nblocks ← gets (dir_blocks din)
    guard (not (bit_and (read32 din ino_flags) 0x00080000 == 0))
    g ← gets (λ e. (dir_ino - 1) / e.inodes_per_group)
    newblk ← e4_alloc_block_near disk g
    modify (λ e. record e { scratch1 = fresh_block child_ino name file_type e })
    modify (e4_dir_block_checksum_set disk dir_ino scratch_1)
    checked (write_scratch1 disk newblk)
    din ← attach dir_ino nblocks newblk din
    din ← gets (λ e.
        add_iblocks (put32 din ino_size_lo (u32 (read32 din ino_size_lo + e.block_size)))
          (pos e.block_size) e)
    checked
        (e4_write_inode disk dir_ino (put32 (put32 din ino_mtime (u32 now)) ino_ctime (u32 now)))
    group ← gets (λ e. u32 ((newblk - e.first_data_block) / e.blocks_per_group))
    checked (e4_sync_gd disk group)

  pub e4_dir_add_entry : ℕ → ℕ → List ℕ → ℕ → ℕ → Io D (Unit {0})
  e4_dir_add_entry now dir_ino name child_ino file_type = do
    din ← host_inode disk dir_ino
    guard (bit_and (read32 din ino_flags) 0x00001000 == 0)
    fits ← gets (λ e. leb (pad4 (8 + k_strlen name)) (e.block_size - tail_room e))
    guard fits
    nblocks ← gets (dir_blocks din)
    placed ← add_to_blocks nblocks 0 dir_ino din name child_ino file_type
    if placed then pure tt else add_block now dir_ino din name child_ino file_type

  -- The entry at `d` of the block `db` is left without an inode.
  abbrev pub clear_entry : ℕ → ℕ → ℕ → Io D Bool
  clear_entry dir_ino db d = do
    modify (λ e. record e { scratch1 = put32 e.scratch1 d 0 })
    modify (e4_dir_block_checksum_set disk dir_ino scratch_1)
    checked (write_scratch1 disk db)
    pure true

  abbrev pub clear_or : Io D Bool → (ℕ → Io D Bool) → Option ℕ → Io D Bool
  clear_or next clear none = next
  clear_or next clear (some d) = clear d

  pub remove_from_blocks : ℕ → ℕ → ℕ → List ℕ → List ℕ → Io D Bool
  remove_from_blocks zero bi dir_ino din name = pure false
  remove_from_blocks (suc n) bi dir_ino din name = do
    let next = remove_from_blocks n (bi + 1) dir_ino din name
    db ← attempt (e4_bmap disk din bi)
    unless_hole next
        (do
          checked (read_scratch1 disk (or_hole db))
          found ← gets (λ e. find_name (walk e) 0 e.scratch1 e.block_size name)
          clear_or next (clear_entry dir_ino (or_hole db)) found)
        (or_hole db)

  pub e4_dir_remove_entry : ℕ → List ℕ → Io D (Unit {0})
  e4_dir_remove_entry dir_ino name = do
    din ← host_inode disk dir_ino
    nblocks ← gets (dir_blocks din)
    removed ← remove_from_blocks nblocks 0 dir_ino din name
    guard removed
