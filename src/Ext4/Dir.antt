-- ===== src/Ext4/Dir.antt =====
-- Directories of fs/ext4_fsops.c: the walk over the entries of a block, lookup, and the changes.
-- A name is its bytes without the NUL.
pub mod Change
pub mod Lookup
use obsidian_kernel.Base.{
  ℕ, zero, suc, ◌+◌, ◌*◌, ◌-◌, ◌/◌, ◌%◌, ◌^◌, ◌==◌, ltb, leb, Bool, true, false, List, [], ◌∷◌,
  ◌++◌, Option, none, some, if◌then◌else◌, replicate, u8, u16, u32, u64, le16, le32, read8, read16,
  read32, slice, blit, put16, put32, bit_and, ℤ, pos, negsuc, not, ◌||◌, ◌&&◌, length,
}
use obsidian_kernel.Blkdev.{c_string}
use obsidian_kernel.Str.{k_strcmp, k_strlen, mem_cmp}
use obsidian_kernel.Ext4.{Disk, Ext4, read_scratch1, read_scratch2}
use obsidian_kernel.Ext4.Group.{e4_sync_gd}
use obsidian_kernel.Ext4.Inode.{
  Scratch, scratch_1, scratch_2, dirent_tail_marker, e4_dir_block_checksum_set,
  e4_extent_block_checksum_set, e4_inode_size, e4_is_dir, e4_write_inode, ino_block, ino_flags,
  ino_size_lo,
}
use obsidian_kernel.Ext4.Map.{e4_bmap, entry_at, leaf, entries_of}
use obsidian_kernel.Ext4.Alloc.{e4_alloc_block_near}
use obsidian_kernel.Ext4.Extents.{Run, entry_bytes, in_root, add_iblocks}
use obsidian_kernel.Ext4.Io.{
  Io, pure, fail, gets, modify, attempt, checked, guard, host_inode, write_scratch1, write_scratch2,
  ◌>>=◌, ◌>>◌,
}

-- The fields of the entry at `d`.
abbrev pub d_inode : List ℕ → ℕ → ℕ
d_inode blk d = read32 blk d

abbrev pub d_rec_len : List ℕ → ℕ → ℕ
d_rec_len blk d = read16 blk (d + 4)

abbrev pub d_name_len : List ℕ → ℕ → ℕ
d_name_len blk d = read8 blk (d + 6)

abbrev pub d_file_type : List ℕ → ℕ → ℕ
d_file_type blk d = read8 blk (d + 7)

abbrev pub d_name : List ℕ → ℕ → List ℕ
d_name blk d = slice blk (d + 8) (d_name_len blk d)

-- An entry that the walks stop at: none fits, or its length is wrong.
abbrev pub stops : List ℕ → ℕ → ℕ → Bool
stops blk d top =
    ltb top (d + 8)
    || (d_rec_len blk d == 0)
    || not (bit_and (d_rec_len blk d) 3 == 0)
    || ltb top (d + d_rec_len blk d)

-- The one entry of a block of an indexed directory.
abbrev pub is_fake : List ℕ → ℕ → ℕ → Bool
is_fake blk d top = (d_rec_len blk d == top) && (d_name_len blk d == 0)

-- `(n + 3) & ~3`
abbrev pub pad4 : ℕ → ℕ
pad4 n = (n + 3) / 4 * 4

abbrev pub or_hole : Option ℕ → ℕ
or_hole none = 0
or_hole (some b) = b

abbrev pub is_none : Option ℕ → Bool
is_none none = true
is_none (some b) = false

abbrev pub is_ok : ℤ → Bool
is_ok (pos zero) = true
is_ok (pos (suc n)) = false
is_ok (negsuc n) = false

-- A callback takes a name, an inode, a type and its own state; 0 is to go on.
abbrev pub Callback : Type 0 → Type 0
Callback C = List ℕ → ℕ → ℕ → C → ℤ × C

-- The entries of a block of `top` bytes from `d` on; every entry takes 4 bytes at least.
unfoldable pub scan_dirent_block : {C : Type 0} → ℕ → ℕ → List ℕ → ℕ → ℕ → Callback C → C → ℤ × C
scan_dirent_block zero d blk top inodes cb c = (pos 0, c)
scan_dirent_block (suc n) d blk top inodes cb c =
    let next = d + d_rec_len blk d in
    let skipped = scan_dirent_block n next blk top inodes cb c in
    let called = cb (c_string (d_name blk d)) (d_inode blk d) (d_file_type blk d) c in
    let rest = scan_dirent_block n next blk top inodes cb called.1 in
    if stops blk d top || is_fake blk d top
    then (pos 0, c)
    else if d_inode blk d == 0
    then skipped
    else if (d_name_len blk d == 0)
        || ltb (d_rec_len blk d) (d_name_len blk d + 8)
        || ltb inodes (d_inode blk d)
    then (pos 0, c)
    else if is_ok called.0
    then rest
    else called

-- The state is the inode found.
pub lookup_cb : List ℕ → Callback ℕ
lookup_cb want name ino kind found =
    if is_ok (k_strcmp name want) then (pos 1, ino) else (pos 0, found)

-- The entry, from `d` on, that has room for `need` bytes, with the bytes it keeps.
pub find_slack : ℕ → ℕ → List ℕ → ℕ → ℕ → Option (ℕ × ℕ)
find_slack zero d blk top need = none
find_slack (suc n) d blk top need =
    let rl = d_rec_len blk d in
    let real = not (d_inode blk d == 0) && not (is_fake blk d top) in
    let minimal = if real then pad4 (8 + d_name_len blk d) else 0 in
    let rest = find_slack n (d + rl) blk top need in
    if stops blk d top
    then none
    else if leb need (u32 (rl + 2 ^ 32 - minimal))
    then some (d, minimal)
    else rest

abbrev pub dirent_bytes : ℕ → ℕ → List ℕ → ℕ → List ℕ
dirent_bytes ino rec_len name file_type =
    le32 ino ++ (le16 rec_len ++ (u8 (k_strlen name) ∷ u8 file_type ∷ name))

-- The new entry in the room of the one at `d`, which keeps `minimal` bytes. What would go past the
-- block, in a directory that is damaged, is dropped.
pub squeeze : List ℕ → ℕ × ℕ → ℕ → List ℕ → ℕ → List ℕ
squeeze blk (d, minimal) ino name file_type =
    let keep = u16 minimal in
    let rest = u16 (d_rec_len blk d + 2 ^ 16 - keep) in
    blit (put16 blk (d + 4) keep) (d + keep) (dirent_bytes ino rest name file_type)

-- The entry with a name, from `d` on.
pub find_name : ℕ → ℕ → List ℕ → ℕ → List ℕ → Option ℕ
find_name zero d blk top name = none
find_name (suc n) d blk top name =
    let rest = find_name n (d + d_rec_len blk d) blk top name in
    let same = (d_name_len blk d == k_strlen name) && is_ok (mem_cmp (d_name blk d) name) in
    if stops blk d top then none else if not (d_inode blk d == 0) && same then some d else rest

-- `.` and `..`
abbrev pub is_dots : List ℕ → ℕ → Bool
is_dots blk d =
    ((d_name_len blk d == 1) && (read8 blk (d + 8) == 46))
    || ((d_name_len blk d == 2) && (read8 blk (d + 8) == 46) && (read8 blk (d + 9) == 46))

-- No entry from `d` on but these.
pub only_dots : ℕ → ℕ → List ℕ → ℕ → Bool
only_dots zero d blk top = true
only_dots (suc n) d blk top =
    let rest = only_dots n (d + d_rec_len blk d) blk top in
    if stops blk d top || is_fake blk d top
    then true
    else if not (d_inode blk d == 0) && not (is_dots blk d)
    then false
    else rest

module _ {D : Type 0} where
  -- The rounds of a walk over a block.
  abbrev pub walk : Ext4 D → ℕ
  walk e = suc (e.block_size / 4)

  abbrev pub dir_blocks : List ℕ → Ext4 D → ℕ
  dir_blocks din e = u64 (e4_inode_size din e + e.block_size + 2 ^ 64 - 1) / e.block_size

  module _ (disk : Disk D) where
    -- The blocks from number `bi` on, `n` of them.
    unfoldable pub iterate_blocks :
        {C : Type 0} → ℕ → ℕ → List ℕ → Callback C → C → Ext4 D → ℤ × C × Ext4 D
    iterate_blocks zero bi din cb c e = (pos 0, c, e)
    iterate_blocks (suc n) bi din cb c e =
        let (db, mapped) = e4_bmap disk din bi e in
        let (ok, read) = read_scratch1 disk (or_hole db) mapped in
        let scanned =
          scan_dirent_block (walk read) 0 read.scratch1 read.block_size read.inodes_count cb c in
        let hole = iterate_blocks n (bi + 1) din cb c mapped in
        let rest = iterate_blocks n (bi + 1) din cb scanned.1 read in
        if is_none db
        then (negsuc 0, c, mapped)
        else if or_hole db == 0
        then hole
        else if not ok
        then (negsuc 0, c, read)
        else if is_ok scanned.0
        then rest
        else (scanned.0, scanned.1, read)

    unfoldable pub e4_iterate_dir : {C : Type 0} → ℕ → Callback C → C → Ext4 D → ℤ × C × Ext4 D
    e4_iterate_dir {C} dir_ino cb c e = iterate (host_inode disk dir_ino e)
      where
        iterate : Option (List ℕ) × Ext4 D → ℤ × C × Ext4 D
        iterate (none, e) = (negsuc 0, c, e)
        iterate (some din, e) =
            if not (e4_is_dir din)
            then (negsuc 0, c, e)
            else iterate_blocks (dir_blocks din e) 0 din cb c e

    unfoldable pub e4_dir_lookup : ℕ → List ℕ → Io D ℕ
    e4_dir_lookup dir_ino name e =
        let (rc, found, after) = e4_iterate_dir dir_ino (lookup_cb name) 0 e in
        if not (is_ok rc)
        then (none, after)
        else if found == 0
        then (none, after)
        else (some found, after)

    pub empty_blocks : ℕ → ℕ → List ℕ → Ext4 D → Bool × Ext4 D
    empty_blocks zero bi din e = (true, e)
    empty_blocks (suc n) bi din e =
        let (db, mapped) = e4_bmap disk din bi e in
        let (ok, read) = read_scratch1 disk (or_hole db) mapped in
        let hole = empty_blocks n (bi + 1) din mapped in
        let rest = empty_blocks n (bi + 1) din read in
        if or_hole db == 0
        then hole
        else if ok && not (only_dots (walk read) 0 read.scratch1 read.block_size)
        then (false, read)
        else rest

    pub e4_dir_empty : ℕ → Ext4 D → Bool × Ext4 D
    e4_dir_empty dir_ino e = empty (host_inode disk dir_ino e)
      where
        empty : Option (List ℕ) × Ext4 D → Bool × Ext4 D
        empty (none, e) = (false, e)
        empty (some din, e) = empty_blocks (dir_blocks din e) 0 din e
