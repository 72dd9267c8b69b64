-- ===== src/Ext4/Files.antt =====
-- The public operations on files of fs/ext4_mount.c. `room` says which blocks `kmalloc` has, `now` is
-- the time, and the bytes to write are `bytes`.
pub mod Fails
use obsidian_kernel.Base.{
  ℕ, zero, suc, ◌+◌, ◌*◌, ◌-◌, ◌/◌, ◌%◌, ◌^◌, ◌==◌, ltb, leb, Bool, true, false, List, [], ◌∷◌,
  ◌++◌, Option, none, some, if◌then◌else◌, replicate, reverse, ◌&&◌, min, take, drop, u16, u32, u64,
  read32, slice, put16, put32, bit_and, bit_xor, not, is_null, length, ℤ, pos, negsuc,
}
use obsidian_kernel.Ext4.{Disk, Ext4, read_scratch1, e4_sync_superblock}
use obsidian_kernel.Ext4.Group.{e4_sb_recompute_checksum, e4_sync_gd}
use obsidian_kernel.Ext4.Inode.{
  e4_inode_size, e4_is_dir, e4_write_inode, inode_struct_size, ino_flags, ino_mode, ino_size_lo,
  ino_size_hi, ino_generation, ino_extra_isize,
}
use obsidian_kernel.Ext4.Map.{e4_bmap}
use obsidian_kernel.Ext4.Alloc.{e4_alloc_inode, e4_free_inode, e4_count_free}
use obsidian_kernel.Ext4.Extents.{e4_append_blocks}
use obsidian_kernel.Ext4.Truncate.{e4_truncate}
use obsidian_kernel.Ext4.Dir.{Callback, e4_iterate_dir, e4_dir_lookup, e4_dir_empty, is_ok}
use obsidian_kernel.Ext4.Dir.Change.{e4_dir_add_entry, e4_dir_remove_entry, ino_mtime, ino_ctime}
use obsidian_kernel.Ext4.Path.{resolve_full, resolve_parent, ext4_root_ino}
use obsidian_kernel.Ext4.Io.{
  Io, pure, fail, gets, modify, attempt, checked, ignored, guard, host_inode, ◌>>=◌, ◌>>◌,
}

abbrev pub ino_atime : ℕ
ino_atime = 0x08

abbrev pub ino_links_count : ℕ
ino_links_count = 0x1A

abbrev pub ino_crtime : ℕ
ino_crtime = 0x90

abbrev pub det_reg : ℕ
det_reg = 1

abbrev pub ext4_write_cap : ℕ
ext4_write_cap = 16 * 2 ^ 20

-- `struct ext4_dirent_info`
pub record DirentInfo : Type 0 where
  pub name : List ℕ
  pub kind : ℕ
  pub inode : ℕ

-- The entries so far, the last first, and the number of places left.
pub list_cb : Callback (List DirentInfo × ℕ)
list_cb name ino kind (out, zero) = (pos 1, (out, zero))
list_cb name ino kind (out, suc n) =
    (pos 0, (record { name = name; kind = kind; inode = ino } ∷ out, n))

module _ {D : Type 0} (disk : Disk D) where
  -- The bytes of `chunk` from `boff` of a block, or zeros for a hole.
  abbrev pub read_chunk : ℕ → ℕ → ℕ → Io D (List ℕ)
  read_chunk boff chunk db =
      if db == 0
      then pure (replicate chunk 0)
      else (do checked (read_scratch1 disk db); gets (λ e. slice e.scratch1 boff chunk))

  -- The bytes from `done` up to `want`, with the rounds left: each reads a byte at least.
  pub read_loop : ℕ → ℕ → ℕ → List ℕ → Io D (List ℕ)
  read_loop zero done want i = pure []
  read_loop (suc n) done want i =
      let onward : Io D (List ℕ) = (do
        bs ← gets (λ e. e.block_size)
        let boff = done % bs
        let chunk = min (bs - boff) (want - done)
        db ← e4_bmap disk i (done / bs)
        got ← read_chunk boff chunk db
        rest ← read_loop n (done + chunk) want i
        pure (got ++ rest)) in
      if leb want done then pure [] else onward

  abbrev pub read_file : ℕ → ℕ → Io D (List ℕ)
  read_file max_len ino = do
    i ← host_inode disk ino
    guard (not (e4_is_dir i))
    size ← gets (e4_inode_size i)
    let want = min size max_len
    read_loop want 0 want i

  unfoldable pub ext4_read : List ℕ → ℕ → Io D (List ℕ)
  ext4_read path max_len = do
    mounted ← gets (λ e. not (is_null e.dev))
    guard mounted
    ino ← resolve_full disk path
    read_file max_len ino

  -- The inode with its times and size.
  abbrev pub stamped : ℕ → ℕ → List ℕ → List ℕ
  stamped now len i =
      let sized = put32 (put32 i ino_size_lo len) ino_size_hi 0 in
      put32 (put32 (put32 sized ino_mtime (u32 now)) ino_ctime (u32 now)) ino_atime (u32 now)

  pub do_replace : (ℕ → Bool) → ℕ → ℕ → List ℕ → List ℕ → Io D (List ℕ)
  do_replace room now ino i bytes = do
    guard (not (bit_and (read32 i ino_flags) 0x00080000 == 0))
    i ← e4_truncate disk room i 0
    nblocks ← gets (λ e. u32 (length bytes + e.block_size + 2 ^ 32 - 1) / e.block_size)
    i ← if nblocks == 0 then pure i else e4_append_blocks disk (room 0) i ino 0 nblocks (some bytes)
    checked (e4_write_inode disk ino (stamped now (length bytes) i))
    pure (stamped now (length bytes) i)

  -- The superblock's checksum is set, and it is written.
  abbrev pub flush_super : Io D (Unit {0})
  flush_super = do modify e4_sb_recompute_checksum; ignored (e4_sync_superblock disk)

  -- The inode of a new file.
  abbrev pub fresh_inode : ℕ → ℕ → Ext4 D → List ℕ
  fresh_inode now ino e =
      let mode = put16 (replicate inode_struct_size 0) ino_mode 0x81A4 in
      let links = put16 mode ino_links_count 1 in
      let flags = put32 links ino_flags 0x00080000 in
      let times =
        put32 (put32 (put32 flags ino_atime (u32 now)) ino_ctime (u32 now)) ino_mtime (u32 now) in
      let made = put32 times ino_crtime (u32 now) in
      let numbered = put32 made ino_generation (u32 (bit_xor now (u32 (ino * 2654435761)))) in
      if ltb 128 e.inode_size
      then put16 numbered ino_extra_isize (min 32 (e.inode_size - 128))
      else numbered

  -- An inode is given back, and the call fails.
  abbrev pub give_back : ℕ → ℕ → Io D (Unit {0})
  give_back ino group = do ignored (e4_free_inode disk ino); ignored (e4_sync_gd disk group); fail

  abbrev pub or_give_back :
      {A : Type 0} → Io D (Unit {0}) → (A → Io D (Unit {0})) → Option A → Io D (Unit {0})
  or_give_back back next none = back
  or_give_back back next (some a) = next a

  -- The file `name` in the directory `parent` is made.
  pub create_file : (ℕ → Bool) → ℕ → ℕ → List ℕ → List ℕ → Io D (Unit {0})
  create_file room now parent name bytes = do
    host_inode disk parent
    pref ← gets (λ e. (parent - 1) / e.inodes_per_group)
    ino ← e4_alloc_inode disk pref 0x81A4
    i ← gets (fresh_inode now ino)
    replaced ← attempt (do_replace room now ino i bytes)
    or_give_back (give_back ino pref)
        (λ i. do
          added ← attempt (e4_dir_add_entry disk now parent name ino det_reg)
          or_give_back (do attempt (e4_truncate disk room i 0); give_back ino pref)
              (λ _. flush_super) added)
        replaced

  -- The file `existing` is replaced.
  pub replace_file : (ℕ → Bool) → ℕ → ℕ → List ℕ → Io D (Unit {0})
  replace_file room now existing bytes = do
    i ← host_inode disk existing
    guard (not (e4_is_dir i))
    do_replace room now existing i bytes
    flush_super

  pub ext4_write : (ℕ → Bool) → ℕ → List ℕ → List ℕ → Io D (Unit {0})
  ext4_write room now path bytes = do
    mounted ← gets (λ e. not (is_null e.dev))
    guard mounted
    guard (leb (length bytes) ext4_write_cap)
    target ← resolve_parent disk path
    existing ← attempt (e4_dir_lookup disk target.1 target.0)
    or_give_back (create_file room now target.1 target.0 bytes)
        (λ ino. replace_file room now ino bytes) existing

  -- The inode `victim`, which the directory `parent` calls `name`, is let go.
  abbrev pub unlink_file : (ℕ → Bool) → ℕ → List ℕ → ℕ → Io D (Unit {0})
  unlink_file room parent name victim = do
    guard (not (victim == ext4_root_ino))
    v ← host_inode disk victim
    if e4_is_dir v then checked (e4_dir_empty disk victim) else pure tt
    e4_dir_remove_entry disk parent name
    attempt (e4_truncate disk room v 0)
    ignored (e4_free_inode disk victim)
    group ← gets (λ e. (victim - 1) / e.inodes_per_group)
    ignored (e4_sync_gd disk group)
    flush_super

  pub ext4_unlink : (ℕ → Bool) → List ℕ → Io D (Unit {0})
  ext4_unlink room path = do
    mounted ← gets (λ e. not (is_null e.dev))
    guard mounted
    target ← resolve_parent disk path
    victim ← e4_dir_lookup disk target.1 target.0
    unlink_file room target.1 target.0 victim

  pub ext4_size : List ℕ → Ext4 D → ℕ × Ext4 D
  ext4_size path e = size (resolve e)
    where
      resolve : Io D (List ℕ)
      resolve = do ino ← resolve_full disk path; host_inode disk ino

      size : Option (List ℕ) × Ext4 D → ℕ × Ext4 D
      size (none, after) = (0, after)
      size (some i, after) = if is_null e.dev then (0, e) else (e4_inode_size i after, after)

  pub ext4_listdir : List ℕ → ℕ → Io D (List DirentInfo)
  ext4_listdir path max = do
    mounted ← gets (λ e. not (is_null e.dev) && not (max == 0))
    guard mounted
    d ← resolve_full disk path
    list d
    where
      list : ℕ → Io D (List DirentInfo)
      list d e =
          let (rc, made, after) = e4_iterate_dir disk d list_cb ([], max) e in
          (if is_ok rc then some (reverse made.0) else none, after)

pub ext4_free_blocks : {D : Type 0} → Ext4 D → ℕ
ext4_free_blocks e = (e4_count_free e).0

pub ext4_free_inodes : {D : Type 0} → Ext4 D → ℕ
ext4_free_inodes e = (e4_count_free e).1
