-- ===== src/Ext4/Journal.antt =====
-- The recovery of the journal, fs/ext4_journal.c. `kmalloc` and `kzalloc` return a block or not as the
-- arguments `room` say.
pub mod Order
pub mod Revoked
use obsidian_kernel.Base.{
  ℕ, zero, suc, ◌+◌, ◌*◌, ◌-◌, ◌/◌, ◌%◌, ◌^◌, ◌==◌, ltb, leb, Bool, true, false, List, [], ◌∷◌,
  ◌++◌, Option, none, some, if◌then◌else◌, replicate, u32, u64, read8, read32, put32, blit, bit_and,
  not, ◌||◌, ◌&&◌, is_null, length,
}
use obsidian_kernel.Ext4.{Disk, Ext4, e4_read_block, e4_write_block, e4_sync_superblock}
use obsidian_kernel.Ext4.Group.{e4_sb_recompute_checksum}
use obsidian_kernel.Ext4.Inode.{e4_inode_size, ino_flags}
use obsidian_kernel.Ext4.Map.{e4_bmap}
use obsidian_kernel.Ext4.Alloc.{is_marked, mark}
use obsidian_kernel.Ext4.Dir.{or_hole}
use obsidian_kernel.Ext4.Io.{Io, host_inode}

abbrev pub j_magic : ℕ
j_magic = 0xC03B3998

abbrev pub jt_desc : ℕ
jt_desc = 1

abbrev pub jt_revoke : ℕ
jt_revoke = 2

abbrev pub jt_commit : ℕ
jt_commit = 3

abbrev pub tag_escape : ℕ
tag_escape = 1

abbrev pub tag_last : ℕ
tag_last = 8

abbrev pub max_tracked_seqs : ℕ
max_tracked_seqs = 256

abbrev pub sb_journal_inum : ℕ
sb_journal_inum = 0xE0

abbrev pub sb_feature_incompat : ℕ
sb_feature_incompat = 0x60

abbrev pub feat_incompat_recover : ℕ
feat_incompat_recover = 0x00000004

-- The static variables; `n_committed` is the length of `committed`.
pub record Journal : Type 0 where
  pub jin : List ℕ
  pub committed : List ℕ
  pub last_commit_seq : ℕ
  pub revbits : List ℕ

unfoldable pub be32 : List ℕ → ℕ → ℕ
be32 p i =
    u32 (read8 p i * 2 ^ 24 + read8 p (i + 1) * 2 ^ 16 + read8 p (i + 2) * 2 ^ 8 + read8 p (i + 3))

pub contains : ℕ → List ℕ → Bool
contains seq [] = false
contains seq (s ∷ l) = s == seq || contains seq l

pub was_committed : ℕ → Journal → Bool
was_committed seq j = contains seq j.committed

pub note_commit : ℕ → Journal → Journal
note_commit seq j =
    let n = length j.committed in
    let kept = if ltb n max_tracked_seqs then j.committed ++ seq ∷ [] else j.committed in
    let last = if ltb j.last_commit_seq seq || (length kept == 0) then seq else j.last_commit_seq in
    if was_committed seq j then j else record j { committed = kept; last_commit_seq = last }

-- The block numbers of a revoke block from `off` on, below `used`; with the rounds left.
pub revoke_loop : ℕ → ℕ → ℕ → List ℕ → ℕ → List ℕ → List ℕ
revoke_loop zero off used buf blocks_count revbits = revbits
revoke_loop (suc n) off used buf blocks_count revbits =
    let b = be32 buf off in
    let rest =
      revoke_loop n (off + 4) used buf blocks_count
        (if ltb b blocks_count then mark revbits b else revbits) in
    if leb (off + 4) used then rest else revbits

-- A content block with the magic number that an escape took out.
pub unescape : ℕ → List ℕ → List ℕ
unescape flags content =
    if bit_and flags tag_escape == 0
    then content
    else blit content 0 (0xC0 ∷ 0x3B ∷ 0x39 ∷ 0x98 ∷ [])

module _ {D : Type 0} where
  -- What a block of the journal adds in the first pass.
  unfoldable pub pass1_block : List ℕ → Journal → Ext4 D → Journal
  pass1_block buf j e =
      let kind = be32 buf 4 in
      let used = read32 buf 12 in
      let revoked = revoke_loop (suc (used / 4)) 16 used buf e.blocks_count j.revbits in
      if not (be32 buf 0 == j_magic)
      then j
      else if kind == jt_commit
      then note_commit (be32 buf 8) j
      else if (kind == jt_revoke) && leb used e.block_size
      then record j { revbits = revoked }
      else j

  pub e4_journal_pending : Ext4 D → Bool
  e4_journal_pending e =
      not (is_null e.dev) && not (bit_and e.feat_incompat feat_incompat_recover == 0)

  module _ (disk : Disk D) where
    abbrev pub read_mapped : Option ℕ → Ext4 D → Option (List ℕ) × Ext4 D
    read_mapped none e = (none, e)
    read_mapped (some b) e =
        let (ok, buf, after) = e4_read_block disk b (replicate e.block_size 0) e in
        if b == 0 then (none, e) else if ok then (some buf, after) else (none, after)

    -- The block of the journal, if it is mapped and read.
    unfoldable pub jread : ℕ → Journal → Ext4 D → Option (List ℕ) × Ext4 D
    jread jb j e = let (phys, mapped) = e4_bmap disk j.jin jb e in read_mapped phys mapped

    abbrev pub noted : Option (List ℕ) → Journal → Ext4 D → Journal
    noted none j e = j
    noted (some buf) j e = pass1_block buf j e

    -- The first pass, over the blocks from `i` on, `n` of them.
    pub pass1 : ℕ → ℕ → Journal → Ext4 D → Journal × Ext4 D
    pass1 zero i j e = (j, e)
    pass1 (suc n) i j e = let (buf, read) = jread i j e in pass1 n (i + 1) (noted buf j read) read

    -- A content block written to its target, unless that was revoked, and then the tags that follow.
    -- `c` is the number of the content block.
    abbrev pub write_content :
        ℕ → ℕ → ℕ → Journal → (Ext4 D → ℕ × Ext4 D) → Option (List ℕ) → Ext4 D → ℕ × Ext4 D
    write_content target flags c j next none e = (c, e)
    write_content target flags c j next (some content) e =
        let (ok, written) = e4_write_block disk target (unescape flags content) e in
        if is_marked j.revbits target then next e else if ok then next written else (c, written)

    -- The tags of a descriptor from `off` on, whose contents stand from block `c` on; with the rounds
    -- left. The result is the block behind the contents that were consumed.
    unfoldable pub apply_tags : ℕ → ℕ → ℕ → List ℕ → ℕ → ℕ → Journal → Ext4 D → ℕ × Ext4 D
    apply_tags zero cap tagsz buf off c j e = (c, e)
    apply_tags (suc n) cap tagsz buf off c j e =
        let target = be32 buf off in
        let flags = be32 buf (off + 4) in
        let (content, read) = jread c j e in
        let next = apply_tags n cap tagsz buf (off + tagsz) (c + 1) j in
        let rest = write_content target flags c j next content read in
        if ltb e.block_size (off + tagsz) || leb cap c
        then (c, e)
        else if not (bit_and flags tag_last == 0) || target == 0
        then (c, e)
        else rest

    -- The number of the next block of the second pass, after block `i`.
    unfoldable pub pass2_block : ℕ → ℕ → ℕ → Journal → Option (List ℕ) → Ext4 D → ℕ × Ext4 D
    pass2_block cap tagsz i j none e = (i + 1, e)
    pass2_block cap tagsz i j (some buf) e =
        if not (be32 buf 0 == j_magic)
          || not (be32 buf 4 == jt_desc)
          || not (was_committed (be32 buf 8) j)
        then (i + 1, e)
        else apply_tags (suc (e.block_size / tagsz)) cap tagsz buf 12 (i + 1) j e

    -- The second pass from block `i` on, with the rounds left: a round moves on by a block at least.
    unfoldable pub pass2 : ℕ → ℕ → ℕ → ℕ → Journal → Ext4 D → Ext4 D
    pass2 zero cap tagsz i j e = e
    pass2 (suc n) cap tagsz i j e =
        let (buf, read) = jread i j e in
        let (next, applied) = pass2_block cap tagsz i j buf read in
        let rest = pass2 n cap tagsz next j applied in if leb cap i then e else rest

    abbrev pub reset_block : ℕ → Journal → Option (List ℕ) → Ext4 D → Ext4 D
    reset_block phys j none e = e
    reset_block phys j (some buf) e =
        (e4_write_block disk phys (put32 (put32 buf 24 0) 28 (u32 (j.last_commit_seq + 1))) e).1

    -- The journal's superblock, if it is mapped and read.
    abbrev pub reset_super : Journal → Option (List ℕ) → Ext4 D → Journal × Ext4 D
    reset_super j none e = (j, e)
    reset_super j (some jin) e =
        let (phys, mapped) = e4_bmap disk jin 0 e in
        let (buf, read) = read_mapped phys mapped in
        (record j { jin = jin }, reset_block (or_hole phys) j buf read)

    -- The recovery flag is dropped, and the superblock is written.
    abbrev pub drop_recover : Ext4 D → Ext4 D
    drop_recover e =
        let flags = read32 e.sb sb_feature_incompat in
        (e4_sync_superblock disk (
          e4_sb_recompute_checksum (record e {
            feat_incompat = bit_and e.feat_incompat 0xFFFFFFFB;
            sb = put32 e.sb sb_feature_incompat (bit_and flags 0xFFFFFFFB);
          }))).1

    pub e4_journal_reset : Bool → Journal → Ext4 D → Journal × Ext4 D
    e4_journal_reset room j e =
        let (jin, read) = host_inode disk (read32 e.sb sb_journal_inum) e in
        let (after, done) = reset_super j jin read in
        if is_null e.dev || read32 e.sb sb_journal_inum == 0 || not room
        then (j, e)
        else (after, drop_recover done)

    -- The two passes over the blocks from `first` to `cap` - 1, and the reset if a transaction was
    -- committed or none was.
    abbrev pub recover : Bool → ℕ → ℕ → ℕ → Journal → Ext4 D → Journal × Ext4 D
    recover room first cap tagsz j e =
        let (noted, read) = pass1 (cap - first) first j e in
        let applied = pass2 (cap - first) cap tagsz first noted read in
        e4_journal_reset room noted (if length noted.committed == 0 then read else applied)

    -- The journal's superblock, checked.
    abbrev pub replay_super :
        (ℕ → Bool) → Journal → Option (List ℕ) → Ext4 D → Bool × Journal × Ext4 D
    replay_super room j none e = (false, j, e)
    replay_super room j (some buf) e =
        let jblocks = e4_inode_size j.jin e / e.block_size in
        let maxlen = read32 buf 16 in
        let first = read32 buf 20 in
        let start = read32 buf 24 in
        let tagsz = if bit_and (read32 buf 36) 0x2 == 0 then 12 else 16 in
        let cap = if not (maxlen == 0) && leb maxlen jblocks then maxlen else jblocks in
        let empty = record j { revbits = replicate ((e.blocks_count + 7) / 8) 0 } in
        let (after, done) = recover (room 3) first cap tagsz empty e in
        if not (read32 buf 12 == e.block_size)
          || ltb first 2
          || leb jblocks first
          || leb jblocks start
        then (false, j, e)
        else if not (room 2)
        then (false, j, e)
        else (true, record after { revbits = [] }, done)

    abbrev pub replay_inode :
        (ℕ → Bool) → Journal → Option (List ℕ) → Ext4 D → Bool × Journal × Ext4 D
    replay_inode room j none e = (false, j, e)
    replay_inode room j (some jin) e =
        let (buf, read) = jread 0 (record j { jin = jin }) e in
        let result = replay_super room (record j { jin = jin }) buf read in
        if (bit_and (read32 jin ino_flags) 0x00080000 == 0) || not (room 0) || not (room 1)
        then (false, record j { jin = jin }, e)
        else result

    -- True is the result 0.
    pub e4_journal_replay : (ℕ → Bool) → Journal → Ext4 D → Bool × Journal × Ext4 D
    e4_journal_replay room j e =
        let cleared = record j { committed = []; last_commit_seq = 0; revbits = [] } in
        let inum = read32 e.sb sb_journal_inum in
        let (jin, read) = host_inode disk inum e in
        let result = replay_inode room cleared jin read in
        if is_null e.dev || inum == 0 || bit_and e.feat_incompat feat_incompat_recover == 0
        then (true, cleared, e)
        else result
