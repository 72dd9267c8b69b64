-- ===== src/Ext4/Map/Indirect.antt =====
-- How many levels of blocks `indirect_lookup` reads.
use obsidian_kernel.Base.{
  ℕ, suc, ◌+◌, ◌*◌, ◌-◌, ◌/◌, ◌%◌, ◌^◌, ◌≤◌, ◌<◌, Bool, true, List, Option, none, some, u32, read32,
  ge→ltb, lt→ltb, ne→==, ◌≡◌, ◌≢◌, refl, sym, ap, subst, ◌∙◌, arith,
}
use native.Mathlib.Nat.{mod-eq_of_lt, div-eq_of_lt, div-one}
use obsidian_kernel.Ext4.{Disk, Ext4, read_dev, read_scratch1, e4_read_block}
use obsidian_kernel.Ext4.Inode.{ino_block}
use obsidian_kernel.Ext4.Map.{stride, indirect_level, indirect_walk, indirect_lookup}

stride_one : (bpp : ℕ) → bpp < 2 ^ 32 → stride bpp 1 ≡ bpp
unfolding stride
stride_one bpp h = omega arith

-- The slots of the two levels for a block `r` of the first indirect block.
slot_upper : (bpp r : ℕ) → r < bpp → bpp < 2 ^ 30 → u32 (u32 (r / stride bpp 1 % bpp) * 4) ≡ 0
slot_upper bpp r h small =
    rw (stride_one bpp (omega arith), div-eq_of_lt h, mod-eq_of_lt {n = 0} {m = bpp} (omega arith))
      refl

slot_lower : (bpp r : ℕ) → r < bpp → bpp < 2 ^ 30 → u32 (u32 (r / stride bpp 0 % bpp) * 4) ≡ r * 4
unfolding stride
slot_lower bpp r h small = rw (div-one r, mod-eq_of_lt h) (omega arith)

module _ {D : Type 0} (disk : Disk D) where
  read_dev-block_size :
      (b : ℕ) (buf : List ℕ) (e : Ext4 D) (o : Option D)
      → (read_dev disk b buf e o).2.block_size ≡ e.block_size
  read_dev-block_size b buf e none = refl
  read_dev-block_size b buf e (some d) = refl

  pub read_scratch1-block_size :
      (b : ℕ) (e : Ext4 D) → (read_scratch1 disk b e).1.block_size ≡ e.block_size
  unfolding read_scratch1 e4_read_block
  read_scratch1-block_size b e = read_dev-block_size b e.scratch1 e e.dev

  indirect_walk_zero :
      (ind remaining : ℕ) (e : Ext4 D) → indirect_walk disk 0 ind remaining e ≡ (some ind, e)
  unfolding indirect_walk
  indirect_walk_zero ind remaining e = refl

  -- One level, when the block is read.
  indirect_walk_one :
      (level ind remaining slot : ℕ) (e next : Ext4 D)
      → ind ≢ 0
      → read_scratch1 disk ind e ≡ (true, next)
      → u32 (u32 (remaining / stride (e.block_size / 4) level % (e.block_size / 4)) * 4) ≡ slot
      → indirect_walk disk (suc level) ind remaining e
        ≡ indirect_walk disk level (read32 next.scratch1 slot) remaining next
  unfolding indirect_walk indirect_level
  indirect_walk_one level ind remaining slot e next h read at = rw (ne→== ind 0 h, read, at) refl

  -- For a block of the first indirect block `indirect_lookup` reads two levels of blocks, if neither
  -- pointer is 0 and both reads succeed: what it returns is an entry of the block that entry 0 of the
  -- indirect block names.
  pub indirect_lookup_single :
      (i : List ℕ) (logical : ℕ) (e one two : Ext4 D)
      → 12 ≤ logical
      → logical < 12 + e.block_size / 4
      → e.block_size < 2 ^ 32
      → read32 i (ino_block + 4 * 12) ≢ 0
      → read_scratch1 disk (read32 i (ino_block + 4 * 12)) e ≡ (true, one)
      → read32 one.scratch1 0 ≢ 0
      → read_scratch1 disk (read32 one.scratch1 0) one ≡ (true, two)
      → (indirect_lookup disk i logical e).0 ≡ some (read32 two.scratch1 ((logical - 12) * 4))
  unfolding indirect_lookup
  indirect_lookup_single i logical e one two low high size ind-ne read1 first-ne read2 =
      let bpp = e.block_size / 4 in
      let same : one.block_size ≡ e.block_size =
        ap (λ (r : Bool × Ext4 D). r.1.block_size) (sym read1)
        ∙ read_scratch1-block_size (read32 i (ino_block + 4 * 12)) e in
      let upper = slot_upper bpp (logical - 12) (omega (arith, low, high)) (omega (arith, size)) in
      let lower =
        subst
          (λ n. u32 (u32 ((logical - 12) / stride (n / 4) 0 % (n / 4)) * 4) ≡ (logical - 12) * 4)
          (sym same)
          (slot_lower bpp (logical - 12) (omega (arith, low, high)) (omega (arith, size))) in
      rw
        (
          ge→ltb logical 12 low,
          lt→ltb logical (u32 (12 + bpp)) (omega (arith, high, size)),
          indirect_walk_one 1 (read32 i (ino_block + 4 * 12)) (logical - 12) 0 e one ind-ne read1
              upper,
          indirect_walk_one 0 (read32 one.scratch1 0) (logical - 12) ((logical - 12) * 4) one two
              first-ne read2 lower,
        )
        (ap (λ (r : Option ℕ × Ext4 D). r.0)
          (indirect_walk_zero (read32 two.scratch1 ((logical - 12) * 4)) (logical - 12) two))
