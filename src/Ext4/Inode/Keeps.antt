-- ===== src/Ext4/Inode/Keeps.antt =====
-- Which steps of the driver leave a block of the device as it is.
use obsidian_kernel.Base.{
  ℕ, zero, suc, ◌*◌, ◌+◌, ◌-◌, ◌/◌, ◌<◌, u32, ◌^◌, ◌==◌, Bool, true, false, List, [], Option, none,
  some, u64, ltb, drop, read16, read32, bit_and, ◌≡◌, ◌≢◌, ◌∙◌, if◌then◌else◌, not,
}
use obsidian_kernel.Ext4.{
  Disk, Ext4, read_dev, write_dev, e4_read_block, e4_write_block, read_scratch1,
}
use obsidian_kernel.Ext4.Inode.{ino_block, ino_flags}
use obsidian_kernel.Ext4.Map.{
  descend, extent_walk, extent_lookup, indirect_level, indirect_walk, indirect_lookup, e4_bmap,
}

-- What a block of the device holds.
abbrev pub dev_block : {D : Type 0} → (D → ℕ → List ℕ) → Option D → ℕ → List ℕ
dev_block at none b = []
dev_block at (some d) b = at d b

-- A device of blocks of `spb` sectors: reads change no block, and a write changes one at most.
pub record IsDevice {D : Type 0} (disk : Disk D) (spb : ℕ) (at : D → ℕ → List ℕ) : Type 0 where
  pub keeps :
      (lba n : ℕ) (buf : List ℕ) (d : D) (b : ℕ) → at (disk.blk_read lba n buf d).2 b ≡ at d b
  pub apart :
      (c : ℕ) (buf : List ℕ) (d : D) (b : ℕ)
      → c < 2 ^ 32
      → c ≢ b
      → at (disk.blk_write (u64 (c * spb)) spb buf d).1 b ≡ at d b

module _ {D : Type 0} (disk : Disk D) (spb : ℕ) (at : D → ℕ → List ℕ)
    (device : IsDevice disk spb at) (b : ℕ) (v : List ℕ) where
  -- Block `b` holds `v`.
  pub record Holds (e : Ext4 D) : Type 0 where
    pub sectors : e.sectors_per_block ≡ spb
    pub content : dev_block at e.dev b ≡ v

  pub read_dev-Holds :
      (c : ℕ) (buf : List ℕ) (e : Ext4 D) (o : Option D)
      → Holds e
      → dev_block at o b ≡ v
      → Holds (read_dev disk c buf e o).2
  read_dev-Holds c buf e none h k = h
  read_dev-Holds c buf e (some d) h k = record {
    sectors = h.sectors;
    content = device.keeps (u64 (c * e.sectors_per_block)) e.sectors_per_block buf d b ∙ k;
  }

  pub e4_read_block-Holds :
      (c : ℕ) (buf : List ℕ) (e : Ext4 D) → Holds e → Holds (e4_read_block disk c buf e).2
  unfolding e4_read_block
  e4_read_block-Holds c buf e h = read_dev-Holds c buf e e.dev h h.content

  pub read_scratch1-Holds : (c : ℕ) (e : Ext4 D) → Holds e → Holds (read_scratch1 disk c e).1
  unfolding read_scratch1
  read_scratch1-Holds c e h =
      let read = e4_read_block-Holds c e.scratch1 e h in
      record { sectors = read.sectors; content = read.content }

  pub if-Holds :
      {A : Type 0} (t : Bool) (x y : A × Ext4 D)
      → Holds x.1
      → Holds y.1
      → Holds (if t then x else y).1
  if-Holds true x y h k = h
  if-Holds false x y h k = k

  descend-Holds :
      (next : ℕ → Ext4 D → Option ℕ × Ext4 D)
      → ((c : ℕ) (e : Ext4 D) → Holds e → Holds (next c e).1)
      → (chosen : Option ℕ) (e : Ext4 D) → Holds e
      → Holds (descend disk next chosen e).1
  descend-Holds next k none e h = h
  descend-Holds next k (some c) e h = k _ e h

  extent_walk-Holds :
      (depth : ℕ) (root : List ℕ) (logical c : ℕ) (e : Ext4 D)
      → Holds e
      → Holds (extent_walk disk depth root logical c e).1
  unfolding extent_walk
  extent_walk-Holds zero root logical c e h = h
  extent_walk-Holds (suc depth) root logical c e h =
      let read = read_scratch1-Holds c e h in
      if-Holds (not (read_scratch1 disk c e).0) _ _ read (
        descend-Holds (extent_walk disk depth root logical) (extent_walk-Holds depth root logical) _
          (read_scratch1 disk c e).1 read)

  indirect_walk-Holds :
      (level ind remaining : ℕ) (e : Ext4 D)
      → Holds e
      → Holds (indirect_walk disk level ind remaining e).1
  unfolding indirect_walk indirect_level
  indirect_walk-Holds zero ind remaining e h = h
  indirect_walk-Holds (suc level) ind remaining e h =
      let read = read_scratch1-Holds ind e h in
      if-Holds (ind == 0) _ _ h (
        if-Holds (not (read_scratch1 disk ind e).0) _ _ read
          (indirect_walk-Holds level _ remaining (read_scratch1 disk ind e).1 read))

  indirect_lookup-Holds :
      (i : List ℕ) (fb : ℕ) (e : Ext4 D) → Holds e → Holds (indirect_lookup disk i fb e).1
  unfolding indirect_lookup
  indirect_lookup-Holds i fb e h =
      let bpp = e.block_size / 4 in
      let single = u32 (12 + bpp) in
      let double = u32 (single + u32 (bpp * bpp)) in
      let from = λ (level n past : ℕ).
        indirect_walk disk level (read32 i (ino_block + 4 * n)) (fb - past) e in
      let held = λ (level n past : ℕ).
        indirect_walk-Holds level (read32 i (ino_block + 4 * n)) (fb - past) e h in
      let two = if ltb fb double then from 3 13 single else from 4 14 double in
      let one = if ltb fb single then from 2 12 12 else two in
      if-Holds (ltb fb 12) (some (read32 i (ino_block + 4 * fb)), e) one h
        (if-Holds (ltb fb single) (from 2 12 12) two (held 2 12 12) (
          if-Holds (ltb fb double) (from 3 13 single) (from 4 14 double) (held 3 13 single)
            (held 4 14 double)))

  pub e4_bmap-Holds : (i : List ℕ) (fb : ℕ) (e : Ext4 D) → Holds e → Holds (e4_bmap disk i fb e).1
  unfolding e4_bmap extent_lookup
  e4_bmap-Holds i fb e h =
      let root = drop ino_block i in
      if-Holds (not (bit_and (read32 i ino_flags) 0x00080000 == 0)) (extent_lookup disk i fb e)
        (indirect_lookup disk i fb e)
        (if-Holds (not (read16 root 0 == 0xF30A)) (none, e)
          (extent_walk disk (read16 root 6) root fb 0 e) h
          (extent_walk-Holds (read16 root 6) root fb 0 e h))
        (indirect_lookup-Holds i fb e h)

  write_dev-Holds :
      (c : ℕ) (buf : List ℕ) (e : Ext4 D) (o : Option D)
      → c < 2 ^ 32
      → c ≢ b
      → Holds e
      → dev_block at o b ≡ v
      → Holds (write_dev disk c buf e o).1
  write_dev-Holds c buf e none lt ne h k = h
  write_dev-Holds c buf e (some d) lt ne h k =
      if-Holds (not e.writable) _ _ h (record {
        sectors = h.sectors;
        content = rw (h.sectors) (device.apart c buf d b lt ne ∙ k);
      })

  -- A write to another block.
  pub e4_write_block-Holds :
      (c : ℕ) (buf : List ℕ) (e : Ext4 D)
      → c < 2 ^ 32
      → c ≢ b
      → Holds e
      → Holds (e4_write_block disk c buf e).1
  unfolding e4_write_block
  e4_write_block-Holds c buf e lt ne h = write_dev-Holds c buf e e.dev lt ne h h.content
