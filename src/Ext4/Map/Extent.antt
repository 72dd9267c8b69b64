-- ===== src/Ext4/Map/Extent.antt =====
-- Where `extent_lookup` takes its answer from.
use obsidian_kernel.Base.{
  ℕ, zero, suc, ◌==◌, Bool, true, false, not, List, Option, none, some, drop, read16, ◌≡◌, ◌⊎◌, inl,
  inr, refl, if◌then◌else◌,
}
use obsidian_kernel.Ext4.{Disk, Ext4, read_scratch1}
use obsidian_kernel.Ext4.Inode.{ino_block}
use obsidian_kernel.Ext4.Map.{
  entries_of, leaf_search, index_search, descend, extent_walk, extent_lookup,
}

module _ {D : Type 0} (disk : Disk D) where
  -- -1, or what a node gives as a leaf.
  abbrev pub FromRoot : List ℕ → ℕ → Option ℕ → Type 0
  FromRoot root logical r = (r ≡ none) ⊎ (r ≡ some (leaf_search (entries_of root) 0 root logical))

  descend-FromRoot :
      (next : ℕ → Ext4 D → Option ℕ × Ext4 D) (root : List ℕ) (logical : ℕ)
      → ((b : ℕ) (e : Ext4 D) → FromRoot root logical (next b e).0)
      → (chosen : Option ℕ) (e : Ext4 D) → FromRoot root logical (descend disk next chosen e).0
  descend-FromRoot next root logical h none e = inl refl
  descend-FromRoot next root logical h (some c) e = h _ e

  if-FromRoot :
      (ok : Bool) (root : List ℕ) (logical : ℕ) (e : Ext4 D) (r : Option ℕ × Ext4 D)
      → FromRoot root logical r.0
      → FromRoot root logical (if not ok then (none, e) else r).0
  if-FromRoot true root logical e r h = h
  if-FromRoot false root logical e r h = inl refl

  extent_walk-FromRoot :
      (depth : ℕ) (root : List ℕ) (logical b : ℕ) (e : Ext4 D)
      → FromRoot root logical (extent_walk disk depth root logical b e).0
  unfolding extent_walk
  extent_walk-FromRoot zero root logical b e = inr refl
  extent_walk-FromRoot (suc depth) root logical b e =
      let read = read_scratch1 disk b e in
      let chosen = index_search (entries_of read.1.scratch1) 0 read.1.scratch1 logical none in
      let next = extent_walk disk depth root logical in
      if-FromRoot read.0 root logical read.1 (descend disk next chosen read.1)
        (descend-FromRoot next root logical (extent_walk-FromRoot depth root logical) chosen read.1)

  -- Whatever the depth of the tree and whatever the disk holds, `extent_lookup` returns -1 or the
  -- block that the entries in the inode give when they are read as extents: it never looks into a
  -- leaf of the disk.
  pub extent_lookup-FromRoot :
      (i : List ℕ) (logical : ℕ) (e : Ext4 D)
      → FromRoot (drop ino_block i) logical (extent_lookup disk i logical e).0
  unfolding extent_lookup
  extent_lookup-FromRoot i logical e =
      if-FromRoot (read16 (drop ino_block i) 0 == 0xF30A) (drop ino_block i) logical e _
        (extent_walk-FromRoot _ (drop ino_block i) logical 0 e)
