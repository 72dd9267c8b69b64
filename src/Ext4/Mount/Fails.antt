-- ===== src/Ext4/Mount/Fails.antt =====
-- The file system is never mounted.
use obsidian_kernel.Base.{
  ℕ, zero, suc, ◌==◌, ltb, Bool, true, false, Option, none, some, not, ◌||◌, is_null, ◌≡◌, refl, ap,
  Bool-cases, inl, inr, if◌then◌else◌, replicate, take, bit_and, ◌^◌, ◌-◌, ◌&&◌,
}
use obsidian_kernel.Ext4.{Disk, Ext4, read_scratch1, e4_read_block, e4_init_scratch}
use obsidian_kernel.Ext4.Group.{e4_load_gdt, load_descs}
use obsidian_kernel.Ext4.Journal.{Journal}
use obsidian_kernel.Ext4.Mount.{
  mount_dev, mount_super, load_scratch, load_groups, configured, groups, zeroed, ext4_mount,
  sb_magic, ext4_magic, sb_log_block_size, sb_feat_incompat, supported_incompat, has,
  sb_feat_ro_compat, refused, finish, recovered,
}

module _ {D : Type 0} (disk : Disk D) where
  -- Not mounted: the result is false, and there is no device.
  abbrev pub Refuses : Bool × Ext4 D → Type 0
  Refuses r = (r.0 ≡ false) × (r.1.dev ≡ none)

  if-Refuses :
      (t : Bool) (x y : Bool × Ext4 D) → Refuses x → Refuses y → Refuses (if t then x else y)
  if-Refuses true x y h k = h
  if-Refuses false x y h k = k

  no_read : (b : ℕ) (e : Ext4 D) → (read_scratch1 disk b (record e { dev = none })).0 ≡ false
  unfolding read_scratch1 e4_read_block
  no_read b e = refl

  load_gdt_false :
      (room : Bool) (n : ℕ) (e : Ext4 D)
      → (e4_load_gdt disk room (record e { dev = none; group_count = suc n })).0 ≡ false
  unfolding e4_load_gdt load_descs read_scratch1 e4_read_block
  load_gdt_false true n e = refl
  load_gdt_false false n e = refl

  load_groups-Refuses :
      (room : ℕ → Bool) (j : Journal) (n : ℕ) (e : Ext4 D)
      → Refuses (load_groups disk room j (record e { dev = none; group_count = suc n }))
  load_groups-Refuses room j n e =
      let start = record e { dev = none; group_count = suc n } in
      let loaded = e4_load_gdt disk (room 4) start in
      if-Refuses (not (room 3)) (refused start)
        (if not loaded.0 then refused loaded.1 else finish disk (recovered disk room j loaded.1))
        (refl, refl) (rw (load_gdt_false (room 4) n e) (refl, refl))

  load_scratch-Refuses :
      (room : ℕ → Bool) (j : Journal) (n : ℕ) (e : Ext4 D)
      → Refuses (load_scratch disk room j (record e { dev = none; group_count = suc n }))
  unfolding e4_init_scratch
  load_scratch-Refuses room j n e = elim (Bool-cases (room 1 && room 2)) [
    | inl a ↦ rw a (
        load_groups-Refuses room j n
          (record e { scratch1 = replicate e.block_size 0; scratch2 = replicate e.block_size 0 }))
    | inr a ↦ rw a (refl, refl)
  ]

  -- The number of groups is not 0 where the descriptors are loaded.
  groups-Refuses :
      (room : ℕ → Bool) (j : Journal) (g : ℕ) (e : Ext4 D)
      → (let counted = record e { dev = none; group_count = g } in
          Refuses
            (if (g == 0) || ltb 65536 g then refused counted else load_scratch disk room j counted))
  groups-Refuses room j zero e = (refl, refl)
  groups-Refuses room j (suc n) e =
      let counted = record e { dev = none; group_count = suc n } in
      if-Refuses ((suc n == 0) || ltb 65536 (suc n)) (refused counted)
        (load_scratch disk room j counted) (refl, refl) (load_scratch-Refuses room j n e)

  mount_super-Refuses :
      (room : ℕ → Bool) (j : Journal) (e : Ext4 D)
      → Refuses (mount_super disk room j (record e { dev = none }))
  unfolding mount_super
  mount_super-Refuses room j e =
      let start = record e { dev = none } in
      let c = configured start in
      let counted = record c { group_count = groups c } in
      let by_groups =
        if (groups c == 0) || ltb 65536 (groups c)
        then refused counted
        else load_scratch disk room j counted in
      let bad_size =
        ltb c.desc_size 32 || ltb 128 c.desc_size || not (bit_and c.desc_size 3 == 0) in
      let by_size = if bad_size then refused c else by_groups in
      let by_ro = if has (sb_feat_ro_compat e.sb) 0x200 then refused start else by_size in
      let bad = not (bit_and (sb_feat_incompat e.sb) (2 ^ 32 - 1 - supported_incompat) == 0) in
      let by_features = if bad then refused start else by_ro in
      let by_log = if ltb 3 (sb_log_block_size e.sb) then refused start else by_features in
      if-Refuses (not (sb_magic e.sb == ext4_magic)) (false, start) by_log (refl, refl)
        (if-Refuses (ltb 3 (sb_log_block_size e.sb)) (refused start) by_features (refl, refl)
          (if-Refuses bad (refused start) by_ro (refl, refl)
            (if-Refuses (has (sb_feat_ro_compat e.sb) 0x200) (refused start) by_size (refl, refl)
              (if-Refuses bad_size (refused c) by_groups (refl, refl)
                (groups-Refuses room j (groups c) c)))))

  mount_dev-Refuses :
      (room : ℕ → Bool) (j : Journal) (first : Option D) (e : Ext4 D)
      → Refuses (mount_dev disk room j first (zeroed e))
  mount_dev-Refuses room j none e = (refl, refl)
  mount_dev-Refuses room j (some d) e =
      let read = disk.blk_read 2 2 (replicate 1024 0) d in
      let super = record (zeroed e) { sb = take 1024 read.1 } in
      let by_read = if not read.0 then (false, zeroed e) else mount_super disk room j super in
      if-Refuses (not (room 0)) (false, zeroed e) by_read (refl, refl)
        (if-Refuses (not read.0) (false, zeroed e) (mount_super disk room j super) (refl, refl)
          (mount_super-Refuses room j super))

  -- From a state without a device, `ext4_mount` returns false and leaves it without one, whatever
  -- block device there is and whatever is on it: nothing ever sets the device.
  pub ext4_mount-Refuses :
      (room : ℕ → Bool) (j : Journal) (first : Option D) (e : Ext4 D)
      → e.dev ≡ none
      → Refuses (ext4_mount disk room j first e)
  unfolding ext4_mount
  ext4_mount-Refuses room j first e h = rw (ap is_null h) (mount_dev-Refuses room j first e)
