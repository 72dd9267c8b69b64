-- ===== src/Ext4/Dir/Lookup.antt =====
-- Lookup in directories never succeeds.
use obsidian_kernel.Base.{
  ℕ, zero, suc, ◌+◌, ◌==◌, Bool, true, false, List, none, if◌then◌else◌, ℤ, Bool-cases,
  Option-cases, ◌≡◌, inl, inr, refl, arith, not, ◌||◌,
}
use obsidian_kernel.Str.{k_strcmp}
use obsidian_kernel.Ext4.{Disk, Ext4, read_scratch1}
use obsidian_kernel.Ext4.Map.{e4_bmap}
use obsidian_kernel.Ext4.Inode.{e4_is_dir}
use obsidian_kernel.Ext4.Io.{host_inode}
use obsidian_kernel.Ext4.Dir.{
  scan_dirent_block, lookup_cb, is_ok, is_none, iterate_blocks, e4_iterate_dir, e4_dir_lookup, walk,
  or_hole, stops, is_fake, d_inode, d_rec_len,
}

-- A walk that was not stopped has found nothing.
abbrev pub FindsNone : ℤ → ℕ → Type 0
FindsNone rc found = is_ok rc ≡ true → found ≡ 0

lookup_cb-FindsNone :
    (want name : List ℕ) (ino kind : ℕ)
    → FindsNone (lookup_cb want name ino kind 0).0 (lookup_cb want name ino kind 0).1
unfolding lookup_cb
lookup_cb-FindsNone want name ino kind h = elim (Bool-cases (is_ok (k_strcmp name want))) [
  | inl a ↦ ground arith
  | inr a ↦ rw a refl
]

-- Both branches of a test.
if-FindsNone :
    (b : Bool) (x y : ℤ × ℕ)
    → FindsNone x.0 x.1
    → FindsNone y.0 y.1
    → FindsNone (if b then x else y).0 (if b then x else y).1
if-FindsNone true x y h k = h
if-FindsNone false x y h k = k

called-FindsNone :
    (called : ℤ × ℕ) (rest : ℕ → ℤ × ℕ)
    → FindsNone called.0 called.1
    → FindsNone (rest 0).0 (rest 0).1
    → FindsNone
        (if is_ok called.0 then rest called.1 else called).0
        (if is_ok called.0 then rest called.1 else called).1
called-FindsNone called rest h k = elim (Bool-cases (is_ok called.0)) [
  | inl a ↦ rw (a, h a) k
  | inr a ↦ rw a h
]

scan_dirent_block-FindsNone :
    (n d : ℕ) (blk : List ℕ) (top inodes : ℕ) (want : List ℕ)
    → FindsNone
        (scan_dirent_block n d blk top inodes (lookup_cb want) 0).0
        (scan_dirent_block n d blk top inodes (lookup_cb want) 0).1
unfolding scan_dirent_block
scan_dirent_block-FindsNone zero d blk top inodes want = λ h. refl
scan_dirent_block-FindsNone (suc n) d blk top inodes want =
    let next = scan_dirent_block-FindsNone n (d + d_rec_len blk d) blk top inodes want in
    if-FindsNone (stops blk d top || is_fake blk d top) _ _ (λ h. refl)
      (if-FindsNone (d_inode blk d == 0) _ _ next (
        if-FindsNone _ _ _ (λ h. refl)
          (called-FindsNone _
            (λ c. scan_dirent_block n (d + d_rec_len blk d) blk top inodes (lookup_cb want) c)
            (lookup_cb-FindsNone want _ (d_inode blk d) _) next)))

if3-FindsNone :
    {E : Type 0} (b : Bool) (x y : ℤ × ℕ × E)
    → FindsNone x.0 x.1
    → FindsNone y.0 y.1
    → FindsNone (if b then x else y).0 (if b then x else y).1
if3-FindsNone true x y h k = h
if3-FindsNone false x y h k = k

scanned-FindsNone :
    {E : Type 0} (scanned : ℤ × ℕ) (rest : ℕ → ℤ × ℕ × E) (e : E)
    → FindsNone scanned.0 scanned.1
    → FindsNone (rest 0).0 (rest 0).1
    → FindsNone
        (if is_ok scanned.0 then rest scanned.1 else (scanned.0, scanned.1, e)).0
        (if is_ok scanned.0 then rest scanned.1 else (scanned.0, scanned.1, e)).1
scanned-FindsNone scanned rest e h k = elim (Bool-cases (is_ok scanned.0)) [
  | inl a ↦ rw (a, h a) k
  | inr a ↦ rw a h
]

module _ {D : Type 0} (disk : Disk D) where
  iterate_blocks-FindsNone :
      (n bi : ℕ) (din want : List ℕ) (e : Ext4 D)
      → FindsNone
          (iterate_blocks disk n bi din (lookup_cb want) 0 e).0
          (iterate_blocks disk n bi din (lookup_cb want) 0 e).1
  unfolding iterate_blocks
  iterate_blocks-FindsNone zero bi din want e = λ h. refl
  iterate_blocks-FindsNone (suc n) bi din want e =
      let mapped = e4_bmap disk din bi e in
      let read = read_scratch1 disk (or_hole mapped.0) mapped.1 in
      if3-FindsNone (is_none mapped.0) _ _ (λ h. cc)
        (if3-FindsNone (or_hole mapped.0 == 0) _ _
          (iterate_blocks-FindsNone n (bi + 1) din want mapped.1)
          (if3-FindsNone (not read.0) _ _ (λ h. cc)
            (scanned-FindsNone _ (λ c. iterate_blocks disk n (bi + 1) din (lookup_cb want) c read.1)
              read.1
              (scan_dirent_block-FindsNone (walk read.1) 0 read.1.scratch1 read.1.block_size
                read.1.inodes_count want)
              (iterate_blocks-FindsNone n (bi + 1) din want read.1))))

  e4_iterate_dir-FindsNone :
      (dir_ino : ℕ) (want : List ℕ) (e : Ext4 D)
      → FindsNone
          (e4_iterate_dir disk dir_ino (lookup_cb want) 0 e).0
          (e4_iterate_dir disk dir_ino (lookup_cb want) 0 e).1
  unfolding e4_iterate_dir
  e4_iterate_dir-FindsNone dir_ino want e = elim (Option-cases (host_inode disk dir_ino e).0) [
    | inl none_e ↦ rw none_e (λ h. cc)
    | inr (din, some_e) ↦ rw some_e (
        if3-FindsNone (not (e4_is_dir din)) _ _ (λ h. cc)
          (iterate_blocks-FindsNone _ 0 din want (host_inode disk dir_ino e).1))
  ]

  -- Whatever the directory holds, `e4_dir_lookup` fails: the callback stops the walk at the name, and
  -- a walk that was stopped is taken for an error.
  pub e4_dir_lookup-fails :
      (dir_ino : ℕ) (name : List ℕ) (e : Ext4 D) → (e4_dir_lookup disk dir_ino name e).0 ≡ none
  unfolding e4_dir_lookup
  e4_dir_lookup-fails dir_ino name e =
      elim (Bool-cases (is_ok (e4_iterate_dir disk dir_ino (lookup_cb name) 0 e).0)) [
        | inl a ↦ rw (a, e4_iterate_dir-FindsNone dir_ino name e a) refl
        | inr a ↦ rw a refl
      ]
