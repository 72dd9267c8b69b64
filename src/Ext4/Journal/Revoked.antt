-- ===== src/Ext4/Journal/Revoked.antt =====
-- The replay leaves revoked blocks as they are.
use obsidian_kernel.Base.{
  ℕ, zero, suc, ◌+◌, ◌/◌, ◌<◌, ◌^◌, ◌==◌, ltb, leb, true, List, Option, none, some, bit_and, ◌≡◌,
  refl, ap, if◌then◌else◌, not, ◌||◌, Bool-cases, inl, inr, arith, replicate,
}
use obsidian_kernel.Ext4.{Disk, Ext4, e4_write_block, e4_read_block}
use obsidian_kernel.Ext4.Map.{e4_bmap}
use obsidian_kernel.Ext4.Alloc.{is_marked}
use obsidian_kernel.Ext4.Inode.Keeps.{
  dev_block, IsDevice, Holds, if-Holds, e4_bmap-Holds, e4_read_block-Holds, e4_write_block-Holds,
}
use obsidian_kernel.Ext4.Journal.{
  Journal, be32, read_mapped, jread, write_content, unescape, apply_tags, pass2_block, pass2,
  was_committed, tag_last, j_magic, jt_desc,
}

be32_lt : (p : List ℕ) (i : ℕ) → be32 p i < 2 ^ 32
unfolding be32
be32_lt p i = omega arith

module _ {D : Type 0} (disk : Disk D) (spb : ℕ) (at : D → ℕ → List ℕ)
    (device : IsDevice disk spb at) (b : ℕ) (v : List ℕ) where
  -- Block `b` of the device holds `v`.
  abbrev Has : Ext4 D → Type 0
  Has = Holds disk spb at device b v

  read_mapped-Holds : (o : Option ℕ) (e : Ext4 D) → Has e → Has (read_mapped disk o e).1
  read_mapped-Holds none e h = h
  read_mapped-Holds (some c) e h =
      let read = e4_read_block disk c (replicate e.block_size 0) e in
      let after = e4_read_block-Holds disk spb at device b v c (replicate e.block_size 0) e h in
      if-Holds disk spb at device b v (c == 0) (none, e)
        (if read.0 then (some read.1, read.2) else (none, read.2)) h
        (if-Holds disk spb at device b v read.0 (some read.1, read.2) (none, read.2) after after)

  jread-Holds : (c : ℕ) (j : Journal) (e : Ext4 D) → Has e → Has (jread disk c j e).1
  unfolding jread
  jread-Holds c j e h =
      let mapped = e4_bmap disk j.jin c e in
      read_mapped-Holds mapped.0 mapped.1 (e4_bmap-Holds disk spb at device b v j.jin c e h)

  write_content-Holds :
      (target flags c : ℕ) (j : Journal) (next : Ext4 D → ℕ × Ext4 D)
      → is_marked j.revbits b ≡ true
      → target < 2 ^ 32
      → ((e : Ext4 D) → Has e → Has (next e).1)
      → (content : Option (List ℕ)) (e : Ext4 D) → Has e
      → Has (write_content disk target flags c j next content e).1
  write_content-Holds target flags c j next revoked lt k none e h = h
  write_content-Holds target flags c j next revoked lt k (some content) e h =
      let bytes = unescape flags content in
      let written = e4_write_block disk target bytes e in
      elim (Bool-cases (is_marked j.revbits target)) [
        | inl a ↦ rw a (k e h)
        | inr a ↦
            (let after =
                e4_write_block-Holds disk spb at device b v target bytes e lt
                  (λ same. cc (a, revoked, ap (is_marked j.revbits) same)) h in
              rw a (
                if-Holds disk spb at device b v written.0 (next written.1) (c, written.1)
                  (k written.1 after) after))
      ]

  apply_tags-Holds :
      (n cap tagsz : ℕ) (buf : List ℕ) (off c : ℕ) (j : Journal) (e : Ext4 D)
      → is_marked j.revbits b ≡ true
      → Has e
      → Has (apply_tags disk n cap tagsz buf off c j e).1
  unfolding apply_tags
  apply_tags-Holds zero cap tagsz buf off c j e revoked h = h
  apply_tags-Holds (suc n) cap tagsz buf off c j e revoked h =
      let target = be32 buf off in
      let flags = be32 buf (off + 4) in
      let read = jread disk c j e in
      let next = apply_tags disk n cap tagsz buf (off + tagsz) (c + 1) j in
      let rest = write_content disk target flags c j next read.0 read.1 in
      let stopped = not (bit_and flags tag_last == 0) || target == 0 in
      if-Holds disk spb at device b v (ltb e.block_size (off + tagsz) || leb cap c) (c, e)
        (if stopped then (c, e) else rest) h
        (if-Holds disk spb at device b v stopped (c, e) rest h
          (write_content-Holds target flags c j next revoked (be32_lt buf off)
            (λ e h. apply_tags-Holds n cap tagsz buf (off + tagsz) (c + 1) j e revoked h) read.0
            read.1 (jread-Holds c j e h)))

  pass2_block-Holds :
      (cap tagsz i : ℕ) (j : Journal) (buf : Option (List ℕ)) (e : Ext4 D)
      → is_marked j.revbits b ≡ true
      → Has e
      → Has (pass2_block disk cap tagsz i j buf e).1
  unfolding pass2_block
  pass2_block-Holds cap tagsz i j none e revoked h = h
  pass2_block-Holds cap tagsz i j (some buf) e revoked h =
      let other =
        not (be32 buf 0 == j_magic)
        || not (be32 buf 4 == jt_desc)
        || not (was_committed (be32 buf 8) j) in
      let n = suc (e.block_size / tagsz) in
      if-Holds disk spb at device b v other (i + 1, e)
        (apply_tags disk n cap tagsz buf 12 (i + 1) j e) h
        (apply_tags-Holds n cap tagsz buf 12 (i + 1) j e revoked h)

  pass2-Holds :
      (n cap tagsz i : ℕ) (j : Journal) (e : Ext4 D)
      → is_marked j.revbits b ≡ true
      → Has e
      → Has (pass2 disk n cap tagsz i j e)
  unfolding pass2
  pass2-Holds zero cap tagsz i j e revoked h = h
  pass2-Holds (suc n) cap tagsz i j e revoked h =
      let read = jread disk i j e in
      let applied = pass2_block disk cap tagsz i j read.0 read.1 in
      let rest =
        pass2-Holds n cap tagsz applied.0 j applied.1 revoked
          (pass2_block-Holds cap tagsz i j read.0 read.1 revoked (jread-Holds i j e h)) in
      elim (Bool-cases (leb cap i)) [ inl a ↦ rw a h | inr a ↦ rw a rest ]

-- On a device where reads change nothing and a write changes its own block only, the second pass of
-- the replay leaves every block whose bit is set in the revoked blocks as it was.
pub pass2-revoked :
    {D : Type 0} (disk : Disk D) (at : D → ℕ → List ℕ) (e : Ext4 D)
    → IsDevice disk e.sectors_per_block at
    → (n cap tagsz i : ℕ) (j : Journal) (b : ℕ) → is_marked j.revbits b ≡ true
    → dev_block at (pass2 disk n cap tagsz i j e).dev b ≡ dev_block at e.dev b
pass2-revoked disk at e device n cap tagsz i j b revoked =
    (pass2-Holds disk e.sectors_per_block at device b (dev_block at e.dev b) n cap tagsz i j e
      revoked (record { sectors = refl; content = refl })).content
