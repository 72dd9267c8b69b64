-- ===== src/Ext4/Inode/Store.antt =====
-- An inode that is written is the one that is read.
use obsidian_kernel.Base.{
  ℕ, ◌+◌, ◌*◌, ◌^◌, ◌≤◌, ◌<◌, Bool, true, List, u32, u64, length, take, slice, blit, leb, ge→ltb,
  le→leb, length-take, slice-blit_self, ◌≡◌, refl, ap, ◌∙◌, subst, arith,
}
use obsidian_kernel.Ext4.{Disk, Ext4}
use obsidian_kernel.Ext4.Group.{e4_gd}
use obsidian_kernel.Ext4.Inode.{
  e4_read_inode, e4_write_inode, inode_block, inode_offset, inode_table_block, inode_byte,
}
use obsidian_kernel.Ext4.Inode.Place.{
  IsStore, mounted, read_scratch1-mounted, e4_write_block-mounted,
}

module _ {D : Type 0} (disk : Disk D) (spb blocks : ℕ) (at : D → ℕ → List ℕ)
    (store : IsStore disk spb blocks at) where
  -- The driver on device `d`.
  abbrev pub on : D → Ext4 D → Ext4 D
  on d e = mounted d (record e { sectors_per_block = spb })

  -- The inode lies in one block, below the end of the device.
  abbrev pub IsPlaced : ℕ → Ext4 D → Type 0
  IsPlaced ino e =
      (1 ≤ ino)
      × (ino ≤ e.inodes_count)
      × (inode_block ino e < blocks)
      × (inode_offset ino e + e.inode_size ≤ e.block_size)
      × (e.block_size < 2 ^ 32)

  fits :
      (ino : ℕ) (e : Ext4 D)
      → IsPlaced ino e
      → leb (u32 (inode_offset ino e + e.inode_size)) e.block_size ≡ true
  fits ino e p = le→leb _ _ (omega (arith, p.3, p.4))

  pub e4_read_inode-on :
      (ino : ℕ) (out : List ℕ) (d : D) (e : Ext4 D)
      → IsPlaced ino (on d e)
      → e4_read_inode disk ino out (on d e) ≡ (
        true,
        blit out 0
            (slice (at d (inode_block ino (on d e))) (inode_offset ino (on d e)) e.inode_size),
        on d (record e { scratch1 = at d (inode_block ino (on d e)) }),
      )
  unfolding e4_read_inode
  e4_read_inode-on ino out d e p =
      rw
        (
          read_scratch1-mounted disk spb blocks at store (inode_block ino (on d e)) d e p.2,
          ge→ltb ino 1 p.0,
          ge→ltb e.inodes_count ino p.1,
          fits ino (on d e) p,
        )
        refl

  -- The device after the inode is written.
  abbrev pub device_after : ℕ → List ℕ → D → Ext4 D → D
  device_after ino i d e =
      let blk = inode_block ino (on d e) in
      let buf = blit (at d blk) (inode_offset ino (on d e)) (take e.inode_size i) in
      (disk.blk_write (u64 (blk * spb)) spb buf d).1

  pub e4_write_inode-on :
      (ino : ℕ) (i : List ℕ) (d : D) (e : Ext4 D)
      → IsPlaced ino (on d e)
      → e4_write_inode disk ino i (on d e) ≡ (
        true,
        on (device_after ino i d e) (record e {
          scratch1 =
              blit
                (at d (inode_block ino (on d e)))
                (inode_offset ino (on d e))
                (take e.inode_size i);
        }),
      )
  unfolding e4_write_inode
  e4_write_inode-on ino i d e p =
      let blk = inode_block ino (on d e) in
      let buf = blit (at d blk) (inode_offset ino (on d e)) (take e.inode_size i) in
      rw
        (
          read_scratch1-mounted disk spb blocks at store blk d e p.2,
          ge→ltb ino 1 p.0,
          ge→ltb e.inodes_count ino p.1,
          fits ino (on d e) p,
        )
        (e4_write_block-mounted disk spb blocks at store blk buf d (record e { scratch1 = buf })
          p.2)

  slice-device_after :
      (ino : ℕ) (i : List ℕ) (d : D) (e : Ext4 D)
      → IsPlaced ino (on d e)
      → e.inode_size ≤ length i
      → length (at d (inode_block ino (on d e))) ≡ e.block_size
      → slice
          (at (device_after ino i d e) (inode_block ino (on d e)))
          (inode_offset ino (on d e))
          e.inode_size
        ≡ take e.inode_size i
  slice-device_after ino i d e p long full =
      let blk = inode_block ino (on d e) in
      let off = inode_offset ino (on d e) in
      let src = take e.inode_size i in
      let exact : length src ≡ e.inode_size = omega (arith, length-take e.inode_size i) in
      rw (store.holds blk (blit (at d blk) off src) d p.2) (
        subst (λ n. slice (blit (at d blk) off src) off n ≡ src) exact
          (slice-blit_self (at d blk) off src (omega (arith, exact, full, p.3))))

  -- On a device that keeps its blocks, `e4_write_inode` of an inode whose bytes lie in one block
  -- succeeds, and `e4_read_inode` then returns its bytes.
  pub e4_read_inode-e4_write_inode :
      (ino : ℕ) (i out : List ℕ) (d : D) (e : Ext4 D)
      → IsPlaced ino (on d e)
      → e.inode_size ≤ length i
      → length (at d (inode_block ino (on d e))) ≡ e.block_size
      → ((e4_write_inode disk ino i (on d e)).0 ≡ true)
        × ((e4_read_inode disk ino out (e4_write_inode disk ino i (on d e)).1).0 ≡ true)
        × ((e4_read_inode disk ino out (e4_write_inode disk ino i (on d e)).1).1
            ≡ blit out 0 (take e.inode_size i))
  unfolding inode_block inode_offset inode_table_block inode_byte e4_gd
  e4_read_inode-e4_write_inode ino i out d e p long full =
      let blk = inode_block ino (on d e) in
      let buf = blit (at d blk) (inode_offset ino (on d e)) (take e.inode_size i) in
      let written = record e { scratch1 = buf } in
      let read = e4_read_inode-on ino out (device_after ino i d e) written p in
      rw (e4_write_inode-on ino i d e p) (
        refl,
        ap (λ (r : Bool × List ℕ × Ext4 D). r.0) read,
        ap (λ (r : Bool × List ℕ × Ext4 D). r.1) read
            ∙ ap (blit out 0) (slice-device_after ino i d e p long full),
      )
