-- ===== src/Ext4/Io.antt =====
-- Steps of the driver in sequence: a step changes the driver's state, and returns a value or fails,
-- where C returns -1. The state that a failing step leaves is kept.
use obsidian_kernel.Base.{ℕ, Bool, true, false, List, Option, none, some, if◌then◌else◌, replicate}
use obsidian_kernel.Ext4.{Disk, Ext4, e4_write_block}
use obsidian_kernel.Ext4.Inode.{e4_read_inode, inode_struct_size}

abbrev pub Io : Type 0 → Type 0 → Type 0
Io D A = Ext4 D → Option A × Ext4 D

abbrev pub pure : {D A : Type 0} → A → Io D A
pure a e = (some a, e)

abbrev pub fail : {D A : Type 0} → Io D A
fail e = (none, e)

-- What follows a step that returned, or failed.
abbrev pub continue : {D A B : Type 0} → (A → Io D B) → Option A × Ext4 D → Option B × Ext4 D
continue f (none, e) = (none, e)
continue f (some a, e) = f a e

infixl 5 ◌>>=◌ ◌>>◌
abbrev pub ◌>>=◌ : {D A B : Type 0} → Io D A → (A → Io D B) → Io D B
◌>>=◌ m f e = continue f (m e)

abbrev pub ◌>>◌ : {D A B : Type 0} → Io D A → Io D B → Io D B
m >> k = m >>= λ _. k

module _ {D : Type 0} where
  abbrev pub gets : {A : Type 0} → (Ext4 D → A) → Io D A
  gets f e = (some (f e), e)

  abbrev pub modify : (Ext4 D → Ext4 D) → Io D (Unit {0})
  modify f e = (some tt, f e)

  -- A failure becomes a value.
  abbrev pub attempt : {A : Type 0} → Io D A → Io D (Option A)
  attempt m e = let (r, e) = m e in (some r, e)

  -- A step whose result says whether it returned 0.
  abbrev pub checked : (Ext4 D → Bool × Ext4 D) → Io D (Unit {0})
  checked m e = let (ok, e) = m e in (if ok then some tt else none, e)

  -- A step whose result is not looked at.
  abbrev pub ignored : (Ext4 D → Bool × Ext4 D) → Io D (Unit {0})
  ignored m e = (some tt, (m e).1)

  abbrev pub guard : Bool → Io D (Unit {0})
  guard true e = (some tt, e)
  guard false e = (none, e)

  module _ (disk : Disk D) where
    -- `e4_read_inode` into a structure of the caller.
    abbrev pub host_inode : ℕ → Io D (List ℕ)
    host_inode ino e =
        let (ok, i, e) = e4_read_inode disk ino (replicate inode_struct_size 0) e in
        (if ok then some i else none, e)

    -- `e4_write_block` of a scratch block.
    abbrev pub write_scratch1 : ℕ → Ext4 D → Bool × Ext4 D
    write_scratch1 block e = e4_write_block disk block e.scratch1 e

    abbrev pub write_scratch2 : ℕ → Ext4 D → Bool × Ext4 D
    write_scratch2 block e = e4_write_block disk block e.scratch2 e
