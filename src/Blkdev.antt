-- ===== src/Blkdev.antt =====
-- drivers/block/blkdev.c: the registry of block devices and the checks before a driver is called.
-- A driver is code outside this file: its entry points are functions on a state `S` of the machine,
-- and a null pointer is `none`. A transfer takes the address of its buffer, NULL being 0.
pub mod Register
pub mod Transfer
mod Tests
use obsidian_kernel.Base.{
  is_null, ℕ, zero, suc, ◌+◌, ◌==◌, ltb, leb, ◌||◌, ◌&&◌, not, Bool, true, false, List, [], ◌∷◌,
  ◌++◌, Option, none, some, if◌then◌else◌, u64, ℤ, pos, negsuc, ◌-◌, get_or, set, replicate, drop,
}
use obsidian_kernel.Str.{k_strncpy}

abbrev pub blkdev_max : ℕ
blkdev_max = 4

abbrev pub blkdev_name_len : ℕ
blkdev_name_len = 24

-- The characters of an array before its first NUL.
pub c_string : List ℕ → List ℕ
c_string [] = []
c_string (c ∷ s) = let rest = c_string s in if c == 0 then [] else c ∷ rest

module _ (S : Type 0) where
  -- A driver's entry point: sector, count, buffer, and the machine before and after.
  abbrev pub Entry : Type 0
  Entry = ℕ → ℕ → ℕ → S → ℤ × S

  pub record Device : Type 0 where
    pub name : List ℕ
    pub sectors : ℕ
    pub sector_size : ℕ
    pub present : Bool
    pub writable : Bool
    pub read_sectors : Option Entry
    pub write_sectors : Option Entry

  -- The array and the number of its elements in use.
  pub record Registry : Type 0 where
    pub devs : List Device
    pub ndevs : ℕ

  -- A device of zero bytes.
  abbrev pub blank : Device
  blank = record {
    name = replicate blkdev_name_len 0;
    sectors = 0;
    sector_size = 0;
    present = false;
    writable = false;
    read_sectors = none;
    write_sectors = none;
  }

  unfoldable pub blkdev_init : Registry
  blkdev_init = record { devs = replicate blkdev_max blank; ndevs = 0 }

  -- `devs[ndevs] = *dev`, then the name again: `k_strncpy` writes all bytes but the last.
  pub stored : Device → Device
  stored d = record d {
    name = k_strncpy (c_string d.name) (blkdev_name_len - 1) ++ drop (blkdev_name_len - 1) d.name;
  }

  pub blk_register : Option Device → Registry → Bool × Registry
  blk_register none r = (false, r)
  blk_register (some d) r =
      if not d.present || is_null d.read_sectors
      then (false, r)
      else if leb blkdev_max r.ndevs || d.sector_size == 0
      then (false, r)
      else (true, record r { devs = set r.devs r.ndevs (stored d); ndevs = r.ndevs + 1 })

  pub blk_count : Registry → ℕ
  blk_count r = r.ndevs

  pub blk_get : ℤ → Registry → Option Device
  blk_get (negsuc i) r = none
  blk_get (pos i) r = if leb r.ndevs i then none else some (get_or r.devs i blank)

  pub blk_first : Registry → Option Device
  blk_first r = if r.ndevs == 0 then none else some (get_or r.devs 0 blank)

  -- `lba + count > d->sectors && d->sectors`
  abbrev pub past_end : Device → ℕ → ℕ → Bool
  past_end d lba count = ltb d.sectors (u64 (lba + count)) && not (d.sectors == 0)

  -- The driver's result; a null entry point would be a fault, and is not called.
  abbrev pub call : Option Entry → Entry
  call none lba count buf s = (negsuc 0, s)
  call (some f) lba count buf s = f lba count buf s

  pub blk_read : Option Device → ℕ → ℕ → ℕ → S → ℤ × S
  blk_read none lba count buf s = (negsuc 0, s)
  blk_read (some d) lba count buf s =
      if count == 0 || buf == 0
      then (negsuc 0, s)
      else if past_end d lba count
      then (negsuc 0, s)
      else call d.read_sectors lba count buf s

  pub blk_write : Option Device → ℕ → ℕ → ℕ → S → ℤ × S
  blk_write none lba count buf s = (negsuc 0, s)
  blk_write (some d) lba count buf s =
      if count == 0 || buf == 0 || is_null d.write_sectors || not d.writable
      then (negsuc 0, s)
      else if past_end d lba count
      then (negsuc 0, s)
      else call d.write_sectors lba count buf s
