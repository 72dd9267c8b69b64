-- ===== src/Blkdev/Register.antt =====
-- The registry is the list of the devices registered, in that order, four at most.
use obsidian_kernel.Base.{
  is_null, ℕ, ◌<◌, ◌≤◌, true, false, some, ◌≡◌, ◌≢◌, ◌⊎◌, length, length-set, get_or-set_self,
  get_or-set_ne, pos, arith,
}
use obsidian_kernel.Blkdev.{Device, Registry, blank, blkdev_max, blk_register, blk_get, stored}

module _ (S : Type 0) where
  -- The array has its size, and the count is within it.
  abbrev pub IsRegistry : Registry S → Type 0
  IsRegistry r = (length r.devs ≡ blkdev_max) × (r.ndevs ≤ blkdev_max)

  -- What `blk_register` takes: a present device that can be read and has a sector size.
  abbrev pub IsUsable : Device S → Type 0
  IsUsable d = (d.present ≡ true) × (is_null d.read_sectors ≡ false) × (d.sector_size ≢ 0)

  -- A usable device is registered if one of the four places is left: it is what `blk_get` returns at
  -- the next index, with its name copied, and the devices before it stay. Registering an
  -- unusable device, or a fifth, fails and changes nothing. The registry stays well-formed.
  pub blk_register-IsRegistry :
      (d : Device S) (r : Registry S)
      → IsRegistry r
      → IsRegistry (blk_register S (some d) r).1
        × (IsUsable d
            → r.ndevs < blkdev_max
            → ((blk_register S (some d) r).0 ≡ true)
              × (blk_get S (pos r.ndevs) (blk_register S (some d) r).1 ≡ some (stored S d))
              × ((i : ℕ)
                  → i < r.ndevs
                  → blk_get S (pos i) (blk_register S (some d) r).1 ≡ blk_get S (pos i) r))
        × ((d.present ≡ false)
              ⊎ (is_null d.read_sectors ≡ true)
              ⊎ (d.sector_size ≡ 0)
              ⊎ (r.ndevs ≡ blkdev_max)
            → blk_register S (some d) r ≡ (false, r))
  unfolding blk_register blk_get
  blk_register-IsRegistry d r w = (
    ground (arith, length-set r.devs r.ndevs (stored S d)),
    (λ u k. (
      grind arith,
      grind (arith, get_or-set_self r.devs r.ndevs (stored S d) (blank S)),
      (λ i h. grind (arith, get_or-set_ne r.devs r.ndevs i (stored S d) (blank S))),
    )),
    (λ o. grind arith),
  )
