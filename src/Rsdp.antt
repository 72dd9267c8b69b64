-- ===== src/Rsdp.antt =====
-- The search for the ACPI root pointer, drivers/acpi/rsdp.c, over the strings. Physical memory is a
-- byte at each address, which does not change. What `acpi_rsdp_get` returns is a copy of the
-- structure at the address that `acpi_find_rsdp` gives. `behind` are the bytes behind the copy, which
-- a checksum over a larger length reads. The scan takes a round of fuel for each 16 bytes of the
-- area and one more.
pub mod First
mod Tests
use obsidian_kernel.Base.{
  ℕ, zero, suc, ◌+◌, ◌-◌, ◌*◌, ◌/◌, ◌==◌, ltb, leb, Bool, true, false, ◌&&◌, ◌||◌, List, [], ◌∷◌,
  Option, none, some, if◌then◌else◌, u8,
}
use obsidian_kernel.Str.{k_strncmp, is_zero}

abbrev pub rsdp_size : ℕ
rsdp_size = 33

-- "RSD PTR "
abbrev pub rsdp_signature : List ℕ
rsdp_signature = 82 ∷ 83 ∷ 68 ∷ 32 ∷ 80 ∷ 84 ∷ 82 ∷ 32 ∷ []

-- The first `len` bytes of `p`, from byte `i` on, added to `sum`.
pub sum_loop : ℕ → (ℕ → ℕ) → ℕ → ℕ → ℕ
sum_loop zero p i sum = sum
sum_loop (suc n) p i sum = sum_loop n p (i + 1) (u8 (sum + p i))

pub checksum_ok : (ℕ → ℕ) → ℕ → Bool
checksum_ok p len = sum_loop len p 0 0 == 0

-- The characters of `n` bytes from byte `i` on, up to a NUL.
pub text_of : ℕ → (ℕ → ℕ) → ℕ → List ℕ
text_of zero p i = []
text_of (suc n) p i = let rest = text_of n p (i + 1) in if p i == 0 then [] else p i ∷ rest

abbrev pub rsdp_revision : (ℕ → ℕ) → ℕ
rsdp_revision r = r 15

abbrev pub rsdp_length : (ℕ → ℕ) → ℕ
rsdp_length r = r 20 + r 21 * 256 + r 22 * 65536 + r 23 * 16777216

pub validate_rsdp : (ℕ → ℕ) → Bool
validate_rsdp r =
    is_zero (k_strncmp (text_of 8 r 0) rsdp_signature 8)
    && checksum_ok r 20
    && (ltb (rsdp_revision r) 2 || checksum_ok r (rsdp_length r))

-- The copy of the structure at `p`.
abbrev pub copy_at : (ℕ → ℕ) → (ℕ → ℕ) → ℕ → ℕ → ℕ
copy_at mem behind p i = if ltb i rsdp_size then mem (p + i) else behind (i - rsdp_size)

pub scan : ℕ → (ℕ → ℕ) → (ℕ → ℕ) → ℕ → ℕ → Option ℕ
scan zero mem behind p end = none
scan (suc fuel) mem behind p end =
    let rest = scan fuel mem behind (p + 16) end in
    if leb (p + rsdp_size) end
    then (if validate_rsdp (copy_at mem behind p) then some p else rest)
    else none

abbrev pub or_else : Option ℕ → Option ℕ → Option ℕ
or_else none o = o
or_else (some p) o = some p

-- The segment of the EBDA as an address.
abbrev pub ebda : (ℕ → ℕ) → ℕ
ebda mem = (mem 0x40E + mem 0x40F * 256) * 16

pub acpi_find_rsdp : (ℕ → ℕ) → (ℕ → ℕ) → Option ℕ
acpi_find_rsdp mem behind =
    or_else (scan 65 mem behind (ebda mem) (ebda mem + 1024)) (scan 8193 mem behind 0xE0000 0xFFFFF)
