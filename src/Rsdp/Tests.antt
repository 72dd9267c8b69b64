-- ===== src/Rsdp/Tests.antt =====
-- A memory with a structure of version 1 at 0xE0010.
use obsidian_kernel.Base.{ℕ, ◌-◌, List, [], ◌∷◌, ◌≡◌, ◌++◌, refl, true, ltb, get_or, if◌then◌else◌}
use obsidian_kernel.Rsdp.{acpi_find_rsdp, ebda, rsdp_signature, checksum_ok, sum_loop, copy_at}
use obsidian_kernel.Rsdp.First.{first_valid, steps, acpi_find_rsdp-first}

abbrev structure : List ℕ
structure = rsdp_signature ++ 225 ∷ []

abbrev memory : ℕ → ℕ
memory a = if ltb a 0xE0010 then 0 else get_or structure (a - 0xE0010) 0

abbrev zeros : ℕ → ℕ
zeros a = 0

acpi_find_rsdp-first_example :
    acpi_find_rsdp memory zeros
    ≡ first_valid memory zeros (steps 62 (ebda memory) ++ steps 8190 0xE0000)
acpi_find_rsdp-first_example = acpi_find_rsdp-first memory zeros

valid : checksum_ok (copy_at memory zeros 0xE0010) 20 ≡ true
unfolding checksum_ok sum_loop
valid = refl
