-- ===== src/Rsdp/First.antt =====
-- The search finds the first structure that is valid.
use obsidian_kernel.Base.{
  ℕ, zero, suc, ◌+◌, ◌*◌, ◌≤◌, ◌<◌, List, [], ◌∷◌, ◌++◌, Option, none, some, if◌then◌else◌, ◌≡◌,
  ◌∙◌, refl, ap₂, sym, arith, Bool-cases, inl, inr, le→leb, gt→leb,
}
use obsidian_kernel.Rsdp.{validate_rsdp, copy_at, scan, or_else, ebda, acpi_find_rsdp}

-- `n` addresses, 16 bytes apart.
pub steps : ℕ → ℕ → List ℕ
steps zero p = []
steps (suc n) p = p ∷ steps n (p + 16)

-- The first of these addresses with a valid structure.
pub first_valid : (ℕ → ℕ) → (ℕ → ℕ) → List ℕ → Option ℕ
first_valid mem behind [] = none
first_valid mem behind (p ∷ places) =
    let rest = first_valid mem behind places in
    if validate_rsdp (copy_at mem behind p) then some p else rest

first_valid-++ :
    (mem behind : ℕ → ℕ) (a b : List ℕ)
    → first_valid mem behind (a ++ b)
      ≡ or_else (first_valid mem behind a) (first_valid mem behind b)
unfolding first_valid
first_valid-++ mem behind [] b = refl
first_valid-++ mem behind (p ∷ a) b = elim (Bool-cases (validate_rsdp (copy_at mem behind p))) [
  | inl v ↦ rw v refl
  | inr v ↦ rw v (first_valid-++ mem behind a b)
]

scan-steps :
    (n fuel : ℕ) (mem behind : ℕ → ℕ) (p end : ℕ)
    → n < fuel
    → (n * 16 + p + 17 ≤ end) × (end < n * 16 + p + 33)
    → scan fuel mem behind p end ≡ first_valid mem behind (steps n p)
unfolding scan first_valid steps
scan-steps n zero mem behind p end lt ends = grind (arith, lt)
scan-steps zero (suc fuel) mem behind p end lt ends =
    rw (gt→leb (p + 33) end (omega (arith, ends))) refl
scan-steps (suc n) (suc fuel) mem behind p end lt ends =
    rw
      (
        le→leb (p + 33) end (omega (arith, ends)),
        scan-steps n fuel mem behind (p + 16) end (omega (arith, lt))
            (omega (arith, ends), omega (arith, ends)),
      )
      refl

-- The search gives the first address with a valid structure, of the 62 that lie 16 bytes apart in
-- the first kilobyte of the EBDA and then the 8190 from 0xE0000 on, and nothing if there is none.
pub acpi_find_rsdp-first :
    (mem behind : ℕ → ℕ)
    → acpi_find_rsdp mem behind ≡ first_valid mem behind (steps 62 (ebda mem) ++ steps 8190 0xE0000)
unfolding acpi_find_rsdp
acpi_find_rsdp-first mem behind =
    ap₂ or_else
      (scan-steps 62 65 mem behind (ebda mem) (ebda mem + 1024) (omega arith)
        (omega arith, omega arith))
      (scan-steps 8190 8193 mem behind 0xE0000 0xFFFFF (omega arith) (omega arith, omega arith))
    ∙ sym (first_valid-++ mem behind (steps 62 (ebda mem)) (steps 8190 0xE0000))
