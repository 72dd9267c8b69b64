-- ===== src/Udivmod.antt =====
-- lib/udivmod64.c: 64-bit division for i686, by shift and subtract.
mod Correct
mod Tests
use obsidian_kernel.Base.{
  ℕ, zero, suc, ◌-◌, ◌*◌, ◌/◌, ◌%◌, ◌^◌, leb, ◌==◌, if◌then◌else◌, u64, bit_or,
}

-- `quot` and `rem`.
pub record DivMod : Type 0 where
  pub quot : ℕ
  pub rem : ℕ

abbrev pub div_mod : ℕ → ℕ → DivMod
div_mod q r = record { quot = q; rem = r }

-- One round of the loop, at bit `i`.
pub udivmod_round : ℕ → ℕ → ℕ → DivMod → DivMod
udivmod_round num den i s =
    let rem = bit_or (u64 (s.rem * 2)) (num / 2 ^ i % 2) in
    if leb den rem then div_mod (bit_or s.quot (2 ^ i)) (rem - den) else div_mod s.quot rem

-- `for (i = 63; i >= 0; i--)`, with `n = i + 1` rounds left.
pub udivmod_loop : ℕ → ℕ → ℕ → DivMod → DivMod
udivmod_loop num den zero s = s
udivmod_loop num den (suc i) s = udivmod_loop num den i (udivmod_round num den i s)

-- The result and what is stored through a non-null `rem_out`.
pub udivmoddi4 : ℕ → ℕ → DivMod
udivmoddi4 num den = if den == 0 then div_mod 0 0 else udivmod_loop num den 64 (div_mod 0 0)
