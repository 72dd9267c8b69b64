-- ===== src/Base/Int.antt =====
-- The `int` results of comparisons, as integers over native numbers.
use Prim.Native.Nat.{ℕ, ◌-◌}
use mathlib.Core.Path.{◌≡◌}
use mathlib.Core.Logic.{◌↔◌}
use obsidian_kernel.Base.Tests.{leb, if◌then◌else◌}
use native.Mathlib.Omega.{arith}

pub data ℤ : Type 0 where
  pos : ℕ → ℤ
  negsuc : ℕ → ℤ

-- `(int)a - (int)b` for values that are not negative.
infixl 70 ◌-ℤ◌
abbrev pub ◌-ℤ◌ : ℕ → ℕ → ℤ
a -ℤ b = if leb b a then pos (a - b) else negsuc (b - a - 1)

pub -ℤ_zero : (a b : ℕ) → (a -ℤ b ≡ pos 0) ↔ (a ≡ b)
-ℤ_zero a b = ground arith
