-- ===== src/Base/Bytes.antt =====
-- Little-endian fields of 16 and 32 bits in arrays of bytes, and copies into arrays.
pub mod Laws
use obsidian_kernel.Base.Words.{u8}
use obsidian_kernel.Base.Lists.{get_or, take, drop}
use Prim.Native.Nat.{ℕ, zero, suc, ◌+◌, ◌*◌, ◌/◌, ◌%◌, ◌^◌}
use mathlib.Core.List.{List, [], ◌∷◌}

abbrev pub le16 : ℕ → List ℕ
le16 v = u8 v ∷ u8 (v / 2 ^ 8) ∷ []

abbrev pub le32 : ℕ → List ℕ
le32 v = u8 v ∷ u8 (v / 2 ^ 8) ∷ u8 (v / 2 ^ 16) ∷ u8 (v / 2 ^ 24) ∷ []

abbrev pub read8 : List ℕ → ℕ → ℕ
read8 b i = get_or b i 0

abbrev pub read16 : List ℕ → ℕ → ℕ
read16 b i = get_or b i 0 + get_or b (i + 1) 0 * 2 ^ 8

abbrev pub read32 : List ℕ → ℕ → ℕ
read32 b i =
    get_or b i 0
    + get_or b (i + 1) 0 * 2 ^ 8
    + get_or b (i + 2) 0 * 2 ^ 16
    + get_or b (i + 3) 0 * 2 ^ 24

-- The `n` bytes from `off`.
abbrev pub slice : List ℕ → ℕ → ℕ → List ℕ
slice b off n = take n (drop off b)

-- The bytes `src` copied to `off` of an array, as far as it goes.
abbrev pub blit : List ℕ → ℕ → List ℕ → List ℕ
blit [] off src = []
blit (y ∷ b) zero [] = y ∷ b
blit (y ∷ b) zero (x ∷ src) = x ∷ blit b zero src
blit (y ∷ b) (suc off) src = y ∷ blit b off src

abbrev pub put16 : List ℕ → ℕ → ℕ → List ℕ
put16 b off v = blit b off (le16 v)

abbrev pub put32 : List ℕ → ℕ → ℕ → List ℕ
put32 b off v = blit b off (le32 v)
