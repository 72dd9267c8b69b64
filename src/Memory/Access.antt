-- ===== src/Memory/Access.antt =====
-- What a word access sees of the writes before it.
use obsidian_kernel.Base.{ℕ, ◌+◌, ◌/◌, ◌^◌, ◌≤◌, ◌<◌, ◌≡◌, ◌⊎◌, arith, u32, u8}
use obsidian_kernel.Memory.{Memory, store8, load32, store32}

-- Every byte of memory is a byte.
abbrev pub IsBytes : Memory → Type 0
IsBytes m = (a : ℕ) → m a < 256

-- `x` is not one of the `n` bytes from `a`.
abbrev pub Outside : ℕ → ℕ → ℕ → Type 0
Outside a n x = (x < a) ⊎ (a + n ≤ x)

-- `m` and `w` agree on the `n` bytes from `a`.
abbrev pub SameOn : ℕ → ℕ → Memory → Memory → Type 0
SameOn a n m w = (x : ℕ) → a ≤ x → x < a + n → w x ≡ m x

-- `m` and `w` agree off the `n` bytes from `a`.
abbrev pub SameOff : ℕ → ℕ → Memory → Memory → Type 0
SameOff a n m w = (x : ℕ) → Outside a n x → w x ≡ m x

pub load32-store32_self : (m : Memory) (a v : ℕ) → load32 (store32 m a v) a ≡ u32 v
unfolding load32 store32
load32-store32_self m a v = ground arith

pub store32-SameOff : (m : Memory) (a v : ℕ) → SameOff a 4 m (store32 m a v)
unfolding store32
store32-SameOff m a v x h = ground arith

pub store32_byte :
    (m : Memory) (a v x : ℕ)
    → (store32 m a v a ≡ u8 v)
      × (store32 m a v (a + 1) ≡ u8 (v / 2 ^ 8))
      × (store32 m a v (a + 2) ≡ u8 (v / 2 ^ 16))
      × (store32 m a v (a + 3) ≡ u8 (v / 2 ^ 24))
unfolding store32
store32_byte m a v x = (ground arith, ground arith, ground arith, ground arith)

pub load32_ext : (m w : Memory) (a : ℕ) → SameOn a 4 m w → load32 w a ≡ load32 m a
unfolding load32
load32_ext m w a h = ground (
  arith,
  h a (omega arith) (omega arith),
  h (a + 1) (omega arith) (omega arith),
  h (a + 2) (omega arith) (omega arith),
  h (a + 3) (omega arith) (omega arith),
)

pub load32-store32_ne :
    (m : Memory) (a b v : ℕ) → (a + 4 ≤ b) ⊎ (b + 4 ≤ a) → load32 (store32 m a v) b ≡ load32 m b
load32-store32_ne m a b v h =
    load32_ext m (store32 m a v) b (λ x p q. store32-SameOff m a v x (omega arith))

pub store8-IsBytes : (m : Memory) (a v : ℕ) → IsBytes m → v < 256 → IsBytes (store8 m a v)
unfolding store8
store8-IsBytes m a v h p x = ground (arith, h x)

pub store32-IsBytes : (m : Memory) (a v : ℕ) → IsBytes m → IsBytes (store32 m a v)
unfolding store32
store32-IsBytes m a v h x = ground (arith, h x)

pub load32-lt : (m : Memory) (a : ℕ) → IsBytes m → load32 m a < 2 ^ 32
unfolding load32
load32-lt m a h = omega (arith, h a, h (a + 1), h (a + 2), h (a + 3))
