-- ===== src/Base/BitAt.antt =====
-- One bit of a word: `(x >> c) & 1`, and what it is after `|` and `&`.
use Prim.Native.Nat.{ℕ, zero, suc, ◌-◌, ◌/◌, ◌%◌, ◌^◌, ◌<◌, ◌≤◌, min, max, bit_and, bit_or}
use mathlib.Core.Path.{◌≡◌, refl, ap, ◌∙◌}
use mathlib.Core.Logic.{◌≢◌}
use native.Mathlib.Nat.{pow-suc, one-le-pow, div-div-eq-div-mul}
use native.Mathlib.Omega.{arith}
use obsidian_kernel.Base.Bits.{bit_or_digit, bit_and_digit, bit_and_mask}

abbrev pub bit : ℕ → ℕ → ℕ
bit x zero = x % 2
bit x (suc c) = bit (x / 2) c

pub bit_le : (c x : ℕ) → bit x c ≤ 1
bit_le zero x = omega arith
bit_le (suc c) x = bit_le c (x / 2)

pub bit_div : (c x : ℕ) → bit_and (x / 2 ^ c) 1 ≡ bit x c
bit_div zero x = grind (arith, bit_and_mask 1 x)
bit_div (suc c) x = grind (arith, pow-suc 2 c, div-div-eq-div-mul x 2 (2 ^ c), bit_div c (x / 2))

half : (c x y : ℕ) → x / 2 ≡ y → bit x (suc c) ≡ bit y c
half c x y h = ap (λ t. bit t c) h

pub bit-bit_or : (c x y : ℕ) → bit (bit_or x y) c ≡ max (bit x c) (bit y c)
bit-bit_or zero x y = omega (arith, bit_or_digit x y)
bit-bit_or (suc c) x y =
    half c (bit_or x y) (bit_or (x / 2) (y / 2)) (omega (arith, bit_or_digit x y))
    ∙ bit-bit_or c (x / 2) (y / 2)

pub bit-bit_and : (c x y : ℕ) → bit (bit_and x y) c ≡ min (bit x c) (bit y c)
bit-bit_and zero x y = omega (arith, bit_and_digit x y)
bit-bit_and (suc c) x y =
    half c (bit_and x y) (bit_and (x / 2) (y / 2)) (omega (arith, bit_and_digit x y))
    ∙ bit-bit_and c (x / 2) (y / 2)

bit_zero : (c : ℕ) → bit 0 c ≡ 0
bit_zero zero = refl
bit_zero (suc c) = bit_zero c

pub bit_pow_self : (b : ℕ) → bit (2 ^ b) b ≡ 1
bit_pow_self zero = refl
bit_pow_self (suc b) = half b (2 ^ suc b) (2 ^ b) (omega (arith, pow-suc 2 b)) ∙ bit_pow_self b

pub bit_pow_ne : (b c : ℕ) → b ≢ c → bit (2 ^ b) c ≡ 0
bit_pow_ne zero zero h = absurd (h refl)
bit_pow_ne zero (suc c) h = bit_zero c
bit_pow_ne (suc b) zero h = omega (arith, pow-suc 2 b)
bit_pow_ne (suc b) (suc c) h =
    half c (2 ^ suc b) (2 ^ b) (omega (arith, pow-suc 2 b)) ∙ bit_pow_ne b c (λ e. h (ap suc e))

-- Every bit of a word of `w` ones is set.
pub bit_ones : (w c : ℕ) → c < w → bit (2 ^ w - 1) c ≡ 1
bit_ones zero c h = absurd (omega arith)
bit_ones (suc w) zero h = omega (arith, pow-suc 2 w, one-le-pow w 2)
bit_ones (suc w) (suc c) h =
    half c (2 ^ suc w - 1) (2 ^ w - 1) (omega (arith, pow-suc 2 w)) ∙ bit_ones w c (omega arith)

pow_lt : (b w : ℕ) → b < w → 2 ^ b < 2 ^ w
pow_lt b zero h = absurd (omega arith)
pow_lt zero (suc w) h = omega (arith, pow-suc 2 w, one-le-pow w 2)
pow_lt (suc b) (suc w) h = omega (arith, pow-suc 2 w, pow-suc 2 b, pow_lt b w (omega arith))

hole_half : (w b : ℕ) → b < w → (2 ^ suc w - 1 - 2 ^ suc b) / 2 ≡ 2 ^ w - 1 - 2 ^ b
hole_half w b h = omega (arith, pow-suc 2 w, pow-suc 2 b, pow_lt b w h)

-- The mask of `w` bits without bit `b`.
pub bit_hole_self : (w b : ℕ) → b < w → bit (2 ^ w - 1 - 2 ^ b) b ≡ 0
bit_hole_self zero b h = absurd (omega arith)
bit_hole_self (suc w) zero h = omega (arith, pow-suc 2 w, one-le-pow w 2)
bit_hole_self (suc w) (suc b) h =
    half b (2 ^ suc w - 1 - 2 ^ suc b) (2 ^ w - 1 - 2 ^ b) (hole_half w b (omega arith))
    ∙ bit_hole_self w b (omega arith)

pub bit_hole_ne : (w b c : ℕ) → b < w → c < w → b ≢ c → bit (2 ^ w - 1 - 2 ^ b) c ≡ 1
bit_hole_ne zero b c h k n = absurd (omega arith)
bit_hole_ne (suc w) zero zero h k n = absurd (n refl)
bit_hole_ne (suc w) zero (suc c) h k n =
    half c (2 ^ suc w - 1 - 2 ^ zero) (2 ^ w - 1) (omega (arith, pow-suc 2 w, one-le-pow w 2))
    ∙ bit_ones w c (omega arith)
bit_hole_ne (suc w) (suc b) zero h k n =
    omega (arith, pow-suc 2 w, pow-suc 2 b, pow_lt b w (omega arith))
bit_hole_ne (suc w) (suc b) (suc c) h k n =
    half c (2 ^ suc w - 1 - 2 ^ suc b) (2 ^ w - 1 - 2 ^ b) (hole_half w b (omega arith))
    ∙ bit_hole_ne w b c (omega arith) (omega arith) (λ e. n (ap suc e))
