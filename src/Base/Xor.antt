-- ===== src/Base/Xor.antt =====
-- The laws of `^`.
use Prim.Native.Nat.{
  ℕ, zero, suc, ◌+◌, ◌*◌, ◌/◌, ◌%◌, ◌^◌, ◌≤◌, ◌<◌, bit_xor, bitwise, bit_xor-bitwise, differ,
}
use mathlib.Core.Path.{◌≡◌, refl, ap, ap₂, ◌∙◌}
use native.Mathlib.Omega.{arith}
use native.Mathlib.Nat.{pow-suc}
use obsidian_kernel.Base.Bits.{bitwise_digit, double_field}

differ_lem : (x y : ℕ) → x < 2 → y < 2 → differ x y ≡ (x + y) % 2
differ_lem zero y h k = omega arith
differ_lem (suc zero) zero h k = omega arith
differ_lem (suc zero) (suc zero) h k = omega arith
differ_lem (suc zero) (suc (suc y)) h k = absurd (omega arith)
differ_lem (suc (suc x)) y h k = absurd (omega arith)

pub bit_xor_digit : (a b : ℕ) → bit_xor a b ≡ bit_xor (a / 2) (b / 2) * 2 + (a % 2 + b % 2) % 2
bit_xor_digit zero b = simp bit_xor-bitwise (omega arith)
bit_xor_digit (suc a) b = simp bit_xor-bitwise (
    bitwise_digit (λ y. y) differ a b
    ∙ ap (bitwise (λ y. y) differ (suc a / 2) (b / 2) * 2 +◌)
        (differ_lem (suc a % 2) (b % 2) (omega arith) (omega arith)))

-- The two digits of a number.
pub bit_xor_half : (a b : ℕ) → bit_xor a b / 2 ≡ bit_xor (a / 2) (b / 2)
bit_xor_half a b = omega (arith, bit_xor_digit a b)

pub bit_xor_low : (a b : ℕ) → bit_xor a b % 2 ≡ (a % 2 + b % 2) % 2
bit_xor_low a b = omega (arith, bit_xor_digit a b)

assoc : (k a b c : ℕ) → a ≤ k → b ≤ k → c ≤ k → bit_xor (bit_xor a b) c ≡ bit_xor a (bit_xor b c)
assoc zero zero zero zero ha hb hc = refl
assoc zero (suc a) b c ha hb hc = absurd (omega arith)
assoc zero zero (suc b) c ha hb hc = absurd (omega arith)
assoc zero zero zero (suc c) ha hb hc = absurd (omega arith)
assoc (suc k) a b c ha hb hc =
    let half = assoc k (a / 2) (b / 2) (c / 2) (omega arith) (omega arith) (omega arith) in
    let left =
      bit_xor_digit (bit_xor a b) c
      ∙ ap₂ (λ h l. bit_xor h (c / 2) * 2 + (l + c % 2) % 2) (bit_xor_half a b) (bit_xor_low a b) in
    let right =
      bit_xor_digit a (bit_xor b c)
      ∙ ap₂ (λ h l. bit_xor (a / 2) h * 2 + (a % 2 + l) % 2) (bit_xor_half b c) (bit_xor_low b c) in
    omega (arith, left, right, half)

pub bit_xor_assoc : (a b c : ℕ) → bit_xor (bit_xor a b) c ≡ bit_xor a (bit_xor b c)
bit_xor_assoc a b c = assoc (a + b + c) a b c (omega arith) (omega arith) (omega arith)

laws : (k a b : ℕ) → a ≤ k → b ≤ k → (bit_xor a b ≡ bit_xor b a) × (bit_xor a a ≡ 0)
laws zero zero zero ha hb = (refl, refl)
laws zero (suc a) b ha hb = absurd (omega arith)
laws zero zero (suc b) ha hb = absurd (omega arith)
laws (suc k) a b ha hb =
    let half = laws k (a / 2) (b / 2) (omega arith) (omega arith) in
    (
      omega (arith, bit_xor_digit a b, bit_xor_digit b a, half.0),
      omega (arith, bit_xor_digit a a, half.1),
    )

pub bit_xor_comm : (a b : ℕ) → bit_xor a b ≡ bit_xor b a
bit_xor_comm a b = (laws (a + b) a b (omega arith) (omega arith)).0

pub bit_xor_self : (a : ℕ) → bit_xor a a ≡ 0
bit_xor_self a = (laws a a a (omega arith) (omega arith)).1

pub zero-bit_xor : (a : ℕ) → bit_xor 0 a ≡ a
zero-bit_xor a = simp bit_xor-bitwise refl

-- A number is its high bits and its low bits.
pub bit_xor_join : (k q r : ℕ) → r < 2 ^ k → bit_xor (q * 2 ^ k) r ≡ q * 2 ^ k + r
bit_xor_join zero q r h = ground (arith, bit_xor_comm q 0, zero-bit_xor q)
bit_xor_join (suc k) q r h = ground (
  arith,
  bit_xor_digit (q * 2 ^ suc k) r,
  double_field k q,
  pow-suc 2 k,
  bit_xor_join k q (r / 2) (omega (arith, pow-suc 2 k)),
)
