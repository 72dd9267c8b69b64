-- ===== src/Base/Bits.antt =====
-- Laws of `|`, `&` and `^` at variables: one equation for the lowest digit, then fields and masks.
use Prim.Native.Nat.{
  ℕ, zero, suc, ◌+◌, ◌*◌, ◌-◌, ◌/◌, ◌%◌, ◌^◌, ◌≤◌, ◌<◌, min, max, bit_and, bit_or, digits, bitwise,
  bit_and-bitwise, bit_or-bitwise,
}
use mathlib.Core.Path.{◌≡◌, refl, ap}
use native.Mathlib.Nat.{pow-suc, one-le-pow}
use native.Mathlib.Omega.{arith}

module _ (z : ℕ → ℕ) (f : ℕ → ℕ → ℕ) where
  -- Any fuel from `a` on gives the same digits.
  digits-fuel : (k n a b : ℕ) → a ≤ k → a ≤ n → digits z f k a b ≡ digits z f n a b
  digits-fuel zero zero a b h h' = refl
  digits-fuel zero (suc n) zero b h h' = refl
  digits-fuel zero (suc n) (suc a) b h h' = absurd (omega arith)
  digits-fuel (suc k) zero zero b h h' = refl
  digits-fuel (suc k) zero (suc a) b h h' = absurd (omega arith)
  digits-fuel (suc k) (suc n) zero b h h' = refl
  digits-fuel (suc k) (suc n) (suc a) b h h' =
      rw (digits-fuel k n (suc a / 2) (b / 2) (omega arith) (omega arith))

  pub bitwise_digit :
      (a b : ℕ)
      → bitwise z f (suc a) b ≡ bitwise z f (suc a / 2) (b / 2) * 2 + f (suc a % 2) (b % 2)
  bitwise_digit a b =
      omega (arith, digits-fuel a (suc a / 2) (suc a / 2) (b / 2) (omega arith) (omega arith))

pub bit_or_digit : (a b : ℕ) → bit_or a b ≡ bit_or (a / 2) (b / 2) * 2 + max (a % 2) (b % 2)
bit_or_digit zero b = simp bit_or-bitwise (omega arith)
bit_or_digit (suc a) b = simp bit_or-bitwise (bitwise_digit (λ y. y) max a b)

pub bit_and_digit : (a b : ℕ) → bit_and a b ≡ bit_and (a / 2) (b / 2) * 2 + min (a % 2) (b % 2)
bit_and_digit zero b = simp bit_and-bitwise (omega arith)
bit_and_digit (suc a) b = simp bit_and-bitwise (bitwise_digit (λ y. 0) min a b)

-- `|` and `&` with no bits set, by the digits of `a`.
zero_laws : (k a : ℕ) → a ≤ k → (bit_or a 0 ≡ a) × (bit_and a 0 ≡ 0)
zero_laws zero zero h = (refl, refl)
zero_laws zero (suc a) h = absurd (omega arith)
zero_laws (suc k) zero h = (refl, refl)
zero_laws (suc k) (suc a) h =
    let half = zero_laws k (suc a / 2) (omega arith) in
    (omega (arith, bit_or_digit (suc a) 0, half), omega (arith, bit_and_digit (suc a) 0, half))

pub bit_or-zero : (a : ℕ) → bit_or a 0 ≡ a
bit_or-zero a = (zero_laws a a (omega arith)).0

pub bit_and-zero : (a : ℕ) → bit_and a 0 ≡ 0
bit_and-zero a = (zero_laws a a (omega arith)).1

pub double_field : (k q : ℕ) → q * 2 ^ suc k ≡ 2 * (q * 2 ^ k)
double_field k q = omega (arith, ap (λ (t : ℕ). q * t) (pow-suc 2 k))

-- `(q << k) | r` is a sum when `r` fits `k` bits.
pub bit_or_join : (k q r : ℕ) → r < 2 ^ k → bit_or (q * 2 ^ k) r ≡ q * 2 ^ k + r
bit_or_join zero q r h = ground (arith, bit_or-zero q)
bit_or_join (suc k) q r h = ground (
  arith,
  bit_or_digit (q * 2 ^ suc k) r,
  double_field k q,
  pow-suc 2 k,
  bit_or_join k q (r / 2) (omega (arith, pow-suc 2 k)),
)

mask_field : (k q r : ℕ) → r < 2 ^ k → bit_and (q * 2 ^ k + r) (2 ^ k - 1) ≡ r
mask_field zero q r h = rw bit_and-zero (omega arith)
mask_field (suc k) q r h = ground (
  arith,
  bit_and_digit (q * 2 ^ suc k + r) (2 ^ suc k - 1),
  double_field k q,
  pow-suc 2 k,
  mask_field k q (r / 2) (omega (arith, pow-suc 2 k)),
)

-- A mask of the `k` low bits is the remainder by `2 ^ k`.
pub bit_and_mask : (k a : ℕ) → bit_and a (2 ^ k - 1) ≡ a % 2 ^ k
bit_and_mask k a = ground (arith, one-le-pow k 2, mask_field k (a / 2 ^ k) (a % 2 ^ k))

comm_fuel : (k a b : ℕ) → a ≤ k → b ≤ k → bit_or a b ≡ bit_or b a
comm_fuel zero a b h h' = rw (le_zero a h, le_zero b h')
  where
    le_zero : (n : ℕ) → n ≤ 0 → n ≡ 0
    le_zero n p = omega arith
comm_fuel (suc k) a b h h' = omega (
  arith,
  bit_or_digit a b,
  bit_or_digit b a,
  comm_fuel k (a / 2) (b / 2) (omega arith) (omega arith),
)

pub bit_or_comm : (a b : ℕ) → bit_or a b ≡ bit_or b a
bit_or_comm a b = comm_fuel (max a b) a b (omega arith) (omega arith)
