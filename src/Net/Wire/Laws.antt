-- ===== src/Net/Wire/Laws.antt =====
-- The changes of byte order turn the bytes of a number round.
use obsidian_kernel.Base.{
  ℕ, zero, suc, ◌+◌, ◌*◌, ◌/◌, ◌%◌, ◌^◌, ◌<◌, [], ◌∷◌, ◌≡◌, refl, ap, ◌∙◌, u8, u32, bit_and, bit_or,
  bit_or_join, bit_or_comm, bit_and_mask, bit_and_digit, arith,
}
use native.Mathlib.Nat.{pow-suc, div-div-eq-div-mul}
use obsidian_kernel.Net.Wire.{le16, le32, swap_type, swap16, swap32}

pub swap16_lem : (x : ℕ) → x < 2 ^ 16 → swap16 x ≡ x % 256 * 256 + x / 256
unfolding swap16
swap16_lem x h =
    let low : bit_and x 0xFF ≡ x % 256 = bit_and_mask 8 x in
    rw low (omega (arith, bit_or_join 8 (x % 256) (x / 256) (omega arith)))

pub swap_type_lem : (x : ℕ) → x < 2 ^ 16 → swap_type x ≡ x % 256 * 256 + x / 256
unfolding swap_type
swap_type_lem x h =
    rw (bit_or_comm (x / 2 ^ 8) (x * 2 ^ 8))
      (omega (arith, bit_or_join 8 x (x / 256) (omega arith)))

mask_even : (x m : ℕ) → bit_and x (m * 2) ≡ bit_and (x / 2) m * 2
mask_even x m =
    bit_and_digit x (m * 2) ∙ (let halved : m * 2 / 2 ≡ m = omega arith in rw halved (omega arith))

-- A mask moved up by `k` bits.
mask_field : (k x m : ℕ) → bit_and x (m * 2 ^ k) ≡ bit_and (x / 2 ^ k) m * 2 ^ k
mask_field zero x m = ground arith
mask_field (suc k) x m =
    let moved : m * 2 ^ suc k ≡ m * 2 ^ k * 2 =
      omega (arith, ap (λ (t : ℕ). m * t) (pow-suc 2 k)) in
    let power : 2 * 2 ^ k ≡ 2 ^ suc k = omega (arith, pow-suc 2 k) in
    let shift = div-div-eq-div-mul x 2 (2 ^ k) ∙ ap (λ t. x / t) power in
    ap (bit_and x) moved
    ∙ mask_even x (m * 2 ^ k)
    ∙ ap (λ t. t * 2) (mask_field k (x / 2) m)
    ∙ ap (λ t. bit_and t m * 2 ^ k * 2) shift
    ∙ omega (arith, ap (λ (t : ℕ). bit_and (x / 2 ^ suc k) m * t) (pow-suc 2 k))

-- `& 0xFF00` keeps the second byte.
second_byte : (x : ℕ) → bit_and x 0xFF00 ≡ x / 256 % 256 * 256
second_byte x = mask_field 8 x 255 ∙ ap (λ t. t * 256) (bit_and_mask 8 (x / 256))

pub swap32_lem :
    (x : ℕ)
    → x < 2 ^ 32
    → swap32 x ≡ x % 256 * 2 ^ 24 + x / 256 % 256 * 2 ^ 16 + x / 2 ^ 16 % 256 * 2 ^ 8 + x / 2 ^ 24
unfolding swap32
swap32_lem x h =
    let a = x % 256 in
    let b = x / 256 % 256 in
    let c = x / 2 ^ 16 % 256 in
    let d = x / 2 ^ 24 in
    let low : bit_and x 0xFF ≡ a = bit_and_mask 8 x in
    let last : bit_and (x / 2 ^ 24) 0xFF ≡ d = bit_and_mask 8 (x / 2 ^ 24) ∙ omega arith in
    let second : u32 (bit_and x 0xFF00 * 2 ^ 8) ≡ b * 2 ^ 16 = omega (arith, second_byte x) in
    let first : u32 (bit_and x 0xFF * 2 ^ 24) ≡ a * 2 ^ 24 = omega (arith, low) in
    let third : bit_and (x / 2 ^ 8) 0xFF00 ≡ c * 2 ^ 8 = omega (arith, second_byte (x / 2 ^ 8)) in
    let j1 : bit_or (a * 2 ^ 24) (b * 2 ^ 16) ≡ (a * 256 + b) * 2 ^ 16 =
      omega (arith, bit_or_join 24 a (b * 2 ^ 16) (omega arith)) in
    let j2 : bit_or ((a * 256 + b) * 2 ^ 16) (c * 2 ^ 8) ≡ ((a * 256 + b) * 256 + c) * 2 ^ 8 =
      omega (arith, bit_or_join 16 (a * 256 + b) (c * 2 ^ 8) (omega arith)) in
    rw (first, second, third, last, j1, j2)
      (omega (arith, bit_or_join 8 ((a * 256 + b) * 256 + c) d (omega arith)))

-- The bytes of the swapped number are those of the number, in the opposite order.
pub le16-swap16 : (x : ℕ) → x < 2 ^ 16 → le16 (swap16 x) ≡ u8 (x / 2 ^ 8) ∷ u8 x ∷ []
le16-swap16 x h =
    let low : u8 (swap16 x) ≡ u8 (x / 2 ^ 8) = omega (arith, swap16_lem x h) in
    let high : u8 (swap16 x / 2 ^ 8) ≡ u8 x = omega (arith, swap16_lem x h) in rw (low, high) refl

pub le32-swap32 :
    (x : ℕ)
    → x < 2 ^ 32
    → le32 (swap32 x) ≡ u8 (x / 2 ^ 24) ∷ u8 (x / 2 ^ 16) ∷ u8 (x / 2 ^ 8) ∷ u8 x ∷ []
le32-swap32 x h =
    let y = swap32_lem x h in
    let a : u8 (swap32 x) ≡ u8 (x / 2 ^ 24) = omega (arith, y) in
    let b : u8 (swap32 x / 2 ^ 8) ≡ u8 (x / 2 ^ 16) = omega (arith, y) in
    let c : u8 (swap32 x / 2 ^ 16) ≡ u8 (x / 2 ^ 8) = omega (arith, y) in
    let d : u8 (swap32 x / 2 ^ 24) ≡ u8 x = omega (arith, y) in rw (a, b, c, d) refl
