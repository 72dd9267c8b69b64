-- ===== src/Net/Checksum/Laws.antt =====
-- The Internet checksum: together with it the words add up to a multiple of 65535.
use obsidian_kernel.Base.{
  ℕ, zero, suc, ◌+◌, ◌-◌, ◌*◌, ◌/◌, ◌%◌, ◌^◌, ◌≤◌, ◌<◌, ◌==◌, List, [], ◌∷◌, if◌then◌else◌, ◌≡◌,
  refl, u32, length, bit_or, bit_or_join, bit_and_mask, arith, AreBytes,
}
use obsidian_kernel.Net.Checksum.{sum_pairs, sum_last, fold_carries, inet_csum}

-- The sum of the big-endian 16-bit words, a last byte alone being the high byte of a word.
unfoldable pub words_sum : List ℕ → ℕ
words_sum [] = 0
words_sum (a ∷ []) = a * 256
words_sum (a ∷ b ∷ p) = a * 256 + b + words_sum p

pub sum_pairs-even :
    (p : List ℕ) (acc : ℕ)
    → AreBytes p
    → length p % 2 ≡ 0
    → acc + words_sum p < 2 ^ 32
    → sum_pairs p acc ≡ acc + words_sum p
unfolding sum_pairs words_sum
sum_pairs-even [] acc b e h = omega arith
sum_pairs-even (x ∷ []) acc b e h = absurd (omega (arith, e))
sum_pairs-even (x ∷ y ∷ p) acc b e h =
    let pair : u32 (acc + bit_or (x * 256) y) ≡ acc + (x * 256 + y) =
      omega (arith, bit_or_join 8 x y b.1.0) in
    rw pair
      (omega (arith, sum_pairs-even p (acc + (x * 256 + y)) b.1.1 (omega (arith, e)) (omega arith)))

-- The pairs, and then a last byte alone.
pub sum_last-sum_pairs :
    (p : List ℕ) (acc : ℕ)
    → AreBytes p
    → acc + words_sum p < 2 ^ 32
    → sum_last p (sum_pairs p acc) ≡ acc + words_sum p
unfolding sum_pairs sum_last words_sum
sum_last-sum_pairs [] acc b h = omega arith
sum_last-sum_pairs (x ∷ []) acc b h = omega arith
sum_last-sum_pairs (x ∷ y ∷ p) acc b h =
    let pair : u32 (acc + bit_or (x * 256) y) ≡ acc + (x * 256 + y) =
      omega (arith, bit_or_join 8 x y b.1.0) in
    rw pair (omega (arith, sum_last-sum_pairs p (acc + (x * 256 + y)) b.1.1 (omega arith)))

fold_small : (k s : ℕ) → s < 2 ^ 16 → fold_carries k s ≡ s
unfolding fold_carries
fold_small zero s h = refl
fold_small (suc k) s h = ground arith

fold_round :
    (k s : ℕ)
    → fold_carries (suc k) s
      ≡ (if s / 2 ^ 16 == 0 then s else fold_carries k (s % 2 ^ 16 + s / 2 ^ 16))
unfolding fold_carries
fold_round k s = rw (bit_and_mask 16 s) refl

-- A round keeps the remainder by 65535.
fold_twice :
    (s : ℕ) → s < 131071 → (fold_carries 2 s < 2 ^ 16) × (fold_carries 2 s % 65535 ≡ s % 65535)
fold_twice s h = rw (fold_round 1 s) (ground (arith, fold_small 1 (s % 2 ^ 16 + s / 2 ^ 16)))

-- Three rounds leave 16 bits, and the same remainder by 65535.
pub fold_carries_lem :
    (s : ℕ) → s < 2 ^ 32 → (fold_carries 3 s < 2 ^ 16) × (fold_carries 3 s % 65535 ≡ s % 65535)
fold_carries_lem s h = rw (fold_round 2 s) (ground (arith, fold_twice (s % 2 ^ 16 + s / 2 ^ 16)))

-- The words of 65535 bytes at most add up to less than 2^31.
pub words_sum_bound : (p : List ℕ) → AreBytes p → words_sum p ≤ length p * 65280
unfolding words_sum
words_sum_bound [] b = omega arith
words_sum_bound (x ∷ []) b = omega arith
words_sum_bound (x ∷ y ∷ p) b = omega (arith, words_sum_bound p b.1.1)

-- For bytes and a pseudo header of an even number of bytes, both below 2^15 in number, the words and
-- the checksum of `inet_csum` add up to a multiple of 65535, and the checksum has 16 bits.
pub inet_csum-words_sum :
    (p q : List ℕ)
    → AreBytes p
    → AreBytes q
    → length q % 2 ≡ 0
    → length p < 2 ^ 15
    → length q < 2 ^ 15
    → ((words_sum p + words_sum q + inet_csum p q) % 65535 ≡ 0) × (inet_csum p q < 2 ^ 16)
unfolding inet_csum
inet_csum-words_sum p q b c e h k =
    let total = words_sum p + words_sum q in
    let small : total < 2 ^ 32 = omega (arith, words_sum_bound p b, words_sum_bound q c) in
    let pseudo = sum_pairs-even q 0 c e (omega arith) in
    let whole = sum_last-sum_pairs p (0 + words_sum q) b (omega arith) in
    let folded = fold_carries_lem (0 + words_sum q + words_sum p) (omega arith) in
    let r = fold_carries 3 (0 + words_sum q + words_sum p) in
    rw (pseudo, whole) (omega (arith, folded, bit_and_mask 16 (2 ^ 32 - 1 - r)))
