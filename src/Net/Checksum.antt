-- ===== src/Net/Checksum.antt =====
-- `inet_csum` of net/stack.c.
pub mod Laws
use obsidian_kernel.Base.{
  ℕ, zero, suc, ◌+◌, ◌-◌, ◌*◌, ◌/◌, ◌%◌, ◌^◌, ◌==◌, List, [], ◌∷◌, if◌then◌else◌, u16, u32, bit_and,
  bit_or,
}

-- `sum += ((u16)q[i] << 8) | q[i + 1]` over the pairs of a list; a last byte alone is left out.
pub sum_pairs : List ℕ → ℕ → ℕ
sum_pairs [] sum = sum
sum_pairs (a ∷ []) sum = sum
sum_pairs (a ∷ b ∷ q) sum = sum_pairs q (u32 (sum + bit_or (a * 2 ^ 8) b))

-- `if (len & 1) sum += (u16)p[len - 1] << 8`
pub sum_last : List ℕ → ℕ → ℕ
sum_last [] sum = sum
sum_last (a ∷ []) sum = u32 (sum + a * 2 ^ 8)
sum_last (a ∷ b ∷ p) sum = sum_last p sum

-- `while (sum >> 16) sum = (sum & 0xFFFF) + (sum >> 16)`; three rounds are enough for 32 bits.
pub fold_carries : ℕ → ℕ → ℕ
fold_carries zero sum = sum
fold_carries (suc fuel) sum =
    let rest = fold_carries fuel (bit_and sum 0xFFFF + sum / 2 ^ 16) in
    if sum / 2 ^ 16 == 0 then sum else rest

pub inet_csum : List ℕ → List ℕ → ℕ
inet_csum bytes pseudo =
    let sum = fold_carries 3 (sum_last bytes (sum_pairs bytes (sum_pairs pseudo 0))) in
    bit_and (2 ^ 32 - 1 - sum) 0xFFFF
