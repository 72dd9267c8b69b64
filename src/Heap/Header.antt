-- ===== src/Heap/Header.antt =====
-- The fields of headers at addresses: what is read after a write.
use obsidian_kernel.Base.{
  ℕ, ◌+◌, ◌*◌, ◌/◌, ◌%◌, ◌^◌, ◌<◌, ◌≡◌, ◌==◌, if◌then◌else◌, arith, u32, bit_and_digit,
  bit_and_mask, inl, inr, Bool-cases,
}
use obsidian_kernel.Memory.{Memory, load32, store32}
use obsidian_kernel.Memory.Access.{load32-store32_self, load32-store32_ne}
use obsidian_kernel.Heap.{align_up}

-- Aligned words are the same word, or do not overlap.
pub load32-store32 :
    (m : Memory) (a b v : ℕ)
    → a % 4 ≡ 0
    → b % 4 ≡ 0
    → v < 2 ^ 32
    → load32 (store32 m a v) b ≡ (if a == b then v else load32 m b)
load32-store32 m a b v ha hb hv = elim (Bool-cases (a == b)) [
  | inl same ↦ ground (arith, load32-store32_self m a v)
  | inr differ ↦ rw differ (load32-store32_ne m a b v (ground arith))
]

-- `align_up` rounds up to a multiple of 16, modulo 2^32.
pub align_up_lem : (v : ℕ) → align_up v ≡ u32 (v + 15) / 16 * 16
unfolding align_up
align_up_lem v =
    let w = u32 (v + 15) in
    omega (
      arith,
      bit_and_digit w 0xFFFFFFF0,
      bit_and_digit (w / 2) 0x7FFFFFF8,
      bit_and_digit (w / 2 / 2) 0x3FFFFFFC,
      bit_and_digit (w / 2 / 2 / 2) 0x1FFFFFFE,
      bit_and_mask 28 (w / 2 / 2 / 2 / 2),
    )
