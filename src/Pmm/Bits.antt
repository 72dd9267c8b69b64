-- ===== src/Pmm/Bits.antt =====
-- The bitmap as a set of frames: what setting and clearing a bit does to every frame's bit.
use obsidian_kernel.Base.{
  ℕ, ◌+◌, ◌-◌, ◌*◌, ◌/◌, ◌%◌, ◌^◌, ◌<◌, ◌==◌, ◌≡◌, ◌≢◌, ◌∙◌, ap, ap₂, sym, Bool-cases, ==_iff, inl,
  inr, length, get_or, set, get_or-set_self, get_or-set_ne, bit_and, bit_or, bit, bit_div, bit_le,
  bit-bit_or, bit-bit_and, bit_pow_self, bit_pow_ne, bit_hole_self, bit_hole_ne, arith,
}
use native.Mathlib.Nat.{div-lt_iff_lt-mul, mod-lt, div-add-mod}
use obsidian_kernel.Pmm.{Pmm, bitmap_set, bitmap_clear, bitmap_test}

module _ (w : ℕ) (pos : 0 < w) where
  -- The bitmap has a bit for the frame.
  abbrev pub Covers : Pmm → ℕ → Type 0
  Covers s f = f < length s.bitmap * w

  word_in : (s : Pmm) (f : ℕ) → Covers s f → f / w < length s.bitmap
  word_in s f h = (div-lt_iff_lt-mul pos).1 h

  -- Frames that share a word have different bits.
  place_ne : (f g : ℕ) → f ≢ g → f / w ≡ g / w → f % w ≢ g % w
  place_ne f g h e k = h (sym (div-add-mod f w) ∙ ap₂ (λ q r. w * q + r) e k ∙ div-add-mod g w)

  -- The bit of frame `g` after the word of frame `f` is overwritten by `v`.
  test_set_self :
      (f v : ℕ) (s : Pmm)
      → Covers s f
      → bitmap_test w f (record s { bitmap = set s.bitmap (f / w) v }) ≡ bit v (f % w)
  test_set_self f v s h =
      bit_div (f % w) (get_or (set s.bitmap (f / w) v) (f / w) 0)
      ∙ ap (λ x. bit x (f % w)) (get_or-set_self s.bitmap (f / w) v 0 (word_in s f h))

  test_set_ne :
      (f g v : ℕ) (s : Pmm)
      → Covers s f
      → (f / w ≡ g / w → bit v (g % w) ≡ bit (get_or s.bitmap (f / w) 0) (g % w))
      → bitmap_test w g (record s { bitmap = set s.bitmap (f / w) v }) ≡ bitmap_test w g s
  test_set_ne f g v s h e = elim (Bool-cases (f / w == g / w)) [
    | inl b ↦
        (let p = (==_iff (f / w) (g / w)).0 b in
          bit_div (g % w) (get_or (set s.bitmap (f / w) v) (g / w) 0)
          ∙ ap (λ x. bit x (g % w))
              (ap (λ i. get_or (set s.bitmap (f / w) v) i 0) (sym p)
                ∙ get_or-set_self s.bitmap (f / w) v 0 (word_in s f h))
          ∙ e p
          ∙ ap (λ i. bit (get_or s.bitmap i 0) (g % w)) p
          ∙ sym (bit_div (g % w) (get_or s.bitmap (g / w) 0)))
    | inr b ↦
        ap (λ x. bit_and (x / 2 ^ (g % w)) 1)
          (get_or-set_ne s.bitmap (f / w) (g / w) v 0 (ground arith))
  ]

  pub bitmap_test-bitmap_set_self :
      (f : ℕ) (s : Pmm) → Covers s f → bitmap_test w f (bitmap_set w f s) ≡ 1
  bitmap_test-bitmap_set_self f s h =
      let x = get_or s.bitmap (f / w) 0 in
      omega (
        arith,
        test_set_self f (bit_or x (2 ^ (f % w))) s h,
        bit-bit_or (f % w) x (2 ^ (f % w)),
        bit_pow_self (f % w),
        bit_le (f % w) x,
      )

  pub bitmap_test-bitmap_set_ne :
      (f g : ℕ) (s : Pmm)
      → Covers s f
      → f ≢ g
      → bitmap_test w g (bitmap_set w f s) ≡ bitmap_test w g s
  bitmap_test-bitmap_set_ne f g s h n =
      let x = get_or s.bitmap (f / w) 0 in
      test_set_ne f g (bit_or x (2 ^ (f % w))) s h (λ e.
        omega (
          arith,
          bit-bit_or (g % w) x (2 ^ (f % w)),
          bit_pow_ne (f % w) (g % w) (place_ne f g n e),
        ))

  pub bitmap_test-bitmap_clear_self :
      (f : ℕ) (s : Pmm) → Covers s f → bitmap_test w f (bitmap_clear w f s) ≡ 0
  bitmap_test-bitmap_clear_self f s h =
      let x = get_or s.bitmap (f / w) 0 in
      omega (
        arith,
        test_set_self f (bit_and x (2 ^ w - 1 - 2 ^ (f % w))) s h,
        bit-bit_and (f % w) x (2 ^ w - 1 - 2 ^ (f % w)),
        bit_hole_self w (f % w) (mod-lt f pos),
      )

  pub bitmap_test-bitmap_clear_ne :
      (f g : ℕ) (s : Pmm)
      → Covers s f
      → f ≢ g
      → bitmap_test w g (bitmap_clear w f s) ≡ bitmap_test w g s
  bitmap_test-bitmap_clear_ne f g s h n =
      let x = get_or s.bitmap (f / w) 0 in
      test_set_ne f g (bit_and x (2 ^ w - 1 - 2 ^ (f % w))) s h (λ e. omega (
        arith,
        bit-bit_and (g % w) x (2 ^ w - 1 - 2 ^ (f % w)),
        bit_hole_ne w (f % w) (g % w) (mod-lt f pos) (mod-lt g pos) (place_ne f g n e),
        bit_le (g % w) x,
      ))
