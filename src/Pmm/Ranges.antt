-- ===== src/Pmm/Ranges.antt =====
-- Reserving and freeing a range of addresses, frame by frame.
use obsidian_kernel.Base.{
  ℕ, zero, suc, ◌+◌, ◌-◌, ◌*◌, ◌/◌, ◌%◌, ◌^◌, ◌<◌, ◌≤◌, ◌==◌, ltb, ◌≡◌, ◌⊎◌, inl, inr, refl, ap,
  subst, ◌∙◌, if◌then◌else◌, length, length-set, Bool-cases, arith, get_or, bit_and, bit_or, min,
}
use native.Mathlib.Nat.{mod-eq_of_lt}
use obsidian_kernel.Pmm.{
  Pmm, bitmap_set, bitmap_clear, bitmap_test, set_frames, clear_frames, clamp, reserve_range,
  free_range, frame_size,
}
use obsidian_kernel.Pmm.Bits.{
  Covers, bitmap_test-bitmap_set_self, bitmap_test-bitmap_set_ne, bitmap_test-bitmap_clear_self,
  bitmap_test-bitmap_clear_ne,
}

module _ (w : ℕ) (pos : 0 < w) where
  -- Every frame from `f` to `f + n - 1` has the bit `v` in `t`, and every other what it has in `s`.
  abbrev pub IsMarked : ℕ → ℕ → ℕ → Pmm → Pmm → Type 0
  IsMarked v f n s t =
      (g : ℕ)
      → (f ≤ g → g < f + n → bitmap_test w g t ≡ v)
        × ((g < f) ⊎ (f + n ≤ g) → bitmap_test w g t ≡ bitmap_test w g s)

  abbrev pub SameLength : Pmm → Pmm → Type 0
  SameLength s t = length t.bitmap ≡ length s.bitmap

  join :
      (v n f : ℕ) (s u t : Pmm)
      → IsMarked v f 1 s u
      → IsMarked v (f + 1) n u t
      → IsMarked v f (suc n) s t
  join v n f s u t m r g = (
    (λ a b. elim (Bool-cases (f == g)) [
      | inl e ↦ (r g).1 (inl (ground arith)) ∙ (m g).0 a (ground arith)
      | inr e ↦ (r g).0 (ground arith) (omega arith)
    ]),
    (λ o. (r g).1 (ground arith) ∙ (m g).1 (ground arith)),
  )

  set_one : (f : ℕ) (s : Pmm) → Covers w pos s f → IsMarked 1 f 1 s (bitmap_set w f s)
  set_one f s h g = (
    (λ a b.
        subst (λ i. bitmap_test w i (bitmap_set w f s) ≡ 1) (omega arith)
          (bitmap_test-bitmap_set_self w pos f s h)),
    (λ o. bitmap_test-bitmap_set_ne w pos f g s h (ground arith)),
  )

  clear_one : (f : ℕ) (s : Pmm) → Covers w pos s f → IsMarked 0 f 1 s (bitmap_clear w f s)
  clear_one f s h g = (
    (λ a b.
        subst (λ i. bitmap_test w i (bitmap_clear w f s) ≡ 0) (omega arith)
          (bitmap_test-bitmap_clear_self w pos f s h)),
    (λ o. bitmap_test-bitmap_clear_ne w pos f g s h (ground arith)),
  )

  pub set_frames-IsMarked :
      (n f : ℕ) (s : Pmm)
      → (n ≡ 0) ⊎ (f + n ≤ length s.bitmap * w)
      → IsMarked 1 f n s (set_frames w n f s) × SameLength s (set_frames w n f s)
  unfolding set_frames
  set_frames-IsMarked zero f s h = ((λ g. ((λ a b. absurd (omega arith)), (λ a. refl))), refl)
  set_frames-IsMarked (suc n) f s h =
      let u = bitmap_set w f s in
      let same : SameLength s u =
        length-set s.bitmap (f / w) (bit_or (get_or s.bitmap (f / w) 0) (2 ^ (f % w))) in
      let (m, l) = set_frames-IsMarked n (f + 1) u (inr (rw same (ground arith))) in
      (join 1 n f s u (set_frames w n (f + 1) u) (set_one f s (ground arith)) m, l ∙ same)

  pub clear_frames-IsMarked :
      (n f : ℕ) (s : Pmm)
      → (n ≡ 0) ⊎ (f + n ≤ length s.bitmap * w)
      → IsMarked 0 f n s (clear_frames w n f s) × SameLength s (clear_frames w n f s)
  unfolding clear_frames
  clear_frames-IsMarked zero f s h = ((λ g. ((λ a b. absurd (omega arith)), (λ a. refl))), refl)
  clear_frames-IsMarked (suc n) f s h =
      let c = bitmap_clear w f s in
      let u = record c { highest_frame = if ltb c.highest_frame f then f else c.highest_frame } in
      let same : SameLength s u =
        length-set s.bitmap (f / w)
          (bit_and (get_or s.bitmap (f / w) 0) (2 ^ w - 1 - 2 ^ (f % w))) in
      let (m, l) = clear_frames-IsMarked n (f + 1) u (inr (rw same (ground arith))) in
      (join 0 n f s u (clear_frames w n (f + 1) u) (clear_one f s (ground arith)) m, l ∙ same)

  module _ (max_frames : ℕ) where
    clamp_lem : (last : ℕ) → clamp w max_frames last ≡ min max_frames last
    unfolding clamp
    clamp_lem last = ground arith

    -- If the end does not wrap and the bitmap has `max_frames` bits, `reserve_range` marks in use
    -- every frame below `max_frames` that shares an address with the range, and no other.
    pub reserve_range-IsMarked :
        (start finish : ℕ) (s : Pmm)
        → finish + 4095 < 2 ^ w
        → max_frames ≡ length s.bitmap * w
        → (g : ℕ) → g < max_frames
        → (start < (g + 1) * 4096
            → g * 4096 < finish
            → bitmap_test w g (reserve_range w max_frames start finish s) ≡ 1)
          × (((g + 1) * 4096 ≤ start) ⊎ (finish ≤ g * 4096)
              → bitmap_test w g (reserve_range w max_frames start finish s) ≡ bitmap_test w g s)
    unfolding reserve_range
    reserve_range-IsMarked start finish s h e g k =
        let first = start / frame_size in
        let last = (finish + frame_size - 1) % 2 ^ w / frame_size in
        let fits : (finish + frame_size - 1) % 2 ^ w ≡ finish + 4095 =
          ap (λ x. x % 2 ^ w) (omega arith) ∙ mod-eq_of_lt h in
        let bound : clamp w max_frames last ≡ min max_frames ((finish + 4095) / 4096) =
          clamp_lem last ∙ ap (λ x. min max_frames (x / 4096)) fits in
        let n = clamp w max_frames last - first in
        let m = (set_frames-IsMarked n first s (ground (arith, bound))).0 g in
        ((λ a b. m.0 (omega arith) (omega (arith, bound))), (λ o. m.1 (ground (arith, bound))))

    -- If the bitmap has `max_frames` bits, `free_range` marks free every frame below `max_frames`
    -- that ends in the range and ends after its start, and no other: a frame that the range only
    -- begins in is freed too.
    pub free_range-IsMarked :
        (start finish : ℕ) (s : Pmm)
        → max_frames ≡ length s.bitmap * w
        → (g : ℕ) → g < max_frames
        → (start < (g + 1) * 4096
            → (g + 1) * 4096 ≤ finish
            → bitmap_test w g (free_range w max_frames start finish s) ≡ 0)
          × (((g + 1) * 4096 ≤ start) ⊎ (finish < (g + 1) * 4096)
              → bitmap_test w g (free_range w max_frames start finish s) ≡ bitmap_test w g s)
    unfolding free_range
    free_range-IsMarked start finish s e g k =
        let first = start / frame_size in
        let bound = clamp_lem (finish / frame_size) in
        let n = clamp w max_frames (finish / frame_size) - first in
        let m = (clear_frames-IsMarked n first s (ground (arith, bound))).0 g in
        ((λ a b. m.0 (omega arith) (omega (arith, bound))), (λ o. m.1 (ground (arith, bound))))
