-- ===== src/Pmm/Alloc.antt =====
-- Allocating and freeing single frames.
use obsidian_kernel.Base.{
  ℕ, zero, suc, ◌+◌, ◌*◌, ◌/◌, ◌%◌, ◌^◌, ◌<◌, ◌≤◌, ◌==◌, ◌≡◌, ◌≢◌, ◌⊎◌, inl, inr, refl, ap, sym,
  subst, ==_iff, ◌∙◌, if◌then◌else◌, length, Bool-cases, arith, get_or, bit_le, bit_div, bit_or,
  length-set,
}
use native.Mathlib.Nat.{mod-eq_of_lt}
use obsidian_kernel.Pmm.{
  Pmm, bitmap_set, bitmap_test, alloc_loop, pmm_alloc_frame, pmm_free_frame, frame_size,
}
use obsidian_kernel.Pmm.Bits.{
  Covers, bitmap_test-bitmap_set_self, bitmap_test-bitmap_set_ne, bitmap_test-bitmap_clear_self,
  bitmap_test-bitmap_clear_ne,
}

module _ {ℓ} {A : Type ℓ} where
  if_true : (c : ℕ) (x y : A) → c ≡ 0 → (if c == 0 then x else y) ≡ x
  if_true c x y e = ap (λ i. if i == 0 then x else y) e

  if_false : (c : ℕ) (x y : A) → c ≡ 1 → (if c == 0 then x else y) ≡ y
  if_false c x y e = ap (λ i. if i == 0 then x else y) e

module _ (w : ℕ) (pos : 0 < w) where
  abbrev pub IsFree : Pmm → ℕ → Type 0
  IsFree s f = bitmap_test w f s ≡ 0

  abbrev pub IsUsed : Pmm → ℕ → Type 0
  IsUsed s f = bitmap_test w f s ≡ 1

  pub zero_or_one : (s : Pmm) (f : ℕ) → IsFree s f ⊎ IsUsed s f
  zero_or_one s f =
      let x = get_or s.bitmap (f / w) 0 in ground (arith, bit_div (f % w) x, bit_le (f % w) x)

  -- Every frame from `a` to `b - 1` is in use.
  abbrev pub AllUsed : ℕ → ℕ → Pmm → Type 0
  AllUsed a b s = (g : ℕ) → a ≤ g → g < b → IsUsed s g

  -- The state with one frame of `s` taken: its bit is set, and no other changes, nor the size of the
  -- bitmap.
  abbrev pub IsTaken : ℕ → Pmm → Pmm → Type 0
  IsTaken f s t =
      IsUsed t f
      × ((g : ℕ) → g ≢ f → bitmap_test w g t ≡ bitmap_test w g s)
      × (length t.bitmap ≡ length s.bitmap)

  -- What an allocation from the frames of `a` to `b - 1` does: none is free, and the result is 0 and
  -- the state unchanged; or the result is the address of the first free one, and that one is taken.
  abbrev pub IsAllocated : ℕ → ℕ → Pmm → ℕ × Pmm → Type 0
  IsAllocated a b s r =
      (AllUsed a b s × (r ≡ (0, s)))
      ⊎ ((f : ℕ) × (a ≤ f)
          × (f < b)
          × IsFree s f
          × AllUsed a f s
          × (r.0 ≡ f * 4096)
          × IsTaken f s r.1)

  at_head : (f : ℕ) (s : Pmm) (g : ℕ) → IsUsed s f → f ≤ g → (f + 1 ≤ g → IsUsed s g) → IsUsed s g
  at_head f s g u a later = elim (Bool-cases (f == g)) [
    | inl e ↦ subst (IsUsed s) ((==_iff f g).0 e) u
    | inr e ↦ later (ground arith)
  ]

  IsTaken-bitmap_set : (f : ℕ) (s : Pmm) → Covers w pos s f → IsTaken f s (bitmap_set w f s)
  IsTaken-bitmap_set f s h = (
    bitmap_test-bitmap_set_self w pos f s h,
    (λ g n. bitmap_test-bitmap_set_ne w pos f g s h (λ e. n (sym e))),
    length-set s.bitmap (f / w) (bit_or (get_or s.bitmap (f / w) 0) (2 ^ (f % w))),
  )

  alloc_free :
      (n f : ℕ) (s : Pmm)
      → f * 4096 < 2 ^ w
      → IsFree s f
      → alloc_loop w (suc n) f s ≡ (f * 4096, bitmap_set w f s)
  unfolding alloc_loop
  alloc_free n f s k e =
      if_true (bitmap_test w f s) (f * frame_size % 2 ^ w, bitmap_set w f s)
        (alloc_loop w n (f + 1) s) e
      ∙ ap (λ x. (x, bitmap_set w f s)) (mod-eq_of_lt k)

  alloc_used :
      (n f : ℕ) (s : Pmm) → IsUsed s f → alloc_loop w (suc n) f s ≡ alloc_loop w n (f + 1) s
  unfolding alloc_loop
  alloc_used n f s e =
      if_false (bitmap_test w f s) (f * frame_size % 2 ^ w, bitmap_set w f s)
        (alloc_loop w n (f + 1) s) e

  -- A frame in use comes before the frames that a search goes on with.
  used_before :
      (n f : ℕ) (s : Pmm) (r : ℕ × Pmm)
      → IsUsed s f
      → IsAllocated (f + 1) (f + 1 + n) s r
      → IsAllocated f (f + suc n) s r
  used_before n f s r u (inl (all, e)) =
      inl ((λ g a b. at_head f s g u a (λ p. all g p (omega arith))), e)
  used_before n f s r u (inr (g, a, b, e, all, found, rest)) =
      inr
        (g, omega arith, omega arith, e, (λ j p q. at_head f s j u p (λ o. all j o q)), found, rest)

  alloc_loop-IsAllocated :
      (n f : ℕ) (s : Pmm)
      → f + n ≤ length s.bitmap * w
      → (f + n) * 4096 ≤ 2 ^ w
      → IsAllocated f (f + n) s (alloc_loop w n f s)
  unfolding alloc_loop
  alloc_loop-IsAllocated zero f s h k = inl ((λ g a b. absurd (omega arith)), refl)
  alloc_loop-IsAllocated (suc n) f s h k = elim (zero_or_one s f) [
    | inl e ↦ subst (IsAllocated f (f + suc n) s) (sym (alloc_free n f s (omega arith) e)) (
        inr (
          f,
          omega arith,
          omega arith,
          e,
          (λ g a b. absurd (omega arith)),
          refl,
          IsTaken-bitmap_set f s (omega arith),
        ))
    | inr e ↦ subst (IsAllocated f (f + suc n) s) (sym (alloc_used n f s e)) (
        used_before n f s (alloc_loop w n (f + 1) s) e
          (alloc_loop-IsAllocated n (f + 1) s (omega arith) (omega arith)))
  ]

  -- The bitmap covers every frame up to the highest, and their addresses fit an address word.
  abbrev pub IsPmm : Pmm → Type 0
  IsPmm s = (s.highest_frame < length s.bitmap * w) × ((s.highest_frame + 1) * 4096 ≤ 2 ^ w)

  -- If the bitmap covers the frames up to the highest, `pmm_alloc_frame` returns the address of the
  -- first free frame up to it and marks that one in use, and no other; if there is none it returns 0
  -- and changes nothing.
  pub pmm_alloc_frame-IsAllocated :
      (s : Pmm) → IsPmm s → IsAllocated 0 (s.highest_frame + 1) s (pmm_alloc_frame w s)
  unfolding pmm_alloc_frame
  pmm_alloc_frame-IsAllocated s i =
      subst (λ n. IsAllocated 0 n s (alloc_loop w (s.highest_frame + 1) 0 s)) (omega arith)
        (alloc_loop-IsAllocated (s.highest_frame + 1) 0 s (omega arith) (omega arith))

  -- A frame in use that the bitmap covers is free after `pmm_free_frame` of an address inside it,
  -- and no other frame's bit changes.
  pub pmm_free_frame-IsFree :
      (a : ℕ) (s : Pmm)
      → Covers w pos s (a / 4096)
      → IsFree (pmm_free_frame w a s) (a / 4096)
        × ((g : ℕ) → g ≢ a / 4096 → bitmap_test w g (pmm_free_frame w a s) ≡ bitmap_test w g s)
  unfolding pmm_free_frame
  pmm_free_frame-IsFree a s h = (
    bitmap_test-bitmap_clear_self w pos (a / 4096) s h,
    (λ g n. bitmap_test-bitmap_clear_ne w pos (a / 4096) g s h (λ e. n (sym e))),
  )

  taken_back :
      (s : Pmm) (r : ℕ × Pmm) (g : ℕ)
      → IsPmm s
      → (f : ℕ) → f ≤ s.highest_frame
      → IsFree s f
      → IsAllocated 0 (s.highest_frame + 1) s r
      → bitmap_test w g (pmm_free_frame w r.0 r.1) ≡ bitmap_test w g s
  taken_back s r g i f b e (inl (all, q)) =
      absurd (omega (arith, all f (omega arith) (omega arith)))
  taken_back s r g i f b e (inr (j, a, c, free, all, found, (used, other, same))) =
      let at_j : r.0 / 4096 ≡ j = omega (arith, found) in
      let t = pmm_free_frame-IsFree r.0 r.1 (rw same (omega arith)) in
      elim (Bool-cases (g == j)) [
        | inl p ↦
            (let q = (==_iff g j).0 p in
              subst (λ x. bitmap_test w x (pmm_free_frame w r.0 r.1) ≡ bitmap_test w x s)
                (at_j ∙ sym q) (t.0 ∙ sym (subst (IsFree s) (sym at_j) free)))
        | inr p ↦ t.1 g (ground arith) ∙ other g (ground arith)
      ]

  -- If a frame up to the highest is free, freeing what `pmm_alloc_frame` returns gives every frame's
  -- bit back.
  pub pmm_free_frame-pmm_alloc_frame :
      (s : Pmm) (f : ℕ)
      → IsPmm s
      → f ≤ s.highest_frame
      → IsFree s f
      → (g : ℕ)
      → bitmap_test w g (pmm_free_frame w (pmm_alloc_frame w s).0 (pmm_alloc_frame w s).1)
        ≡ bitmap_test w g s
  pmm_free_frame-pmm_alloc_frame s f i b e g =
      taken_back s (pmm_alloc_frame w s) g i f b e (pmm_alloc_frame-IsAllocated s i)
