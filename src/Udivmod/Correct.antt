-- ===== src/Udivmod/Correct.antt =====
-- The division loop computes quotient and remainder.
use native.Mathlib.Nat.{pow-suc, div-div-eq-div-mul, div-le_self, one-le-pow}
use obsidian_kernel.Base.{
  ℕ, zero, suc, ◌+◌, ◌*◌, ◌/◌, ◌%◌, ◌^◌, ◌<◌, ◌≡◌, arith, leb, if◌then◌else◌, u64, bit_or,
  bit_or_join, Bool-cases, inl, inr, ap, ne→==, sym, ◌∙◌,
}
use obsidian_kernel.Udivmod.{DivMod, div_mod, udivmod_round, udivmod_loop, udivmoddi4}

-- With the bits from `n` on processed, `q` is the quotient of the part of `num` above them.
record IsPartial (num den n q : ℕ) (s : DivMod) : Type 0 where
  shifted : s.quot ≡ q * 2 ^ n
  divides : num / 2 ^ n ≡ q * den + s.rem
  reduced : s.rem < den

div-pow-suc : (num i : ℕ) → num / 2 ^ suc i ≡ num / 2 ^ i / 2
div-pow-suc num i =
    sym (div-div-eq-div-mul num (2 ^ i) 2 ∙ ap (λ (t : ℕ). num / t) (sym (pow-suc 2 i)))

module _ (num den : ℕ) (fits : num < 2 ^ 64) where
  -- The shift in `rem << 1` loses no bit: the remainder is at most the bits read so far.
  next_rem :
      (i q : ℕ) (s : DivMod)
      → IsPartial num den (suc i) q s
      → bit_or (u64 (s.rem * 2)) (num / 2 ^ i % 2) ≡ s.rem * 2 + num / 2 ^ i % 2
  next_rem i q s v =
      let small : s.rem * 2 < 2 ^ 64 =
        omega (arith, div-pow-suc num i, div-le_self num (2 ^ i), v.divides) in
      let whole : u64 (s.rem * 2) ≡ s.rem * 2 ^ 1 = omega arith in
      rw whole (bit_or_join 1 s.rem (num / 2 ^ i % 2) (omega arith))

  abbrev next_quot : ℕ → ℕ → DivMod → ℕ
  next_quot i q s = if leb den (s.rem * 2 + num / 2 ^ i % 2) then q * 2 + 1 else q * 2

  round-IsPartial :
      (i q : ℕ) (s : DivMod)
      → IsPartial num den (suc i) q s
      → IsPartial num den i (next_quot i q s) (udivmod_round num den i s)
  unfolding udivmod_round
  round-IsPartial i q s v =
      rw (next_rem i q s v) (elim (Bool-cases (leb den (s.rem * 2 + num / 2 ^ i % 2))) [
        | inl fit ↦ rw fit (record {
          shifted = ground (
            arith,
            v.shifted,
            bit_or_join (suc i) q (2 ^ i),
            pow-suc 2 i,
            ap (λ (t : ℕ). q * t) (pow-suc 2 i),
            one-le-pow i 2,
          );
          divides = ground (arith, v.divides, div-pow-suc num i);
          reduced = ground (arith, v.reduced);
        })
        | inr less ↦ rw less (record {
          shifted = ground (arith, v.shifted, ap (λ (t : ℕ). q * t) (pow-suc 2 i));
          divides = ground (arith, v.divides, div-pow-suc num i);
          reduced = ground (arith, v.reduced);
        })
      ])

  loop-IsPartial :
      (n q : ℕ) (s : DivMod)
      → IsPartial num den n q s
      → (r : ℕ) × IsPartial num den 0 r (udivmod_loop num den n s)
  unfolding udivmod_loop
  loop-IsPartial zero q s v = (q, v)
  loop-IsPartial (suc i) q s v = loop-IsPartial i _ _ (round-IsPartial i q s v)

-- For every 64-bit numerator and nonzero denominator the loop returns the quotient and the
-- remainder: `num = quot * den + rem` and `rem < den`.
pub udivmoddi4_lem :
    (num den : ℕ)
    → num < 2 ^ 64
    → 0 < den
    → (num ≡ (udivmoddi4 num den).quot * den + (udivmoddi4 num den).rem)
      × ((udivmoddi4 num den).rem < den)
unfolding udivmoddi4
udivmoddi4_lem num den fits pos =
    rw (ne→== den 0 (omega arith)) (finish (loop-IsPartial num den fits 64 0 (div_mod 0 0) start))
  where
    start : IsPartial num den 64 0 (div_mod 0 0)
    start = omega arith

    finish :
        (r : ℕ) × IsPartial num den 0 r (udivmod_loop num den 64 (div_mod 0 0))
        → (num
            ≡ (udivmod_loop num den 64 (div_mod 0 0)).quot * den
              + (udivmod_loop num den 64 (div_mod 0 0)).rem)
          × ((udivmod_loop num den 64 (div_mod 0 0)).rem < den)
    finish (r, v) = (ground (arith, v.shifted, v.divides), v.reduced)
