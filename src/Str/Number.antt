-- ===== src/Str/Number.antt =====
-- `k_atoi` reads back what `k_itoa64` writes in base ten.
use obsidian_kernel.Base.{
  ℕ, zero, suc, ◌+◌, ◌*◌, ◌/◌, ◌%◌, ◌^◌, ◌==◌, ◌<◌, ◌≤◌, List, [], ◌∷◌, ◌≡◌, ◌≢◌, refl, length, inl,
  inr, Bool-cases, arith, ltb, false, if◌then◌else◌, none, some, pos, ==_iff, ne→==,
}
use native.Mathlib.Nat.{pow-suc}
use obsidian_kernel.Str.{char_at, digit_char, itoa_loop, k_itoa64, atoi_loop, k_atoi, signed}

atoi_loop-digit :
    (n d : ℕ) (s : List ℕ)
    → d < 10
    → atoi_loop n (digit_char d ∷ s)
      ≡ (if ltb (n * 10 + d) (2 ^ 31) then atoi_loop (n * 10 + d) s else none)
unfolding atoi_loop
atoi_loop-digit n d s h = ground arith

-- Reading the digits of a number, then those after them, is reading on from that number, if it fits.
atoi_loop-itoa_loop :
    (fuel v : ℕ) (out : List ℕ)
    → v < 2 ^ fuel
    → atoi_loop 0 (itoa_loop fuel v 10 out) ≡ (if ltb v (2 ^ 31) then atoi_loop v out else none)
unfolding itoa_loop
atoi_loop-itoa_loop zero v out h = let z : v ≡ 0 = omega arith in rw z refl
atoi_loop-itoa_loop (suc fuel) v out h = elim (Bool-cases (v == 0)) [
  | inl a ↦ let z : v ≡ 0 = (==_iff v 0).0 a in rw z refl
  | inr a ↦
      let whole : v / 10 * 10 + v % 10 ≡ v = omega arith in
      let rest =
        atoi_loop-itoa_loop fuel (v / 10) (digit_char (v % 10) ∷ out)
          (omega (arith, pow-suc 2 fuel)) in
      let digit = atoi_loop-digit (v / 10) (v % 10) out (omega arith) in
      rw (a, rest, digit, whole) (ground arith)
]

-- `itoa_loop` adds a character at most for each round.
length-itoa_loop :
    (fuel v base : ℕ) (out : List ℕ) → length (itoa_loop fuel v base out) ≤ fuel + length out
unfolding itoa_loop
length-itoa_loop zero v base out = omega arith
length-itoa_loop (suc fuel) v base out =
    ground (arith, length-itoa_loop fuel (v / base) base (digit_char (v % base) ∷ out))

first_char-itoa_loop :
    (fuel v : ℕ) (out : List ℕ) → char_at out ≢ 45 → char_at (itoa_loop fuel v 10 out) ≢ 45
unfolding itoa_loop
first_char-itoa_loop zero v out h = h
first_char-itoa_loop (suc fuel) v out h = elim (Bool-cases (v == 0)) [
  | inl b ↦ grind (arith, b)
  | inr b ↦
      (let rest = first_char-itoa_loop fuel (v / 10) (digit_char (v % 10) ∷ out) (ground arith) in
        grind (arith, b))
]

k_atoi-unsigned : (s : List ℕ) → char_at s ≢ 45 → k_atoi s ≡ signed false (atoi_loop 0 s)
unfolding k_atoi atoi_loop
k_atoi-unsigned [] h = refl
k_atoi-unsigned (c ∷ s) h = rw (ne→== c 45 h) refl

atoi_end : (n : ℕ) → atoi_loop n [] ≡ some n
unfolding atoi_loop
atoi_end n = refl

atoi_zero : k_atoi (48 ∷ []) ≡ some (pos 0)
unfolding k_atoi atoi_loop
atoi_zero = refl

-- For a 64-bit value `k_atoi` of what `k_itoa64` writes in base ten is the value if it fits an `int`,
-- and undefined if not.
pub k_atoi-k_itoa64 :
    (v : ℕ) → v < 2 ^ 64 → k_atoi (k_itoa64 v 10) ≡ (if ltb v (2 ^ 31) then some (pos v) else none)
unfolding k_itoa64
k_atoi-k_itoa64 v h = elim (Bool-cases (v == 0)) [
  | inl b ↦ let z : v ≡ 0 = (==_iff v 0).0 b in rw z atoi_zero
  | inr b ↦
      rw
        (
          b,
          k_atoi-unsigned (itoa_loop 64 v 10 []) (first_char-itoa_loop 64 v [] (omega arith)),
          atoi_loop-itoa_loop 64 v [] h,
          atoi_end v,
        )
        (elim (Bool-cases (ltb v (2 ^ 31))) [ inl c ↦ rw c refl | inr c ↦ rw c refl ])
]

-- In every base `k_itoa64` writes 64 characters at most, so its buffer of 70 is enough.
pub length-k_itoa64 : (v base : ℕ) → length (k_itoa64 v base) ≤ 64
unfolding k_itoa64
length-k_itoa64 v base = grind (arith, length-itoa_loop 64 v 10 [], length-itoa_loop 64 v base [])
