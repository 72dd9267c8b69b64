-- ===== src/Printk/Number.antt =====
-- The number that the characters of `emit_num` stand for, and their width.
use obsidian_kernel.Base.{
  ℕ, zero, suc, ◌+◌, ◌-◌, ◌*◌, ◌/◌, ◌%◌, ◌<◌, ◌≤◌, ◌^◌, ◌==◌, ltb, List, [], ◌∷◌, Bool, true, false,
  if◌then◌else◌, ◌≡◌, ◌∙◌, ap, sym, max, length, length-append, length-replicate, replicate,
  Bool-cases, ==_iff, inl, inr, arith,
}
use native.Mathlib.Nat.{pow-suc, div-add-mod, mod-lt, div-lt_iff_lt-mul, mul_comm, mul-le-mul_left}
use obsidian_kernel.Printk.{digit_char, digits_loop, is_negative, number, emit_num_text}

-- The value of a digit, and of a run of digits behind the value `n`.
abbrev pub digit : ℕ → ℕ
digit c = if ltb c 58 then c - 48 else (if ltb c 97 then c - 55 else c - 87)

abbrev pub read : ℕ → ℕ → List ℕ → ℕ
read base n [] = n
read base n (c ∷ s) = read base (n * base + digit c) s

digit-digit_char : (upper : Bool) (d : ℕ) → d < 16 → digit (digit_char upper d) ≡ d
digit-digit_char true d h = ground arith
digit-digit_char false d h = ground arith

halves : (v b fuel : ℕ) → 1 < b → v < 2 ^ suc fuel → v / b < 2 ^ fuel
halves v b fuel h k =
    (div-lt_iff_lt-mul (omega arith)).1
      (omega (arith, pow-suc 2 fuel, mul-le-mul_left (2 ^ fuel) h))

-- The last digit puts the value back together.
last_digit :
    (v base : ℕ) (upper : Bool)
    → 1 < base
    → base ≤ 16
    → v / base * base + digit (digit_char upper (v % base)) ≡ v
last_digit v base upper p q =
    let positive : 0 < base = omega arith in
    ap (λ d. v / base * base + d)
      (digit-digit_char upper (v % base) (omega (arith, mod-lt v positive)))
    ∙ omega (arith, div-add-mod v base, mul_comm (v / base) base)

read-digits_loop :
    (fuel v base : ℕ) (upper : Bool) (tmp : List ℕ)
    → 1 < base
    → base ≤ 16
    → v < 2 ^ fuel
    → read base 0 (digits_loop fuel v base upper tmp) ≡ read base v tmp
unfolding digits_loop
read-digits_loop zero v base upper tmp p q h =
    let z : 0 ≡ v = omega arith in ap (λ x. read base x tmp) z
read-digits_loop (suc fuel) v base upper tmp p q h = elim (Bool-cases (v / base == 0)) [
  | inl e ↦
      (let z : v / base ≡ 0 = (==_iff (v / base) 0).0 e in
        rw e (
          ap (λ x. read base (x * base + digit (digit_char upper (v % base))) tmp) (sym z)
          ∙ ap (λ x. read base x tmp) (last_digit v base upper p q)))
  | inr e ↦ rw e (
      read-digits_loop fuel (v / base) base upper (digit_char upper (v % base) ∷ tmp) p q
        (halves v base fuel p h)
      ∙ ap (λ x. read base x tmp) (last_digit v base upper p q))
]

-- For a base from 2 to 16 the characters of an unsigned 64-bit value, before padding, read back as
-- the value.
pub read-number :
    (v base : ℕ) (upper : Bool)
    → 1 < base
    → base ≤ 16
    → v < 2 ^ 64
    → read base 0 (number v base upper false) ≡ v
unfolding number
read-number v base upper p q h = read-digits_loop 64 v base upper [] p q h

-- A value that is not negative is put out in as many characters as the width says, or as it has if
-- these are more, whether padded with zeros, on the left or on the right.
pub length-emit_num_text :
    (v base width : ℕ) (upper is_signed zero_pad ljust : Bool)
    → is_negative v is_signed ≡ false
    → length (emit_num_text v base upper is_signed width zero_pad ljust)
      ≡ max width (length (number v base upper is_signed))
unfolding emit_num_text
length-emit_num_text v base width upper is_signed zero_pad ljust e =
    let tmp = number v base upper is_signed in
    let pad = width - length tmp in
    grind (
      arith,
      e,
      length-append tmp (replicate pad 32),
      length-append (replicate pad 48) tmp,
      length-append (replicate pad 32) tmp,
      length-replicate {A = ℕ} pad 32,
      length-replicate {A = ℕ} pad 48,
    )
