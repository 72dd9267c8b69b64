-- ===== src/Printk/Format/Parse.antt =====
-- How a directive of a format in pieces is read.
use obsidian_kernel.Base.{
  ℕ, ◌+◌, ◌-◌, ◌*◌, ◌<◌, ◌≤◌, ◌==◌, ◌≢◌, leb, Bool, true, false, List, [], ◌∷◌, ◌++◌, length, ◌||◌,
  ◌&&◌, ◌≡◌, ◌∙◌, refl, ap, ap₂, arith, ne→==, le→leb,
}
use obsidian_kernel.Printk.Format.{Directive, parse_flags, parse_width, parse_lmod, parse}
use obsidian_kernel.Printk.Format.Pieces.{
  Flag, left, zeros, Modifier, long_mod, size_mod, Conversion, percent, char, null_string, string,
  decimal, integer, unsigned, hex, upper_hex, octal, pointer, Spec, letter, spell_flags,
  spell_modifiers, spell_spec, is_left, has_zeros, digits_value, AreDigits, IsWidth,
}

-- A text that does not begin with a flag, a digit or a modifier.
abbrev EndsFlags : List ℕ → Type 0
EndsFlags [] = Unit {0}
EndsFlags (c ∷ rest) = (c == 45 || c == 48) ≡ false

abbrev EndsWidth : List ℕ → Type 0
EndsWidth [] = Unit {0}
EndsWidth (c ∷ rest) = (leb 48 c && leb c 57) ≡ false

parse_flags-end :
    (rest : List ℕ) (l z : Bool) → EndsFlags rest → parse_flags rest l z ≡ (l, z, rest)
unfolding parse_flags
parse_flags-end [] l z h = refl
parse_flags-end (c ∷ rest) l z h = rw h refl

or_set : (l a : Bool) → ((l || true) || a) ≡ (l || true)
or_set true a = refl
or_set false a = refl

or_unset : (l a : Bool) → ((l || false) || a) ≡ (l || a)
or_unset true a = refl
or_unset false a = refl

parse_flags-spell_flags :
    (flags : List Flag) (rest : List ℕ) (l z : Bool)
    → EndsFlags rest
    → parse_flags (spell_flags flags rest) l z ≡ (l || is_left flags, z || has_zeros flags, rest)
unfolding parse_flags
parse_flags-spell_flags [] rest true true h = parse_flags-end rest true true h
parse_flags-spell_flags [] rest true false h = parse_flags-end rest true false h
parse_flags-spell_flags [] rest false true h = parse_flags-end rest false true h
parse_flags-spell_flags [] rest false false h = parse_flags-end rest false false h
parse_flags-spell_flags (left ∷ flags) rest l z h =
    parse_flags-spell_flags flags rest (l || true) (z || false) h
    ∙ ap₂ (λ a b. (a, b, rest)) (or_set l (is_left flags)) (or_unset z (has_zeros flags))
parse_flags-spell_flags (zeros ∷ flags) rest l z h =
    parse_flags-spell_flags flags rest (l || false) (z || true) h
    ∙ ap₂ (λ a b. (a, b, rest)) (or_unset l (is_left flags)) (or_set z (has_zeros flags))

parse_width-end : (rest : List ℕ) (w : ℕ) → EndsWidth rest → parse_width rest w ≡ (w, rest)
unfolding parse_width
parse_width-end [] w h = refl
parse_width-end (c ∷ rest) w h = rw h refl

parse_width-digits :
    (digits rest : List ℕ) (w : ℕ)
    → AreDigits digits
    → EndsWidth rest
    → parse_width (digits ++ rest) w ≡ (digits_value w digits, rest)
unfolding parse_width
parse_width-digits [] rest w ok h = parse_width-end rest w h
parse_width-digits (c ∷ digits) rest w ok h =
    rw (le→leb 48 c ok.0, le→leb c 57 ok.1)
      (parse_width-digits digits rest (w * 10 + (c - 48)) ok.2 h)

parse_lmod-spell_modifiers :
    (modifiers : List Modifier) (c : ℕ) (rest : List ℕ) (m n : ℕ)
    → (c == 108 || c == 122) ≡ false
    → length modifiers + m ≡ n
    → parse_lmod (spell_modifiers modifiers (c ∷ rest)) m ≡ (n, c ∷ rest)
unfolding parse_lmod
parse_lmod-spell_modifiers [] c rest m n h e = rw h (ap (λ k. (k, c ∷ rest)) (omega (arith, e)))
parse_lmod-spell_modifiers (long_mod ∷ modifiers) c rest m n h e =
    parse_lmod-spell_modifiers modifiers c rest (m + 1) n h (omega (arith, e))
parse_lmod-spell_modifiers (size_mod ∷ modifiers) c rest m n h e =
    parse_lmod-spell_modifiers modifiers c rest (m + 1) n h (omega (arith, e))

-- No letter is a digit, a flag or a modifier.
letter_ends :
    (conversion : Conversion)
    → (let c = letter conversion in
        ((leb 48 c && leb c 57) ≡ false)
        × ((c == 45 || c == 48) ≡ false)
        × ((c == 108 || c == 122) ≡ false))
letter_ends percent = (refl, refl, refl)
letter_ends (char n) = (refl, refl, refl)
letter_ends null_string = (refl, refl, refl)
letter_ends (string s t) = (refl, refl, refl)
letter_ends (decimal n) = (refl, refl, refl)
letter_ends (integer n) = (refl, refl, refl)
letter_ends (unsigned n) = (refl, refl, refl)
letter_ends (hex n) = (refl, refl, refl)
letter_ends (upper_hex n) = (refl, refl, refl)
letter_ends (octal n) = (refl, refl, refl)
letter_ends (pointer n) = (refl, refl, refl)

-- What stands behind the width.
abbrev tail_of : Spec → List ℕ → List ℕ
tail_of d rest = spell_modifiers d.modifiers (letter d.conversion ∷ rest)

tail_ends :
    (modifiers : List Modifier) (conversion : Conversion) (rest : List ℕ)
    → (let s = spell_modifiers modifiers (letter conversion ∷ rest) in EndsWidth s × EndsFlags s)
tail_ends [] conversion rest = ((letter_ends conversion).0, (letter_ends conversion).1)
tail_ends (long_mod ∷ modifiers) conversion rest = (refl, refl)
tail_ends (size_mod ∷ modifiers) conversion rest = (refl, refl)

width-EndsFlags : (width rest : List ℕ) → IsWidth width → EndsFlags rest → EndsFlags (width ++ rest)
width-EndsFlags [] rest ok h = h
width-EndsFlags (c ∷ digits) rest ok h =
    let above : c ≢ 45 = omega (arith, ok) in rw (ne→== c 45 above, ne→== c 48 ok.0) refl

width-AreDigits : (width : List ℕ) → IsWidth width → AreDigits width
width-AreDigits [] ok = tt
width-AreDigits (c ∷ digits) ok = ok.1

-- How a directive is read.
abbrev pub read_spec : Spec → List ℕ → Directive
read_spec d rest = record {
  ljust = is_left d.flags;
  zero_pad = has_zeros d.flags;
  width = digits_value 0 d.width;
  lmod = length d.modifiers;
  rest = letter d.conversion ∷ rest;
}

pub parse-spell_spec :
    (d : Spec) (rest : List ℕ) → IsWidth d.width → parse (spell_spec d rest) ≡ read_spec d rest
unfolding parse
parse-spell_spec d rest ok =
    let ends = tail_ends d.modifiers d.conversion rest in
    rw
      (
        parse_flags-spell_flags d.flags (d.width ++ tail_of d rest) false false
            (width-EndsFlags d.width (tail_of d rest) ok ends.1),
        parse_width-digits d.width (tail_of d rest) 0 (width-AreDigits d.width ok) ends.0,
        parse_lmod-spell_modifiers d.modifiers (letter d.conversion) rest 0 (length d.modifiers)
            (letter_ends d.conversion).2 (omega arith),
      )
      refl

-- A directive is shorter than its `%` and itself.
spell_flags-longer :
    (flags : List Flag) (rest : List ℕ) → length rest ≤ length (spell_flags flags rest)
spell_flags-longer [] rest = omega arith
spell_flags-longer (left ∷ flags) rest =
    let more = spell_flags-longer flags rest in omega (arith, more)
spell_flags-longer (zeros ∷ flags) rest =
    let more = spell_flags-longer flags rest in omega (arith, more)

spell_modifiers-longer :
    (modifiers : List Modifier) (rest : List ℕ)
    → length rest ≤ length (spell_modifiers modifiers rest)
spell_modifiers-longer [] rest = omega arith
spell_modifiers-longer (long_mod ∷ modifiers) rest =
    let more = spell_modifiers-longer modifiers rest in omega (arith, more)
spell_modifiers-longer (size_mod ∷ modifiers) rest =
    let more = spell_modifiers-longer modifiers rest in omega (arith, more)

append_longer : (s rest : List ℕ) → length rest ≤ length (s ++ rest)
append_longer [] rest = omega arith
append_longer (c ∷ s) rest = let more = append_longer s rest in omega (arith, more)

pub spell_spec-longer : (d : Spec) (rest : List ℕ) → length rest < length (spell_spec d rest)
spell_spec-longer d rest =
    let a = spell_flags-longer d.flags (d.width ++ tail_of d rest) in
    let b = append_longer d.width (tail_of d rest) in
    let c = spell_modifiers-longer d.modifiers (letter d.conversion ∷ rest) in
    omega (arith, a, b, c)
