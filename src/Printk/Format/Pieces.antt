-- ===== src/Printk/Format/Pieces.antt =====
-- Formats in pieces: how each is spelled, which arguments it fetches, and the text it stands for.
use obsidian_kernel.Base.{
  ℕ, ◌+◌, ◌-◌, ◌*◌, ◌%◌, ◌^◌, ◌<◌, ◌≤◌, ◌≢◌, Bool, true, false, List, [], ◌∷◌, ◌++◌, none, some,
  if◌then◌else◌, u32, u64, length, replicate,
}
use obsidian_kernel.Printk.{emit_num_text}
use obsidian_kernel.Printk.Format.{Arg, number_arg, string_arg, null_text, one_char, extend}

pub data Flag : Type 0 where
  left : Flag
  zeros : Flag

pub data Modifier : Type 0 where
  long_mod : Modifier
  size_mod : Modifier

-- What is converted, by its letter: `%`, `c`, `s`, `d`, `i`, `u`, `x`, `X`, `o` and `p`. A string is
-- null, or one that is tested and the one that is put out.
pub data Conversion : Type 0 where
  percent : Conversion
  char : ℕ → Conversion
  null_string : Conversion
  string : List ℕ → List ℕ → Conversion
  decimal : ℕ → Conversion
  integer : ℕ → Conversion
  unsigned : ℕ → Conversion
  hex : ℕ → Conversion
  upper_hex : ℕ → Conversion
  octal : ℕ → Conversion
  pointer : ℕ → Conversion

-- A width is its digits.
pub record Spec : Type 0 where
  pub flags : List Flag
  pub width : List ℕ
  pub modifiers : List Modifier
  pub conversion : Conversion

pub data Piece : Type 0 where
  literal : ℕ → Piece
  directed : Spec → Piece

abbrev pub letter : Conversion → ℕ
letter percent = 37
letter (char n) = 99
letter null_string = 115
letter (string s t) = 115
letter (decimal n) = 100
letter (integer n) = 105
letter (unsigned n) = 117
letter (hex n) = 120
letter (upper_hex n) = 88
letter (octal n) = 111
letter (pointer n) = 112

abbrev pub spell_flags : List Flag → List ℕ → List ℕ
spell_flags [] rest = rest
spell_flags (left ∷ flags) rest = 45 ∷ spell_flags flags rest
spell_flags (zeros ∷ flags) rest = 48 ∷ spell_flags flags rest

abbrev pub spell_modifiers : List Modifier → List ℕ → List ℕ
spell_modifiers [] rest = rest
spell_modifiers (long_mod ∷ modifiers) rest = 108 ∷ spell_modifiers modifiers rest
spell_modifiers (size_mod ∷ modifiers) rest = 122 ∷ spell_modifiers modifiers rest

abbrev pub spell_spec : Spec → List ℕ → List ℕ
spell_spec d rest =
    spell_flags d.flags (d.width ++ spell_modifiers d.modifiers (letter d.conversion ∷ rest))

-- The format of some pieces.
abbrev pub spell : List Piece → List ℕ
spell [] = []
spell (literal c ∷ pieces) = c ∷ spell pieces
spell (directed d ∷ pieces) = 37 ∷ spell_spec d (spell pieces)

abbrev pub arguments_of : Conversion → List Arg → List Arg
arguments_of percent rest = rest
arguments_of (char n) rest = number_arg n ∷ rest
arguments_of null_string rest = string_arg none ∷ rest
arguments_of (string s t) rest = string_arg (some s) ∷ string_arg (some t) ∷ rest
arguments_of (decimal n) rest = number_arg n ∷ rest
arguments_of (integer n) rest = number_arg n ∷ rest
arguments_of (unsigned n) rest = number_arg n ∷ rest
arguments_of (hex n) rest = number_arg n ∷ rest
arguments_of (upper_hex n) rest = number_arg n ∷ rest
arguments_of (octal n) rest = number_arg n ∷ rest
arguments_of (pointer n) rest = number_arg n ∷ rest

abbrev pub arguments : List Piece → List Arg
arguments [] = []
arguments (literal c ∷ pieces) = arguments pieces
arguments (directed d ∷ pieces) = arguments_of d.conversion (arguments pieces)

abbrev pub is_left : List Flag → Bool
is_left [] = false
is_left (left ∷ flags) = true
is_left (zeros ∷ flags) = is_left flags

abbrev pub has_zeros : List Flag → Bool
has_zeros [] = false
has_zeros (left ∷ flags) = has_zeros flags
has_zeros (zeros ∷ flags) = true

-- The number that digits spell behind `n`.
abbrev pub digits_value : ℕ → List ℕ → ℕ
digits_value n [] = n
digits_value n (c ∷ digits) = digits_value (n * 10 + (c - 48)) digits

-- A number of 32 bits, or of 64 behind a modifier.
abbrev pub narrow : (ℕ → ℕ) → List Modifier → ℕ → ℕ
narrow cut [] n = cut n
narrow cut (m ∷ modifiers) n = u64 n

abbrev pub padded : List ℕ → ℕ → Bool → List ℕ
padded s width ljust =
    if ljust then s ++ replicate (width - length s) 32 else replicate (width - length s) 32 ++ s

abbrev pub number_text : Spec → ℕ → ℕ → Bool → Bool → List ℕ
number_text d n base upper is_signed =
    emit_num_text n base upper is_signed (digits_value 0 d.width) (has_zeros d.flags)
      (is_left d.flags)

abbrev pub spec_text : Spec → Conversion → List ℕ
spec_text d percent = 37 ∷ []
spec_text d (char n) = padded (one_char (n % 256)) (digits_value 0 d.width) (is_left d.flags)
spec_text d null_string = padded null_text (digits_value 0 d.width) (is_left d.flags)
spec_text d (string s t) = padded t (digits_value 0 d.width) (is_left d.flags)
spec_text d (decimal n) = number_text d (narrow extend d.modifiers n) 10 false true
spec_text d (integer n) = number_text d (narrow extend d.modifiers n) 10 false true
spec_text d (unsigned n) = number_text d (narrow u32 d.modifiers n) 10 false false
spec_text d (hex n) = number_text d (narrow u32 d.modifiers n) 16 false false
spec_text d (upper_hex n) = number_text d (narrow u32 d.modifiers n) 16 true false
spec_text d (octal n) = number_text d (narrow u32 d.modifiers n) 8 false false
spec_text d (pointer n) = 48 ∷ 120 ∷ emit_num_text (u64 n) 16 false false 16 true false

abbrev pub text : List Piece → List ℕ
text [] = []
text (literal c ∷ pieces) = c ∷ text pieces
text (directed d ∷ pieces) = spec_text d d.conversion ++ text pieces

abbrev pub AreDigits : List ℕ → Type 0
AreDigits [] = Unit {0}
AreDigits (c ∷ digits) = (48 ≤ c) × (c ≤ 57) × AreDigits digits

-- A width is empty, or digits that do not begin with 0.
abbrev pub IsWidth : List ℕ → Type 0
IsWidth [] = Unit {0}
IsWidth (c ∷ digits) = (c ≢ 48) × AreDigits (c ∷ digits)

-- A number with a sign is not the least `s64`.
abbrev pub IsConvertible : List Modifier → Conversion → Type 0
IsConvertible modifiers (decimal n) = narrow extend modifiers n ≢ 2 ^ 63
IsConvertible modifiers (integer n) = narrow extend modifiers n ≢ 2 ^ 63
IsConvertible modifiers percent = Unit {0}
IsConvertible modifiers (char n) = Unit {0}
IsConvertible modifiers null_string = Unit {0}
IsConvertible modifiers (string s t) = Unit {0}
IsConvertible modifiers (unsigned n) = Unit {0}
IsConvertible modifiers (hex n) = Unit {0}
IsConvertible modifiers (upper_hex n) = Unit {0}
IsConvertible modifiers (octal n) = Unit {0}
IsConvertible modifiers (pointer n) = Unit {0}

-- A literal is no `%`, a width fits an `int`, and no number with a sign is the least `s64`.
abbrev pub AreValid : List Piece → Type 0
AreValid [] = Unit {0}
AreValid (literal c ∷ pieces) = (c ≢ 37) × AreValid pieces
AreValid (directed d ∷ pieces) =
    IsWidth d.width
    × (digits_value 0 d.width < 2 ^ 31)
    × IsConvertible d.modifiers d.conversion
    × AreValid pieces
