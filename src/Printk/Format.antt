-- ===== src/Printk/Format.antt =====
-- `kvsnprintf` of lib/printk.c: the format and its arguments, with pointers and `long` of 64 bits as on
-- x86_64 and arm64. An argument is a number, as the 64 bits of its slot, or a string. A missing
-- argument, one of the other kind, a null string that is read, a width past `int` and a read past
-- the end of the format are undefined, and so is the negation of the least `s64`. The loop takes a round of fuel for each character of the
-- format and one more: a round consumes a character.
pub mod Pieces
pub mod Parse
pub mod Prints
pub mod Strings
use obsidian_kernel.Base.{
  ℕ, zero, suc, ◌+◌, ◌-◌, ◌*◌, ◌%◌, ◌^◌, ◌==◌, ltb, leb, Bool, true, false, ◌||◌, ◌&&◌, List, [],
  ◌∷◌, Option, none, some, if◌then◌else◌, u32, u64, length,
}
use obsidian_kernel.Printk.{Outbuf, ob_putc, finish, emit_str, emit_num, emit_ptr}

pub data Arg : Type 0 where
  number_arg : ℕ → Arg
  string_arg : Option (List ℕ) → Arg

pub data Printed : Type 0 where
  printed : Outbuf → Printed
  undefined : Printed
  out_of_fuel : Printed

-- What follows a `%`, up to the letter of the conversion, which begins `rest`.
pub record Directive : Type 0 where
  pub ljust : Bool
  pub zero_pad : Bool
  pub width : ℕ
  pub lmod : ℕ
  pub rest : List ℕ

-- `while (*fmt == '-' || *fmt == '0')`
pub parse_flags : List ℕ → Bool → Bool → Bool × Bool × List ℕ
parse_flags [] ljust zero_pad = (ljust, zero_pad, [])
parse_flags (c ∷ fmt) ljust zero_pad =
    let rest = parse_flags fmt (ljust || c == 45) (zero_pad || c == 48) in
    if c == 45 || c == 48 then rest else (ljust, zero_pad, c ∷ fmt)

-- `while (*fmt >= '0' && *fmt <= '9')`
pub parse_width : List ℕ → ℕ → ℕ × List ℕ
parse_width [] width = (width, [])
parse_width (c ∷ fmt) width =
    let rest = parse_width fmt (width * 10 + (c - 48)) in
    if leb 48 c && leb c 57 then rest else (width, c ∷ fmt)

-- `while (*fmt == 'l' || *fmt == 'z')`; behind it no `z` is left.
pub parse_lmod : List ℕ → ℕ → ℕ × List ℕ
parse_lmod [] lmod = (lmod, [])
parse_lmod (c ∷ fmt) lmod =
    let rest = parse_lmod fmt (lmod + 1) in if c == 108 || c == 122 then rest else (lmod, c ∷ fmt)

pub parse : List ℕ → Directive
parse fmt =
    let (ljust, zero_pad, behind) = parse_flags fmt false false in
    let (width, more) = parse_width behind 0 in
    let (lmod, rest) = parse_lmod more 0 in
    record { ljust = ljust; zero_pad = zero_pad; width = width; lmod = lmod; rest = rest }

-- `va_arg` of a number, which `print` puts out.
abbrev pub with_number : List Arg → (ℕ → Outbuf) → Option (Outbuf × List Arg)
with_number [] print = none
with_number (number_arg n ∷ args) print = some (print n, args)
with_number (string_arg s ∷ args) print = none

-- The same of a number with a sign, as an `s64`. The negation of the least one overflows.
abbrev pub with_signed : List Arg → (ℕ → ℕ) → (ℕ → Outbuf) → Option (Outbuf × List Arg)
with_signed [] value print = none
with_signed (number_arg n ∷ args) value print =
    if value n == 2 ^ 63 then none else some (print (value n), args)
with_signed (string_arg s ∷ args) value print = none

-- The second `va_arg` of `%s`, whose string is put out.
abbrev pub second_string : List Arg → (List ℕ → Outbuf) → Option (Outbuf × List Arg)
second_string [] print = none
second_string (number_arg n ∷ args) print = none
second_string (string_arg none ∷ args) print = none
second_string (string_arg (some s) ∷ args) print = some (print s, args)

-- "(null)"
abbrev pub null_text : List ℕ
null_text = 40 ∷ 110 ∷ 117 ∷ 108 ∷ 108 ∷ 41 ∷ []

-- `va_arg(ap, const char *) ? va_arg(ap, const char *) : "(null)"`
abbrev pub with_string : List Arg → (List ℕ → Outbuf) → Option (Outbuf × List Arg)
with_string [] print = none
with_string (number_arg n ∷ args) print = none
with_string (string_arg none ∷ args) print = some (print null_text, args)
with_string (string_arg (some s) ∷ args) print = second_string args print

-- An `int` in a slot as an `s64`.
abbrev pub extend : ℕ → ℕ
extend n = if ltb (u32 n) (2 ^ 31) then u32 n else u32 n + (2 ^ 64 - 2 ^ 32)

-- A string of one `char`.
abbrev pub one_char : ℕ → List ℕ
one_char c = if c == 0 then [] else c ∷ []

-- The `switch` on the letter `c`.
pub convert : ℕ → Directive → List Arg → Outbuf → Option (Outbuf × List Arg)
convert c d args ob =
    let number : ℕ → ℕ → Bool → Bool → Outbuf =
      λ val base upper is_signed. emit_num val base upper is_signed d.width d.zero_pad d.ljust ob in
    if c == 37
    then some (ob_putc 37 ob, args)
    else if c == 99
    then with_number args (λ n. emit_str (one_char (n % 256)) d.width d.ljust ob)
    else if c == 115
    then with_string args (λ s. emit_str s d.width d.ljust ob)
    else if c == 100 || c == 105
    then with_signed args (λ n. if d.lmod == 0 then extend n else u64 n)
        (λ v. number v 10 false true)
    else if c == 117
    then with_number args (λ n. number (if d.lmod == 0 then u32 n else u64 n) 10 false false)
    else if c == 112
    then with_number args (λ n. emit_ptr 8 (u64 n) ob)
    else if c == 120 || c == 88
    then with_number args (λ n. number (if d.lmod == 0 then u32 n else u64 n) 16 (c == 88) false)
    else if c == 111
    then with_number args (λ n. number (if d.lmod == 0 then u32 n else u64 n) 8 false false)
    else some (ob_putc c (ob_putc 37 ob), args)

abbrev pub converted :
    (List ℕ → List Arg → Outbuf → Printed) → List ℕ → Option (Outbuf × List Arg) → Printed
converted next fmt none = undefined
converted next fmt (some (ob, args)) = next fmt args ob

-- One directive, and `next` behind it.
abbrev pub directive :
    (List ℕ → List Arg → Outbuf → Printed) → Directive → List ℕ → List Arg → Outbuf → Printed
directive next d [] args ob = undefined
directive next d (c ∷ fmt) args ob =
    if leb (2 ^ 31) d.width then undefined else converted next fmt (convert c d args ob)

pub format_loop : ℕ → List ℕ → List Arg → Outbuf → Printed
format_loop zero fmt args ob = out_of_fuel
format_loop (suc n) [] args ob = printed ob
format_loop (suc n) (c ∷ fmt) args ob =
    let literal = format_loop n fmt args (ob_putc c ob) in
    let d = parse fmt in if c == 37 then directive (format_loop n) d d.rest args ob else literal

abbrev pub ended : Printed → Printed
ended (printed ob) = printed (finish ob)
ended undefined = undefined
ended out_of_fuel = out_of_fuel

-- The length is the count of `ob`.
pub kvsnprintf : Option (List ℕ) → ℕ → List ℕ → List Arg → Printed
kvsnprintf buf size fmt args =
    ended (format_loop (length fmt + 1) fmt args (record { p = buf; size = size; len = 0 }))
