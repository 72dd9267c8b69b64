-- ===== src/Printk.antt =====
-- lib/printk.c: the bounded output buffer and the formatting of numbers.
pub mod Buffer
pub mod Number
pub mod Format
mod Tests
use obsidian_kernel.Base.{
  ℕ, zero, suc, ◌+◌, ◌-◌, ◌*◌, ◌/◌, ◌%◌, ◌^◌, ◌==◌, ltb, leb, ◌||◌, ◌&&◌, not, Bool, true, false,
  List, [], ◌∷◌, ◌++◌, Option, none, some, if◌then◌else◌, u32, u64, get_or, set, length, replicate,
}

-- `struct outbuf`; a null `p` is `none`.
pub record Outbuf : Type 0 where
  pub p : Option (List ℕ)
  pub size : ℕ
  pub len : ℕ

-- A store through `p`, which `ob_putc` makes only when `p` is not null.
abbrev pub store : ℕ → ℕ → Option (List ℕ) → Option (List ℕ)
store i c none = none
store i c (some b) = some (set b i c)

pub ob_putc : ℕ → Outbuf → Outbuf
ob_putc c ob = record ob {
  p =
      if ltb (u32 (ob.len + 1)) ob.size
      then store ob.len c ob.p
      else if ltb ob.len ob.size
      then store ob.len 0 ob.p
      else ob.p;
  len = u32 (ob.len + 1);
}

-- A run of calls of `ob_putc`.
pub ob_puts : List ℕ → Outbuf → Outbuf
ob_puts [] ob = ob
ob_puts (c ∷ s) ob = ob_puts s (ob_putc c ob)

-- The end of `kvsnprintf`: the terminator.
pub finish : Outbuf → Outbuf
finish ob =
    if ob.size == 0
    then ob
    else record ob { p = store (if ltb ob.len ob.size then ob.len else ob.size - 1) 0 ob.p }

-- `emit_str`, with the pad of a width given as a natural number.
pub emit_str : List ℕ → ℕ → Bool → Outbuf → Outbuf
emit_str s width ljust ob =
    let pad = replicate (width - length s) 32 in
    if ljust then ob_puts pad (ob_puts s ob) else ob_puts s (ob_puts pad ob)

-- `digits[d]`
abbrev pub digit_char : Bool → ℕ → ℕ
digit_char upper d = if ltb d 10 then 48 + d else (if upper then 55 + d else 87 + d)

-- `do { ... } while (val)`: `tmp`, its last character first. A 64-bit value has 64 rounds at most.
pub digits_loop : ℕ → ℕ → ℕ → Bool → List ℕ → List ℕ
digits_loop zero val base upper tmp = tmp
digits_loop (suc fuel) val base upper tmp =
    let tmp = digit_char upper (val % base) ∷ tmp in
    let rest = digits_loop fuel (val / base) base upper tmp in if val / base == 0 then tmp else rest

-- The value is negative as an `s64`.
abbrev pub is_negative : ℕ → Bool → Bool
is_negative val is_signed = is_signed && leb (2 ^ 63) val

-- `tmp` of `emit_num`, its last character first.
pub number : ℕ → ℕ → Bool → Bool → List ℕ
number val base upper is_signed =
    if is_negative val is_signed
    then 45 ∷ digits_loop 64 (u64 (2 ^ 64 - val)) base upper []
    else digits_loop 64 val base upper []

-- The characters that `emit_num` puts out, for a width that is not negative. A pad below 0 puts
-- out nothing.
pub emit_num_text : ℕ → ℕ → Bool → Bool → ℕ → Bool → Bool → List ℕ
emit_num_text val base upper is_signed width zero_pad ljust =
    let tmp = number val base upper is_signed in
    let pad = width - length tmp in
    let neg = is_negative val is_signed in
    if ljust
    then tmp ++ replicate (if neg then pad - 1 else pad) 32
    else if zero_pad
    then (if neg then 45 ∷ replicate (pad - 1) 48 ++ tmp else replicate pad 48 ++ tmp)
    else replicate pad 32 ++ tmp

pub emit_num : ℕ → ℕ → Bool → Bool → ℕ → Bool → Bool → Outbuf → Outbuf
emit_num val base upper is_signed width zero_pad ljust ob =
    ob_puts (emit_num_text val base upper is_signed width zero_pad ljust) ob

-- `emit_ptr`, with `sizeof(uintptr_t)` a parameter.
pub emit_ptr : ℕ → ℕ → Outbuf → Outbuf
emit_ptr pointer_size v ob =
    emit_num v 16 false false (pointer_size * 2) true false (ob_putc 120 (ob_putc 48 ob))
