-- ===== src/Printk/Format/Strings.antt =====
-- The conversion `%s` fetches its argument twice.
use obsidian_kernel.Base.{
  ℕ, zero, suc, ◌+◌, ◌-◌, false, List, [], ◌∷◌, ◌++◌, Option, some, length, ne→==, ◌≡◌, ◌≢◌, ◌∙◌,
  refl, ap, arith,
}
use obsidian_kernel.Printk.{Outbuf, ob_putc, ob_puts, finish, emit_str}
use obsidian_kernel.Printk.Format.{
  Arg, string_arg, Printed, printed, undefined, parse_flags, parse_width, parse_lmod, parse,
  convert, format_loop, ended, kvsnprintf,
}

-- No directive in it.
abbrev pub IsLiteral : List ℕ → Type 0
IsLiteral [] = Unit {0}
IsLiteral (c ∷ text) = (c ≢ 37) × IsLiteral text

format_loop-literal :
    (text : List ℕ) (n m : ℕ) (fmt : List ℕ) (args : List Arg) (ob : Outbuf)
    → IsLiteral text
    → length text + m ≡ n
    → format_loop n (text ++ fmt) args ob ≡ format_loop m fmt args (ob_puts text ob)
unfolding format_loop ob_puts
format_loop-literal [] n m fmt args ob ok e = ap (λ k. format_loop k fmt args ob) (omega (arith, e))
format_loop-literal (c ∷ text) zero m fmt args ob ok e = grind (arith, e)
format_loop-literal (c ∷ text) (suc n) m fmt args ob ok e =
    rw (ne→== c 37 ok.0)
      (format_loop-literal text n m fmt args (ob_putc c ob) ok.1 (omega (arith, e)))

no_pad : (s : List ℕ) (ob : Outbuf) → emit_str s 0 false ob ≡ ob_puts s ob
unfolding emit_str ob_puts
no_pad s ob = let none_left : 0 - length s ≡ 0 = omega arith in rw none_left refl

directive_two :
    (s t : List ℕ) (ob : Outbuf)
    → format_loop 3 (37 ∷ 115 ∷ []) (string_arg (some s) ∷ string_arg (some t) ∷ []) ob
      ≡ printed (ob_puts t ob)
unfolding format_loop parse parse_flags parse_width parse_lmod convert
directive_two s t ob = ap printed (no_pad t ob)

directive_one :
    (s : List ℕ) (ob : Outbuf)
    → format_loop 3 (37 ∷ 115 ∷ []) (string_arg (some s) ∷ []) ob ≡ undefined
unfolding format_loop parse parse_flags parse_width parse_lmod convert
directive_one s ob = refl

-- The buffer before anything is put out.
abbrev pub empty_out : Option (List ℕ) → ℕ → Outbuf
empty_out buf size = record { p = buf; size = size; len = 0 }

fuel_of : (text : List ℕ) → length text + 3 ≡ length (text ++ 37 ∷ 115 ∷ []) + 1
fuel_of [] = refl
fuel_of (c ∷ text) = let rest = fuel_of text in omega (arith, rest)

kvsnprintf-string :
    (buf : Option (List ℕ)) (size : ℕ) (text : List ℕ) (args : List Arg) (r : Printed)
    → IsLiteral text
    → format_loop 3 (37 ∷ 115 ∷ []) args (ob_puts text (empty_out buf size)) ≡ r
    → kvsnprintf buf size (text ++ 37 ∷ 115 ∷ []) args ≡ ended r
unfolding kvsnprintf
kvsnprintf-string buf size text args r ok e = ap ended (
    format_loop-literal text (length (text ++ 37 ∷ 115 ∷ []) + 1) 3 (37 ∷ 115 ∷ []) args
      (empty_out buf size) ok (fuel_of text)
    ∙ e)

-- For a text without `%`, a format of the text and `%s` with a string that is not null as its argument is
-- undefined, and with one more it puts out the text and the second string.
pub kvsnprintf-second_string :
    (buf : Option (List ℕ)) (size : ℕ) (text s t : List ℕ)
    → IsLiteral text
    → (kvsnprintf buf size (text ++ 37 ∷ 115 ∷ []) (string_arg (some s) ∷ []) ≡ undefined)
      × (kvsnprintf buf size
            (text ++ 37 ∷ 115 ∷ [])
            (string_arg (some s) ∷ string_arg (some t) ∷ [])
          ≡ printed (finish (ob_puts t (ob_puts text (empty_out buf size)))))
kvsnprintf-second_string buf size text s t ok =
    let before = ob_puts text (empty_out buf size) in
    (
      kvsnprintf-string buf size text (string_arg (some s) ∷ []) undefined ok
          (directive_one s before),
      kvsnprintf-string buf size text (string_arg (some s) ∷ string_arg (some t) ∷ [])
          (printed (ob_puts t before)) ok (directive_two s t before),
    )
