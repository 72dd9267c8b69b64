-- ===== src/Printk/Tests.antt =====
-- The formatting of lib/printk.c at concrete values.
use obsidian_kernel.Base.{
  ℕ, ◌-◌, ◌<◌, ◌^◌, List, [], map, ◌∷◌, ◌++◌, some, true, false, ◌≡◌, refl, min, length, get_or,
  replicate, arith,
}
use obsidian_kernel.Printk.{ob_puts, finish, digits_loop, number, emit_num_text}
use obsidian_kernel.Printk.Format.{kvsnprintf, string_arg, printed, undefined}
use obsidian_kernel.Printk.Format.Pieces.{
  Piece, literal, directed, left, zeros, long_mod, decimal, upper_hex,
}
use obsidian_kernel.Printk.Format.Strings.{empty_out, kvsnprintf-second_string}
use obsidian_kernel.Printk.Buffer.{out, finish-ob_puts}
use obsidian_kernel.Printk.Number.{read, read-number}

-- The pattern of -42 with the format "%06ld": the sign is put out twice.
signs : emit_num_text (2 ^ 64 - 42) 10 false true 6 true false ≡ 45 ∷ 48 ∷ 48 ∷ 45 ∷ 52 ∷ 50 ∷ []
unfolding emit_num_text number digits_loop
signs = refl

-- The same with "%-6ld": one space is missing.
pads : emit_num_text (2 ^ 64 - 42) 10 false true 6 false true ≡ 45 ∷ 52 ∷ 50 ∷ 32 ∷ 32 ∷ []
unfolding emit_num_text number digits_loop
pads = refl

abbrev hello : List ℕ
hello = 104 ∷ 101 ∷ 108 ∷ 108 ∷ 111 ∷ []

finish-ob_puts_example :
    (c : List ℕ) × (finish (ob_puts hello (out (replicate 4 170) 4 0)) ≡ out c 4 5)
    × (length c ≡ 4)
    × ((i : ℕ) → i < min 5 (4 - 1) → get_or c i 0 ≡ get_or hello i 0)
    × (get_or c (min 5 (4 - 1)) 0 ≡ 0)
finish-ob_puts_example = finish-ob_puts hello (replicate 4 170) 4 refl (omega arith) (omega arith)

read-number_example : read 16 0 (number 48879 16 true false) ≡ 48879
read-number_example = read-number 48879 16 true (omega arith) (omega arith) (omega arith)

-- "hello %-5ld|%08X", with -42 and 48879.
abbrev pieces : List Piece
pieces =
    map literal hello
    ++ (literal 32
        ∷ directed (record {
          flags = left ∷ [];
          width = 53 ∷ [];
          modifiers = long_mod ∷ [];
          conversion = decimal (2 ^ 64 - 42);
        })
        ∷ literal 124
        ∷ directed (record {
          flags = zeros ∷ [];
          width = 56 ∷ [];
          modifiers = [];
          conversion = upper_hex 48879;
        })
        ∷ [])

kvsnprintf-second_string_example :
    (kvsnprintf (some (replicate 9 0)) 9 (hello ++ 37 ∷ 115 ∷ []) (string_arg (some (97 ∷ [])) ∷ [])
      ≡ undefined)
    × (kvsnprintf
          (some (replicate 9 0))
          9
          (hello ++ 37 ∷ 115 ∷ [])
          (string_arg (some (97 ∷ [])) ∷ string_arg (some (98 ∷ [])) ∷ [])
        ≡ printed (finish (ob_puts (98 ∷ []) (ob_puts hello (empty_out (some (replicate 9 0)) 9)))))
kvsnprintf-second_string_example =
    kvsnprintf-second_string (some (replicate 9 0)) 9 hello (97 ∷ []) (98 ∷ []) (ground arith)
