-- ===== src/Cmdline/Tests.antt =====
-- The flags of the line "q  root=a".
use obsidian_kernel.Base.{ℕ, List, [], ◌∷◌, Bool, true, some, ◌≡◌, ◌↔◌, refl, arith}
use obsidian_kernel.Str.{IsString}
use obsidian_kernel.Cmdline.{Cmdline, action_none, cmdline_flag, cmdline_value}
use obsidian_kernel.Cmdline.Value.{is_found, cmdline_value-cmdline_flag}
use obsidian_kernel.Cmdline.Words.{words}
use obsidian_kernel.Cmdline.Flag.{HasKey, cmdline_flag-HasKey}

abbrev root : List ℕ
root = 114 ∷ 111 ∷ 111 ∷ 116 ∷ []

abbrev stored : Cmdline
stored = record {
  line = 113 ∷ 32 ∷ 32 ∷ 114 ∷ 111 ∷ 111 ∷ 116 ∷ 61 ∷ 97 ∷ [];
  action = action_none;
}

stored-words : words stored.line ≡ (113 ∷ []) ∷ (114 ∷ 111 ∷ 111 ∷ 116 ∷ 61 ∷ 97 ∷ []) ∷ []
unfolding words
stored-words = refl

stored-IsString : IsString stored.line
stored-IsString = (
  omega arith,
  omega arith,
  (
    omega arith,
    omega arith,
    (
      omega arith,
      omega arith,
      (
        omega arith,
        omega arith,
        (
          omega arith,
          omega arith,
          (
            omega arith,
            omega arith,
            (
              omega arith,
              omega arith,
              (omega arith, omega arith, (omega arith, omega arith, record {})),
            ),
          ),
        ),
      ),
    ),
  ),
)

root-IsString : IsString root
root-IsString = (
  omega arith,
  omega arith,
  (omega arith, omega arith, (omega arith, omega arith, (omega arith, omega arith, record {}))),
)

cmdline_flag-HasKey_example :
    (b : Bool) × (cmdline_flag root stored ≡ some b)
    × ((b ≡ true) ↔ HasKey root (words stored.line))
cmdline_flag-HasKey_example = cmdline_flag-HasKey root stored stored-IsString root-IsString

cmdline_value-cmdline_flag_example : is_found (cmdline_value root stored) ≡ cmdline_flag root stored
cmdline_value-cmdline_flag_example = cmdline_value-cmdline_flag root stored
