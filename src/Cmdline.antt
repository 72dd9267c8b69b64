-- ===== src/Cmdline.antt =====
-- init/cmdline.c: the stored command line and the searches for a flag and for a value in it. The line is a C string, and
-- a position in it is what is left of it. The loop over the tokens takes fuel, one round for each
-- character and one more, and `none` says that the fuel ran out: a round consumes a character.
pub mod Words
pub mod Flag
pub mod Value
mod Tests
use obsidian_kernel.Base.{
  ℕ, zero, suc, ◌+◌, ◌-◌, ◌==◌, ◌||◌, ◌&&◌, Bool, true, false, List, [], ◌∷◌, Option, none, some,
  if◌then◌else◌, length, take, is_null,
}
use obsidian_kernel.Str.{k_strlen, k_strncmp, k_strstr, is_zero}

abbrev pub cmdline_max : ℕ
cmdline_max = 512

pub data Action : Type 0 where
  action_none : Action
  action_version : Action

pub record Cmdline : Type 0 where
  pub line : List ℕ
  pub action : Action

-- "version"
abbrev pub version_word : List ℕ
version_word = 118 ∷ 101 ∷ 114 ∷ 115 ∷ 105 ∷ 111 ∷ 110 ∷ []

pub cmdline_parse : Option (List ℕ) → Cmdline
cmdline_parse none = record { line = []; action = action_none }
cmdline_parse (some cmdline) =
    let line = take (cmdline_max - 1) cmdline in
    record {
      line = line;
      action = if is_null (k_strstr line version_word) then action_none else action_version;
    }

-- `while (*p == ' ') p++;`
pub skip_spaces : List ℕ → List ℕ
skip_spaces [] = []
skip_spaces (c ∷ p) = let rest = skip_spaces p in if c == 32 then rest else c ∷ p

-- `while (*p && *p != ' ' && *p != '=') p++;`: the characters passed, and where `p` stops.
pub key : List ℕ → List ℕ
key [] = []
key (c ∷ p) = let rest = key p in if c == 32 || c == 61 then [] else c ∷ rest

pub after_key : List ℕ → List ℕ
after_key [] = []
after_key (c ∷ p) = let rest = after_key p in if c == 32 || c == 61 then c ∷ p else rest

-- `while (*p && *p != ' ') p++;`
pub after_word : List ℕ → List ℕ
after_word [] = []
after_word (c ∷ p) = let rest = after_word p in if c == 32 then c ∷ p else rest

-- Whether the token at `tok` has this key: `p - tok` is its length.
pub matches : List ℕ → List ℕ → Bool
matches tok name = length (key tok) == k_strlen name && is_zero (k_strncmp tok name (k_strlen name))

-- A round of the loop, from the token on.
pub flag_loop : ℕ → List ℕ → List ℕ → Option Bool
flag_loop zero p name = none
flag_loop (suc fuel) p name =
    let tok = skip_spaces p in
    let rest = flag_loop fuel (after_word (after_key tok)) name in
    if length tok == 0 then some false else if matches tok name then some true else rest

pub cmdline_flag : List ℕ → Cmdline → Option Bool
cmdline_flag name c = flag_loop (length c.line + 1) c.line name

-- What is left of the round behind a token's key: `next` goes on from a position. A value is the line
-- from behind the `=` on.
pub value_at : Bool → (List ℕ → Option (Option (List ℕ))) → List ℕ → Option (Option (List ℕ))
value_at match next [] = let rest = next [] in if match then some (some []) else rest
value_at match next (c ∷ val) =
    let behind = next (after_word val) in
    let rest = next (c ∷ val) in
    if c == 61
    then (if match then some (some val) else behind)
    else (if match then some (some []) else rest)

pub value_loop : ℕ → List ℕ → List ℕ → Option (Option (List ℕ))
value_loop zero p name = none
value_loop (suc fuel) p name =
    let tok = skip_spaces p in
    let rest = value_at (matches tok name) (λ q. value_loop fuel q name) (after_key tok) in
    if length tok == 0 then some none else rest

-- `NULL` is `none`.
pub cmdline_value : List ℕ → Cmdline → Option (Option (List ℕ))
cmdline_value name c = value_loop (length c.line + 1) c.line name
