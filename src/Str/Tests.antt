-- ===== src/Str/Tests.antt =====
-- The string functions at concrete strings.
use obsidian_kernel.Base.{
  if◌then◌else◌, ltb, none, pos, ◌^◌, ℕ, List, [], ◌∷◌, ◌≡◌, refl, some, arith,
}
use obsidian_kernel.Str.{
  IsString, k_strncmp, k_strstr, strstr_loop, k_strlen, k_itoa64, itoa_loop, k_atoi, atoi_loop,
}
use obsidian_kernel.Str.Search.{IsFound, k_strstr-IsFound}
use obsidian_kernel.Str.Number.{k_atoi-k_itoa64}

-- "abab" and "ba"
abbrev abab : List ℕ
abab = 97 ∷ 98 ∷ 97 ∷ 98 ∷ []

abbrev ba : List ℕ
ba = 98 ∷ 97 ∷ []

abab-IsString : IsString abab
abab-IsString = (
  omega arith,
  omega arith,
  (omega arith, omega arith, (omega arith, omega arith, (omega arith, omega arith, record {}))),
)

ba-IsString : IsString ba
ba-IsString = (omega arith, omega arith, (omega arith, omega arith, record {}))

found : k_strstr abab ba ≡ some (98 ∷ 97 ∷ 98 ∷ [])
unfolding k_strstr strstr_loop k_strncmp k_strlen
found = refl

written : k_itoa64 48879 16 ≡ 98 ∷ 101 ∷ 101 ∷ 102 ∷ []
unfolding k_itoa64 itoa_loop
written = refl

k_strstr-IsFound_example : IsFound abab ba (k_strstr abab ba)
k_strstr-IsFound_example = k_strstr-IsFound abab ba abab-IsString ba-IsString

k_atoi-k_itoa64_example :
    k_atoi (k_itoa64 90210 10) ≡ (if ltb 90210 (2 ^ 31) then some (pos 90210) else none)
k_atoi-k_itoa64_example = k_atoi-k_itoa64 90210 (omega arith)

-- "-2147483648" overflows before it is negated.
least_int : k_atoi (45 ∷ 50 ∷ 49 ∷ 52 ∷ 55 ∷ 52 ∷ 56 ∷ 51 ∷ 54 ∷ 52 ∷ 56 ∷ []) ≡ none
unfolding k_atoi atoi_loop
least_int = refl
