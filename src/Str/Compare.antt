-- ===== src/Str/Compare.antt =====
-- The comparisons of lib/string.c decide equality of strings and of their prefixes.
use obsidian_kernel.Base.{ℕ, zero, suc, List, [], ◌∷◌, ◌≡◌, ◌↔◌, refl, take, pos, arith}
use obsidian_kernel.Str.{IsString, k_strcmp, k_strncmp}

-- For C strings `k_strcmp` returns 0 exactly if the strings are equal.
pub k_strcmp_iff : (a b : List ℕ) → IsString a → IsString b → (k_strcmp a b ≡ pos 0) ↔ (a ≡ b)
unfolding k_strcmp
k_strcmp_iff [] [] s t = ((λ e. refl), (λ e. refl))
k_strcmp_iff [] (y ∷ b) s t = grind arith
k_strcmp_iff (x ∷ a) [] s t = grind arith
k_strcmp_iff (x ∷ a) (y ∷ b) s t = grind (arith, k_strcmp_iff a b s.2 t.2)

-- For C strings `k_strncmp` returns 0 exactly if the first `n` characters of both, or all of them
-- up to the end, are equal.
pub k_strncmp_iff :
    (a b : List ℕ) (n : ℕ)
    → IsString a
    → IsString b
    → (k_strncmp a b n ≡ pos 0) ↔ (take n a ≡ take n b)
unfolding k_strncmp
k_strncmp_iff a b zero s t = ((λ e. refl), (λ e. refl))
k_strncmp_iff [] [] (suc n) s t = ((λ e. refl), (λ e. refl))
k_strncmp_iff [] (y ∷ b) (suc n) s t = grind arith
k_strncmp_iff (x ∷ a) [] (suc n) s t = grind arith
k_strncmp_iff (x ∷ a) (y ∷ b) (suc n) s t = grind (arith, k_strncmp_iff a b n s.2 t.2)
