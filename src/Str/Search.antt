-- ===== src/Str/Search.antt =====
-- `k_strstr` finds the first place where the needle stands.
use obsidian_kernel.Base.{
  ℕ, zero, suc, ◌<◌, List, [], ◌∷◌, ◌≡◌, ◌≢◌, ◌↔◌, ◌∙◌, refl, ap, sym, take, drop, length, Option,
  none, some, Bool, true, false, ℤ, pos, negsuc, arith,
}
use obsidian_kernel.Str.{IsString, k_strlen, k_strncmp, is_zero, strstr_loop, k_strstr}
use obsidian_kernel.Str.Compare.{k_strncmp_iff}

-- The needle stands at the start of the string.
abbrev pub StartsWith : List ℕ → List ℕ → Type 0
StartsWith s needle = take (length needle) s ≡ needle

-- What a search returns: NULL if the needle starts at no character, else the rest of the string
-- from the first character where it starts.
abbrev pub IsFound : List ℕ → List ℕ → Option (List ℕ) → Type 0
IsFound hay needle none = (i : ℕ) → i < length hay → take (length needle) (drop i hay) ≢ needle
IsFound hay needle (some s) =
    (i : ℕ) × (i < length hay)
    × (s ≡ drop i hay)
    × StartsWith s needle
    × ((j : ℕ) → j < i → take (length needle) (drop j hay) ≢ needle)

pub k_strlen_lem : (s : List ℕ) → k_strlen s ≡ length s
unfolding k_strlen
k_strlen_lem [] = refl
k_strlen_lem (c ∷ s) = ap suc (k_strlen_lem s)

pub take_all : (s : List ℕ) → take (length s) s ≡ s
take_all [] = refl
take_all (c ∷ s) = ap (c ∷◌) (take_all s)

pub is_zero_iff : (z : ℤ) → (is_zero z ≡ true) ↔ (z ≡ pos 0)
is_zero_iff (pos zero) = ((λ e. refl), (λ e. refl))
is_zero_iff (pos (suc n)) = grind arith
is_zero_iff (negsuc n) = grind arith

pub true-false : true ≢ false
true-false e = grind arith

later :
    (x : ℕ) (hay needle : List ℕ) (r : Option (List ℕ))
    → take (length needle) (x ∷ hay) ≢ needle
    → IsFound hay needle r
    → IsFound (x ∷ hay) needle r
later x hay needle none n f = go
  where
    go : (i : ℕ) → i < suc (length hay) → take (length needle) (drop i (x ∷ hay)) ≢ needle
    go zero h = n
    go (suc i) h = f i (omega arith)
later x hay needle (some s) n (i, b, e, p, none_before) = (suc i, omega arith, e, p, go)
  where
    go : (j : ℕ) → j < suc i → take (length needle) (drop j (x ∷ hay)) ≢ needle
    go zero h = n
    go (suc j) h = none_before j (omega arith)

strstr_loop-IsFound :
    (hay needle : List ℕ)
    → IsString hay
    → IsString needle
    → IsFound hay needle (strstr_loop hay needle (length needle))
unfolding strstr_loop
strstr_loop-IsFound [] needle s t = λ i h. absurd (omega arith)
strstr_loop-IsFound (x ∷ hay) needle s t =
    by_test (is_zero test) refl (strstr_loop-IsFound hay needle s.2 t)
  where
    test : ℤ
    test = k_strncmp (x ∷ hay) needle (length needle)

    differs : is_zero test ≡ false → take (length needle) (x ∷ hay) ≢ needle
    differs e p = true-false (
        sym (
          (is_zero_iff test).1
            ((k_strncmp_iff (x ∷ hay) needle (length needle) s t).1 (p ∙ sym (take_all needle))))
        ∙ e)

    by_test :
        (b : Bool)
        → is_zero test ≡ b
        → IsFound hay needle (strstr_loop hay needle (length needle))
        → IsFound (x ∷ hay) needle (strstr_loop (x ∷ hay) needle (length needle))
    by_test true e rest = rw e (
      0,
      omega arith,
      refl,
      (k_strncmp_iff (x ∷ hay) needle (length needle) s t).0 ((is_zero_iff test).0 e)
          ∙ take_all needle,
      (λ j h. absurd (omega arith)),
    )
    by_test false e rest =
        rw e (later x hay needle (strstr_loop hay needle (length needle)) (differs e) rest)

-- For C strings `k_strstr` returns NULL if the needle starts at no character of the string, else
-- the rest of the string from the first character where it starts.
pub k_strstr-IsFound :
    (hay needle : List ℕ)
    → IsString hay
    → IsString needle
    → IsFound hay needle (k_strstr hay needle)
unfolding k_strstr
k_strstr-IsFound hay needle s t = rw k_strlen_lem (strstr_loop-IsFound hay needle s t)
