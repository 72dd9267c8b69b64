-- ===== src/Cmdline/Flag.antt =====
-- `cmdline_flag` finds the words with a key.
use obsidian_kernel.Base.{
  ℕ, zero, suc, ◌+◌, ◌<◌, ◌≤◌, ◌==◌, ◌&&◌, Bool, true, false, List, [], ◌∷◌, some, length, take,
  ◌≡◌, ◌≢◌, ◌⊎◌, ◌↔◌, ◌∙◌, inl, inr, refl, ap, sym, subst, Bool-cases, ==_iff, arith,
}
use obsidian_kernel.Str.{IsString, k_strncmp, is_zero}
use obsidian_kernel.Str.Compare.{k_strncmp_iff}
use obsidian_kernel.Str.Search.{k_strlen_lem, take_all, is_zero_iff, true-false}
use obsidian_kernel.Cmdline.{
  Cmdline, skip_spaces, key, after_word, matches, flag_loop, cmdline_flag,
}
use obsidian_kernel.Cmdline.Words.{
  word, words, words-skip_spaces, words-word, after_word-after_key, length-after_letter, key-word,
  take-key, length-skip_spaces, skip_spaces-cases, skip_spaces-IsString, after_word-IsString,
}

-- Some word has this key.
abbrev pub HasKey : List ℕ → List (List ℕ) → Type 0
HasKey name [] = ⊥
HasKey name (w ∷ ws) = (key w ≡ name) ⊎ HasKey name ws

both : (a b : Bool) → (a && b) ≡ true → (a ≡ true) × (b ≡ true)
both true true e = (refl, refl)
both true false e = grind arith
both false b e = grind arith

matches_iff :
    (tok name : List ℕ)
    → IsString tok
    → IsString name
    → (matches tok name ≡ true) ↔ (key tok ≡ name)
unfolding matches
matches_iff tok name s t =
    let n = k_strlen_lem name in
    let prefix = k_strncmp_iff tok name (length name) s t in
    let test = is_zero_iff (k_strncmp tok name (length name)) in
    rw n (
      (λ e.
          let (same, zero_test) =
            both (length (key tok) == length name) (is_zero (k_strncmp tok name (length name))) e in
          let len = (==_iff (length (key tok)) (length name)).0 same in
          sym (take-key tok)
          ∙ ap (λ i. take i tok) len
          ∙ prefix.0 (test.0 zero_test)
          ∙ take_all name),
      (λ e.
          let len : length (key tok) ≡ length name = ap length e in
          let same = (==_iff (length (key tok)) (length name)).1 len in
          let zero_test =
            test.1 (
              prefix.1 (ap (λ i. take i tok) (sym len) ∙ take-key tok ∙ e ∙ sym (take_all name))) in
          rw (same, zero_test) refl),
    )

step_end :
    (fuel : ℕ) (p name : List ℕ) → skip_spaces p ≡ [] → flag_loop (suc fuel) p name ≡ some false
unfolding flag_loop
step_end fuel p name e = rw e refl

step_hit :
    (fuel : ℕ) (p name : List ℕ) (c : ℕ) (q : List ℕ)
    → skip_spaces p ≡ c ∷ q
    → matches (c ∷ q) name ≡ true
    → flag_loop (suc fuel) p name ≡ some true
unfolding flag_loop
step_hit fuel p name c q e m = rw e (rw m (grind arith))

step_miss :
    (fuel : ℕ) (p name : List ℕ) (c : ℕ) (q : List ℕ)
    → skip_spaces p ≡ c ∷ q
    → matches (c ∷ q) name ≡ false
    → flag_loop (suc fuel) p name ≡ flag_loop fuel (after_word (c ∷ q)) name
unfolding flag_loop
step_miss fuel p name c q e m = rw e (rw (m, after_word-after_key (c ∷ q)) (grind arith))

words-token :
    (p : List ℕ) (c : ℕ) (q : List ℕ)
    → skip_spaces p ≡ c ∷ q
    → c ≢ 32
    → words p ≡ word (c ∷ q) ∷ words (after_word (c ∷ q))
words-token p c q e n = sym (words-skip_spaces p) ∙ ap words e ∙ words-word c q n

words_end : words [] ≡ []
unfolding words
words_end = refl

-- A round at a token, from the result for the line after its word.
on_token :
    (fuel : ℕ) (p name : List ℕ) (c : ℕ) (q : List ℕ)
    → skip_spaces p ≡ c ∷ q
    → c ≢ 32
    → ((matches (c ∷ q) name ≡ true) ↔ (key (c ∷ q) ≡ name))
    → (b : Bool) × (flag_loop fuel (after_word (c ∷ q)) name ≡ some b)
      × ((b ≡ true) ↔ HasKey name (words (after_word (c ∷ q))))
    → (b : Bool) × (flag_loop (suc fuel) p name ≡ some b) × ((b ≡ true) ↔ HasKey name (words p))
on_token fuel p name c q e n m (b, r, (to, from)) =
    let here = key-word (c ∷ q) in
    rw (words-token p c q e n) (elim (Bool-cases (matches (c ∷ q) name)) [
      | inl hit ↦ (true, step_hit fuel p name c q e hit, ((λ x. inl (here ∙ m.0 hit)), (λ k. refl)))
      | inr miss ↦ (
        b,
        step_miss fuel p name c q e miss ∙ r,
        (
          (λ x. inr (to x)),
          (λ k. elim k [
            | inl found ↦ absurd (true-false (sym (m.1 (sym here ∙ found)) ∙ miss))
            | inr later ↦ from later
          ]),
        ),
      )
    ])

-- On a C string the loop ends with fuel above the length, and says whether some word has the key.
flag_loop-HasKey :
    (fuel : ℕ) (p name : List ℕ)
    → length p < fuel
    → IsString p
    → IsString name
    → (b : Bool) × (flag_loop fuel p name ≡ some b) × ((b ≡ true) ↔ HasKey name (words p))
flag_loop-HasKey zero p name h s t = absurd (omega arith)
flag_loop-HasKey (suc fuel) p name h s t = elim (skip_spaces-cases p) [
  | inl e ↦
      (let none_left : words p ≡ [] = sym (words-skip_spaces p) ∙ ap words e ∙ words_end in
        (
          false,
          step_end fuel p name e,
          (grind arith, (λ k. absurd (subst (HasKey name) none_left k))),
        ))
  | inr (c, q, e, n) ↦
      (let u : IsString (c ∷ q) = subst IsString e (skip_spaces-IsString p s) in
        let shorter : length (after_word (c ∷ q)) ≤ length q =
          subst (λ r. length r ≤ length q) (after_word-after_key (c ∷ q))
            (length-after_letter c q n) in
        let bound : length (c ∷ q) ≤ length p =
          subst (λ r. length r ≤ length p) e (length-skip_spaces p) in
        let rest =
          flag_loop-HasKey fuel (after_word (c ∷ q)) name (omega arith)
            (after_word-IsString (c ∷ q) u) t in
        on_token fuel p name c q e n (matches_iff (c ∷ q) name u t) rest)
]

-- For a stored line and a name that are C strings `cmdline_flag` returns, and says yes exactly if some
-- word of the line is that name up to its first `=`.
pub cmdline_flag-HasKey :
    (name : List ℕ) (c : Cmdline)
    → IsString c.line
    → IsString name
    → (b : Bool) × (cmdline_flag name c ≡ some b) × ((b ≡ true) ↔ HasKey name (words c.line))
unfolding cmdline_flag
cmdline_flag-HasKey name c s t = flag_loop-HasKey (length c.line + 1) c.line name (omega arith) s t
