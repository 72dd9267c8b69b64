-- ===== src/Cmdline/Value.antt =====
-- `cmdline_value` finds a value exactly for the flags.
use obsidian_kernel.Base.{
  ℕ, zero, suc, ◌+◌, ◌==◌, ◌||◌, Bool, true, false, List, [], ◌∷◌, Option, none, some, length, ◌≡◌,
  ◌⊎◌, ◌∙◌, inl, inr, refl, sym, Bool-cases, ==_iff,
}
use obsidian_kernel.Cmdline.{
  Cmdline, skip_spaces, after_key, after_word, matches, flag_loop, cmdline_flag, value_at,
  value_loop, cmdline_value,
}

-- Whether a value was found.
abbrev pub is_found : Option (Option (List ℕ)) → Option Bool
is_found none = none
is_found (some none) = some false
is_found (some (some val)) = some true

-- A key ends at the end of the line, at a space or at a `=`.
after_key_stops :
    (p : List ℕ)
    → (after_key p ≡ [])
      ⊎ ((c : ℕ) × (q : List ℕ) × (after_key p ≡ c ∷ q) × ((c == 32 || c == 61) ≡ true))
unfolding after_key
after_key_stops [] = inl refl
after_key_stops (c ∷ p) = elim (Bool-cases (c == 32 || c == 61)) [
  | inl a ↦ inr (c, p, rw a refl, a)
  | inr a ↦ rw a (after_key_stops p)
]

value_at-hit :
    (next : List ℕ → Option (Option (List ℕ))) (p : List ℕ)
    → is_found (value_at true next p) ≡ some true
unfolding value_at
value_at-hit next [] = refl
value_at-hit next (c ∷ val) = elim (Bool-cases (c == 61)) [ inl a ↦ rw a refl | inr a ↦ rw a refl ]

left_true : (a b : Bool) → (a || b) ≡ true → b ≡ false → a ≡ true
left_true true b h k = refl
left_true false b h k = sym k ∙ h

-- A round that does not match goes on behind the word.
value_at-miss :
    (next : List ℕ → Option (Option (List ℕ))) (p : List ℕ)
    → (p ≡ []) ⊎ ((c : ℕ) × (q : List ℕ) × (p ≡ c ∷ q) × ((c == 32 || c == 61) ≡ true))
    → value_at false next p ≡ next (after_word p)
unfolding value_at after_word
value_at-miss next p (inl e) = rw e refl
value_at-miss next p (inr (c, q, e, stop)) = rw e (elim (Bool-cases (c == 61)) [
  | inl a ↦ let equals : c ≡ 61 = (==_iff c 61).0 a in rw equals refl
  | inr a ↦
      let space : (c == 32) ≡ true = left_true (c == 32) (c == 61) stop a in rw (a, space) refl
])

value_loop-flag_loop :
    (fuel : ℕ) (p name : List ℕ) → is_found (value_loop fuel p name) ≡ flag_loop fuel p name
unfolding value_loop flag_loop
value_loop-flag_loop zero p name = refl
value_loop-flag_loop (suc fuel) p name =
    let tok = skip_spaces p in
    let next : List ℕ → Option (Option (List ℕ)) = λ q. value_loop fuel q name in
    elim (Bool-cases (length tok == 0)) [
      | inl a ↦ rw a refl
      | inr a ↦ elim (Bool-cases (matches tok name)) [
        | inl m ↦ rw (a, m) (value_at-hit next (after_key tok))
        | inr m ↦
            rw (a, m, value_at-miss next (after_key tok) (after_key_stops tok))
              (value_loop-flag_loop fuel (after_word (after_key tok)) name)
      ]
    ]

-- For every stored line and every name `cmdline_value` returns a value exactly if `cmdline_flag`
-- returns true.
pub cmdline_value-cmdline_flag :
    (name : List ℕ) (c : Cmdline) → is_found (cmdline_value name c) ≡ cmdline_flag name c
unfolding cmdline_value cmdline_flag
cmdline_value-cmdline_flag name c = value_loop-flag_loop (length c.line + 1) c.line name
