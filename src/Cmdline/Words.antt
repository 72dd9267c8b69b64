-- ===== src/Cmdline/Words.antt =====
-- `cmdline_flag` against the words of the line.
use obsidian_kernel.Base.{
  ℕ, ◌≤◌, ◌==◌, ◌||◌, List, [], ◌∷◌, if◌then◌else◌, length, take, ◌≡◌, ◌≢◌, ◌⊎◌, inl, inr, refl,
  Bool-cases, arith,
}
use obsidian_kernel.Str.{IsString}
use obsidian_kernel.Cmdline.{skip_spaces, key, after_key, after_word}

-- The words of a line, which spaces separate.
prepend : ℕ → List (List ℕ) → List (List ℕ)
prepend c [] = (c ∷ []) ∷ []
prepend c (w ∷ ws) = (c ∷ w) ∷ ws

put_letter : ℕ → List ℕ → List (List ℕ) → List (List ℕ)
unfolding prepend
put_letter c [] ws = (c ∷ []) ∷ ws
put_letter c (d ∷ p) ws = if d == 32 then (c ∷ []) ∷ ws else prepend c ws

unfoldable pub words : List ℕ → List (List ℕ)
unfolding put_letter
words [] = []
words (c ∷ p) = let rest = words p in if c == 32 then rest else put_letter c p rest

-- The first word of a line that begins with one.
pub word : List ℕ → List ℕ
word [] = []
word (c ∷ p) = let rest = word p in if c == 32 then [] else c ∷ rest

pub words-skip_spaces : (p : List ℕ) → words (skip_spaces p) ≡ words p
unfolding words skip_spaces
words-skip_spaces [] = refl
words-skip_spaces (c ∷ p) = grind (arith, words-skip_spaces p)

pub words-word :
    (c : ℕ) (p : List ℕ) → c ≢ 32 → words (c ∷ p) ≡ word (c ∷ p) ∷ words (after_word (c ∷ p))
unfolding words word after_word put_letter prepend
words-word c [] h = grind arith
words-word c (d ∷ p) h = elim (Bool-cases (d == 32)) [
  | inl e ↦ grind (arith, e)
  | inr e ↦ grind (arith, e, words-word d p (ground arith))
]

pub after_word-after_key : (p : List ℕ) → after_word (after_key p) ≡ after_word p
unfolding after_word after_key
after_word-after_key [] = refl
after_word-after_key (c ∷ p) = grind (arith, after_word-after_key p)

length-after_word : (p : List ℕ) → length (after_word p) ≤ length p
unfolding after_word
length-after_word [] = omega arith
length-after_word (c ∷ p) = grind (arith, length-after_word p)

pub length-skip_spaces : (p : List ℕ) → length (skip_spaces p) ≤ length p
unfolding skip_spaces
length-skip_spaces [] = omega arith
length-skip_spaces (c ∷ p) = grind (arith, length-skip_spaces p)

-- Passing a letter of a token shortens the line.
pub length-after_letter :
    (c : ℕ) (p : List ℕ) → c ≢ 32 → length (after_word (after_key (c ∷ p))) ≤ length p
unfolding after_word
length-after_letter c p h = rw after_word-after_key (grind (arith, length-after_word p))

pub key-word : (p : List ℕ) → key (word p) ≡ key p
unfolding key word
key-word [] = refl
key-word (c ∷ p) = grind (arith, key-word p)

-- What a token begins with.
pub take-key : (p : List ℕ) → take (length (key p)) p ≡ key p
unfolding key
take-key [] = refl
take-key (c ∷ p) = elim (Bool-cases (c == 32 || c == 61)) [
  | inl e ↦ grind (arith, e)
  | inr e ↦ grind (arith, e, take-key p)
]

pub skip_spaces-cases :
    (p : List ℕ)
    → (skip_spaces p ≡ []) ⊎ ((c : ℕ) × (q : List ℕ) × (skip_spaces p ≡ c ∷ q) × (c ≢ 32))
unfolding skip_spaces
skip_spaces-cases [] = inl refl
skip_spaces-cases (c ∷ p) = elim (Bool-cases (c == 32)) [
  | inl e ↦ rw e (skip_spaces-cases p)
  | inr e ↦ inr (c, p, ground arith, ground arith)
]

pub skip_spaces-IsString : (p : List ℕ) → IsString p → IsString (skip_spaces p)
unfolding skip_spaces
skip_spaces-IsString [] s = s
skip_spaces-IsString (c ∷ p) s = elim (Bool-cases (c == 32)) [
  | inl e ↦ rw e (skip_spaces-IsString p s.2)
  | inr e ↦ rw e s
]

pub after_word-IsString : (p : List ℕ) → IsString p → IsString (after_word p)
unfolding after_word
after_word-IsString [] s = s
after_word-IsString (c ∷ p) s = elim (Bool-cases (c == 32)) [
  | inl e ↦ rw e s
  | inr e ↦ rw e (after_word-IsString p s.2)
]
