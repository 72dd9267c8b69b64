-- ===== src/Ramfs/Volume.antt =====
-- The file system as a list of names with contents, in the order of creation: the array of files
-- holds them in its first places, since no file is ever removed.
use obsidian_kernel.Base.{
  ℕ, zero, suc, ◌<◌, ◌==◌, ltb, Bool, true, false, List, [], ◌∷◌, ◌++◌, Option, none, some,
  if◌then◌else◌, ◌&&◌, replicate, take, set, get_or, length, map, ◌≡◌, ◌↔◌, ◌∙◌, inl, inr, refl, ap,
  sym, arith, Bool-cases, ==_iff, ne→==, ltb→lt,
}
use obsidian_kernel.Str.{IsString, k_strcmp, k_strncpy, is_zero}
use obsidian_kernel.Str.Compare.{k_strcmp_iff}
use obsidian_kernel.Str.Search.{is_zero_iff}
use obsidian_kernel.Ramfs.{
  File, zero_file, block_of, chars, lookup_loop, free_slot, created, list_loop,
}

-- A name, and the contents of its file if it was written.
abbrev pub Entry : Type 0
Entry = List ℕ × Option (List ℕ)

abbrev pub bytes_in : Option (List ℕ) → ℕ
bytes_in o = length (block_of o)

abbrev pub file_of : Entry → File
file_of e = record {
  name = k_strncpy e.0 31 ++ 0 ∷ [];
  content = e.1;
  size = bytes_in e.1;
  used = true;
}

-- The array of files that holds the entries.
abbrev pub slots : ℕ → List Entry → List File
slots room a = map file_of a ++ replicate room zero_file

abbrev pub IsEntry : Entry → Type 0
IsEntry e = IsString e.0 × (length e.0 < 32)

abbrev pub AreEntries : List Entry → Type 0
AreEntries [] = Unit {0}
AreEntries (e ∷ a) = IsEntry e × AreEntries a

-- Equal strings.
abbrev pub same : List ℕ → List ℕ → Bool
same [] [] = true
same [] (y ∷ t) = false
same (x ∷ s) [] = false
same (x ∷ s) (y ∷ t) = (x == y) && same s t

-- The contents of the file with a name.
abbrev pub find : List ℕ → List Entry → Option (Option (List ℕ))
find want [] = none
find want (e ∷ a) = if same e.0 want then some e.1 else find want a

-- The entries with new contents for a name.
abbrev pub put : List ℕ → List ℕ → List Entry → List Entry
put want bytes [] = []
put want bytes (e ∷ a) = if same e.0 want then (e.0, some bytes) ∷ a else e ∷ put want bytes a

chars-k_strncpy :
    (s : List ℕ) (n : ℕ) → IsString s → length s < suc n → chars (k_strncpy s n ++ 0 ∷ []) ≡ s
unfolding chars k_strncpy
chars-k_strncpy [] zero ok lt = refl
chars-k_strncpy [] (suc n) ok lt = refl
chars-k_strncpy (x ∷ s) zero ok lt = grind (arith, lt)
chars-k_strncpy (x ∷ s) (suc n) ok lt =
    rw (ne→== x 0 ok.0, chars-k_strncpy s n ok.2 (omega (arith, lt))) refl

pub same_iff : (s t : List ℕ) → (same s t ≡ true) ↔ (s ≡ t)
same_iff [] [] = grind arith
same_iff [] (y ∷ t) = grind arith
same_iff (x ∷ s) [] = grind arith
same_iff (x ∷ s) (y ∷ t) = grind (arith, same_iff s t, ==_iff x y)

bool_ext : (a b : Bool) → (a ≡ true) ↔ (b ≡ true) → a ≡ b
bool_ext true true h = refl
bool_ext true false h = sym (h.0 refl)
bool_ext false true h = h.1 refl
bool_ext false false h = refl

k_strcmp-same : (s t : List ℕ) → IsString s → IsString t → is_zero (k_strcmp s t) ≡ same s t
k_strcmp-same s t p q =
    let test = is_zero_iff (k_strcmp s t) in
    let equal = k_strcmp_iff s t p q in
    let spec = same_iff s t in
    bool_ext (is_zero (k_strcmp s t)) (same s t)
      ((λ h. spec.1 (equal.0 (test.0 h))), (λ h. test.1 (equal.1 (spec.0 h))))

-- The test of a file that is in use.
name_test :
    (e : Entry) (want : List ℕ)
    → IsEntry e
    → IsString want
    → is_zero (k_strcmp (chars (file_of e).name) want) ≡ same e.0 want
name_test e want ok str = rw (chars-k_strncpy e.0 31 ok.0 ok.1) (k_strcmp-same e.0 want ok.0 str)

lookup_none : (want : List ℕ) (room : ℕ) → lookup_loop want (replicate room zero_file) ≡ none
unfolding lookup_loop
lookup_none want zero = refl
lookup_none want (suc room) = rw (lookup_none want room) refl

-- The file of a name is not there, or it stands in some place.
pub data Found (want : List ℕ) (room : ℕ) (a : List Entry) : Type 0 where
  absent : lookup_loop want (slots room a) ≡ none → find want a ≡ none → Found want room a
  present :
      (i : ℕ) (o : Option (List ℕ))
      → lookup_loop want (slots room a) ≡ some i
      → find want a ≡ some o
      → get_or (slots room a) i zero_file ≡ file_of (want, o)
      → ((bytes : List ℕ)
          → set (slots room a) i (file_of (want, some bytes)) ≡ slots room (put want bytes a))
      → Found want room a

pub found :
    (want : List ℕ) (room : ℕ) (a : List Entry) → AreEntries a → IsString want → Found want room a
unfolding lookup_loop
found want room [] ok str = absent (lookup_none want room) refl
found want room (e ∷ a) ok str = elim (Bool-cases (same e.0 want)) [
  | inl hit ↦
      let test = name_test e want ok.0 str in
      let eq = (same_iff e.0 want).0 hit in
      present 0 e.1 (rw (test, hit) refl) (rw hit refl) (ap (λ n. file_of (n, e.1)) eq)
        (λ bytes. rw hit (ap (λ n. file_of (n, some bytes) ∷ slots room a) (sym eq)))
  | inr miss ↦ extended e a (name_test e want ok.0 str ∙ miss) miss (found want room a ok.1 str)
]
  where
    extended :
        (e : Entry) (a : List Entry)
        → is_zero (k_strcmp (chars (file_of e).name) want) ≡ false
        → same e.0 want ≡ false
        → Found want room a
        → Found want room (e ∷ a)
    extended e a test miss (absent none_l none_f) =
        absent (rw (test, none_l) refl) (rw (miss, none_f) refl)
    extended e a test miss (present i o l f g s) =
        present (suc i) o (rw (test, l) refl) (rw (miss, f) refl) g
          (λ bytes. rw miss (ap (λ files. file_of e ∷ files) (s bytes)))

pub free_slot-full : (a : List Entry) → free_slot (slots 0 a) ≡ none
unfolding free_slot
free_slot-full [] = refl
free_slot-full (e ∷ a) = rw (free_slot-full a) refl

pub free_slot-room : (room : ℕ) (a : List Entry) → free_slot (slots (suc room) a) ≡ some (length a)
unfolding free_slot
free_slot-room room [] = refl
free_slot-room room (e ∷ a) = rw (free_slot-room room a) refl

-- The file that is created stands behind those that are there.
pub set-created :
    (want : List ℕ) (room : ℕ) (a : List Entry)
    → set
        (slots (suc room) a)
        (length a)
        (created want (get_or (slots (suc room) a) (length a) zero_file))
      ≡ slots room (a ++ (want, none) ∷ [])
set-created want room [] = refl
set-created want room (e ∷ a) = ap (λ files. file_of e ∷ files) (set-created want room a)

take_past : (b : List ℕ) (m : ℕ) → length b < m → take (length b) b ≡ take m b
take_past [] zero lt = refl
take_past [] (suc m) lt = refl
take_past (x ∷ b) zero lt = grind (arith, lt)
take_past (x ∷ b) (suc m) lt = ap (λ s. x ∷ s) (take_past b m (omega (arith, lt)))

pub take_least : (b : List ℕ) (m : ℕ) → take (if ltb (length b) m then length b else m) b ≡ take m b
take_least b m = elim (Bool-cases (ltb (length b) m)) [
  | inl a ↦ rw a (take_past b m (ltb→lt (length b) m a))
  | inr a ↦ rw a refl
]

list_loop_zero : (room max : ℕ) → list_loop (replicate room zero_file) max ≡ []
unfolding list_loop
list_loop_zero zero max = refl
list_loop_zero (suc room) zero = refl
list_loop_zero (suc room) (suc max) = list_loop_zero room (suc max)

pub list_loop-slots :
    (room : ℕ) (a : List Entry) (max : ℕ)
    → AreEntries a
    → list_loop (slots room a) max ≡ map (λ e. k_strncpy e.0 31) (take max a)
unfolding list_loop
list_loop-slots room [] zero ok = list_loop_zero room 0
list_loop-slots room [] (suc max) ok = list_loop_zero room (suc max)
list_loop-slots room (e ∷ a) zero ok = refl
list_loop-slots room (e ∷ a) (suc max) ok =
    rw (chars-k_strncpy e.0 31 ok.0.0 ok.0.1, list_loop-slots room a max ok.1) refl
