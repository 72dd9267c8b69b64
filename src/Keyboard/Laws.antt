-- ===== src/Keyboard/Laws.antt =====
-- The ring buffer as the list of its unread characters, oldest first.
use obsidian_kernel.Base.{
  ℕ, zero, suc, ◌+◌, ◌-◌, ◌%◌, ◌<◌, List, [], ◌∷◌, Option, none, some, ◌≡◌, refl, ◌⊎◌, length,
  get_or, length-set, arith, subst, sym, u32,
}
use obsidian_kernel.Keyboard.{Keyboard, push_char, keyboard_try_getchar, buffer_size}

-- The indices are in range, and the buffer has its size.
abbrev pub IsRing : Keyboard → Type 0
IsRing k = (k.put_idx < buffer_size) × (k.get_idx < buffer_size) × (length k.keybuf ≡ buffer_size)

abbrev pub characters : ℕ → ℕ → List ℕ → List ℕ
characters zero i buf = []
characters (suc n) i buf = get_or buf i 0 ∷ characters n ((i + 1) % buffer_size) buf

abbrev pub pending : Keyboard → ℕ
pending k = (k.put_idx + buffer_size - k.get_idx) % buffer_size

unfoldable pub unread : Keyboard → List ℕ
unread k = characters (pending k) k.get_idx k.keybuf

-- What a read gives of the unread characters.
abbrev pub IsRead : List ℕ → Keyboard → Option ℕ × Keyboard → Type 0
IsRead [] k r = r ≡ (none, k)
IsRead (c ∷ cs) k r = (r.0 ≡ some c) × (unread r.1 ≡ cs) × IsRing r.1

IsRead-some :
    (k : Keyboard) (n : ℕ)
    → IsRing k
    → pending k ≡ suc n
    → IsRead (characters (suc n) k.get_idx k.keybuf) k (keyboard_try_getchar k)
unfolding keyboard_try_getchar unread
IsRead-some k n w e = ground (arith, shrinks)
  where
    less : ℕ
    less = (k.put_idx + buffer_size - u32 (k.get_idx + 1) % buffer_size) % buffer_size

    shrinks : less ≡ n
    shrinks = omega (arith, w, e)

-- `keyboard_try_getchar` takes the oldest unread character out, and on an empty buffer returns -1
-- and changes nothing.
pub keyboard_try_getchar-IsRead :
    (k : Keyboard) → IsRing k → IsRead (unread k) k (keyboard_try_getchar k)
unfolding unread keyboard_try_getchar
keyboard_try_getchar-IsRead k w = by_count (pending k) refl
  where
    by_count : (n : ℕ) → pending k ≡ n → IsRead (unread k) k (keyboard_try_getchar k)
    by_count zero e = grind (arith, e)
    by_count (suc n) e =
        subst (λ m. IsRead (characters m k.get_idx k.keybuf) k (keyboard_try_getchar k)) (sym e)
          (IsRead-some k n w e)

-- `push_char` never adds a character to the unread ones: it leaves them, or it loses them all.
pub push_char-unread :
    (c : ℕ) (k : Keyboard)
    → IsRing k
    → ((unread (push_char c k) ≡ unread k) ⊎ (unread (push_char c k) ≡ [])) × IsRing (push_char c k)
unfolding push_char unread
push_char-unread c k w = grind (arith, length-set k.keybuf k.put_idx c)
