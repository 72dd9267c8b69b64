-- ===== src/Keyboard/Dead.antt =====
-- After `keyboard_init` no character ever reaches a reader: `push_char` returns early exactly when
-- there is room.
use obsidian_kernel.Base.{
  ℕ, List, [], ◌∷◌, none, some, true, ◌≡◌, refl, inl, inr, Option-cases, arith,
}
use obsidian_kernel.Keyboard.{
  Keyboard, Interrupt, push_char, handle_extended, handle_press, handle_release, wait_ready,
  handle_scancode, keyboard_irq_handler, keyboard_try_getchar, keyboard_getchar, keyboard_init,
}

-- The indices as `keyboard_init` sets them.
abbrev pub IsReset : Keyboard → Type 0
IsReset k = (k.put_idx ≡ 0) × (k.get_idx ≡ 0)

push_char-IsReset : (c : ℕ) (k : Keyboard) → IsReset k → IsReset (push_char c k)
unfolding push_char
push_char-IsReset c k r = ground arith

handle_press-IsReset : (sc : ℕ) (k : Keyboard) → IsReset k → IsReset (handle_press sc k)
unfolding handle_press
handle_press-IsReset sc k r = grind (arith, push_char-IsReset)

handle_extended-IsReset : (sc : ℕ) (k : Keyboard) → IsReset k → IsReset (handle_extended sc k)
unfolding handle_extended
handle_extended-IsReset sc k r = grind (arith, push_char-IsReset)

handle_scancode-IsReset :
    (sc : ℕ) (statuses : List ℕ) (second : ℕ) (k n : Keyboard)
    → IsReset k
    → handle_scancode sc statuses second k ≡ some n
    → IsReset n
unfolding handle_scancode handle_release
handle_scancode-IsReset sc statuses second k n r e = elim (Option-cases (wait_ready statuses)) [
  | inl w ↦ grind (arith, w, handle_press-IsReset)
  | inr (rest, w) ↦ grind (arith, w, handle_press-IsReset, handle_extended-IsReset)
]

none_unread : (k : Keyboard) → IsReset k → keyboard_try_getchar k ≡ (none, k)
unfolding keyboard_try_getchar
none_unread k r = ground arith

never_read : (events : List Interrupt) (k : Keyboard) → IsReset k → keyboard_getchar events k ≡ none
unfolding keyboard_getchar keyboard_irq_handler
never_read [] k r = rw (none_unread k r) refl
never_read (i ∷ more) k r = elim (Option-cases (handle_scancode i.scancode i.statuses i.second k)) [
  | inl e ↦ grind (arith, e)
  | inr (n, e) ↦
      grind (
        arith,
        e,
        never_read more n (handle_scancode-IsReset i.scancode i.statuses i.second k n r e),
      )
]

-- Whatever interrupts arrive after `keyboard_init`, `keyboard_getchar` does not return.
pub keyboard_getchar-keyboard_init :
    (events : List Interrupt) (k : Keyboard)
    → keyboard_getchar events (keyboard_init true k).1 ≡ none
unfolding keyboard_init
keyboard_getchar-keyboard_init events k =
    never_read events (record k { put_idx = 0; get_idx = 0 }) (refl, refl)
