-- ===== src/Keyboard/Tests.antt =====
-- The functions of drivers/input/keyboard.c at concrete states.
use obsidian_kernel.Base.{[], ◌∷◌, none, some, true, false, ◌≡◌, refl, ◌++◌, replicate, arith}
use obsidian_kernel.Keyboard.{
  Keyboard, push_char, handle_scancode, handle_press, keyboard_try_getchar, keyboard_getchar,
  keyboard_init,
}
use obsidian_kernel.Keyboard.Laws.{IsRead, unread, keyboard_try_getchar-IsRead}
use obsidian_kernel.Keyboard.Dead.{keyboard_getchar-keyboard_init}

-- Two characters, `h` and `i`, stand in the buffer across its end.
abbrev greeting : Keyboard
greeting = record {
  put_idx = 1;
  get_idx = 63;
  keybuf = 105 ∷ (replicate 62 0 ++ 104 ∷ []);
  shift_down = false;
}

greeting-unread : unread greeting ≡ 104 ∷ 105 ∷ []
unfolding unread
greeting-unread = refl

-- The key `a` with shift held: the buffer has room, and the character is dropped.
dropped :
    handle_scancode 0x1E [] 0 (record greeting { shift_down = true })
    ≡ some (record greeting { shift_down = true })
unfolding handle_scancode handle_press push_char
dropped = refl

keyboard_try_getchar-IsRead_example :
    IsRead (unread greeting) greeting (keyboard_try_getchar greeting)
keyboard_try_getchar-IsRead_example =
    keyboard_try_getchar-IsRead greeting (omega arith, omega arith, refl)

keyboard_getchar-keyboard_init_example :
    keyboard_getchar
      (record { scancode = 0x1E; statuses = []; second = 0 } ∷ [])
      (keyboard_init true greeting).1
    ≡ none
keyboard_getchar-keyboard_init_example =
    keyboard_getchar-keyboard_init (record { scancode = 0x1E; statuses = []; second = 0 } ∷ [])
      greeting
