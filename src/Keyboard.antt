-- ===== src/Keyboard.antt =====
-- drivers/input/keyboard.c: the ring of decoded characters and the scancode handler.
-- A character is its code, and the result -1 of a read is `none`. The controller's ports are
-- inputs: the status bytes that the wait loop reads, and the byte that stands at the data port.
pub mod Laws
pub mod Dead
mod Tests
use obsidian_kernel.Base.{
  ℕ, zero, suc, ◌+◌, ◌-◌, ◌%◌, ◌==◌, ltb, leb, ◌||◌, not, List, [], ◌∷◌, ◌++◌, Option, none, some,
  ◌>>=◌, Bool, true, false, if◌then◌else◌, u32, bit_and, set, get_or, replicate,
}

pub record Keyboard : Type 0 where
  pub put_idx : ℕ
  pub get_idx : ℕ
  pub keybuf : List ℕ
  pub shift_down : Bool

-- `sizeof(keybuf)`
abbrev pub buffer_size : ℕ
buffer_size = 64

-- The US layout: the codes from scancode 0 on, and no character past the end.
abbrev pub keymap_normal : List ℕ
keymap_normal =
    0 ∷ 0 ∷ 49 ∷ 50 ∷ 51 ∷ 52 ∷ 53 ∷ 54 ∷ 55 ∷ 56 ∷ 57 ∷ 48 ∷ 45 ∷ 61 ∷ 8 ∷ 9 ∷ 113 ∷ 119 ∷ 101
    ∷ 114 ∷ 116 ∷ 121 ∷ 117 ∷ 105 ∷ 111 ∷ 112 ∷ 91 ∷ 93 ∷ 0 ∷ 0 ∷ 97 ∷ 115 ∷ 100 ∷ 102 ∷ 103 ∷ 104
    ∷ 106 ∷ 107 ∷ 108 ∷ 59 ∷ 39 ∷ 96 ∷ 0 ∷ 92 ∷ 122 ∷ 120 ∷ 99 ∷ 118 ∷ 98 ∷ 110 ∷ 109 ∷ 44 ∷ 46 ∷ 47
    ∷ 0 ∷ 0 ∷ 0 ∷ 32 ∷ []

abbrev pub keymap_shift : List ℕ
keymap_shift =
    0 ∷ 0 ∷ 33 ∷ 64 ∷ 35 ∷ 36 ∷ 37 ∷ 94 ∷ 38 ∷ 42 ∷ 40 ∷ 41 ∷ 95 ∷ 43 ∷ 0 ∷ 0 ∷ 81 ∷ 87 ∷ 69 ∷ 82
    ∷ 84 ∷ 89 ∷ 85 ∷ 73 ∷ 79 ∷ 80 ∷ 123 ∷ 125 ∷ 0 ∷ 0 ∷ 65 ∷ 83 ∷ 68 ∷ 70 ∷ 71 ∷ 72 ∷ 74 ∷ 75 ∷ 76
    ∷ 58 ∷ 34 ∷ 126 ∷ 0 ∷ 124 ∷ 90 ∷ 88 ∷ 67 ∷ 86 ∷ 66 ∷ 78 ∷ 77 ∷ 60 ∷ 62 ∷ 63 ∷ []

pub push_char : ℕ → Keyboard → Keyboard
push_char c k =
    let next = u32 (k.put_idx + 1) % buffer_size in
    if not (next == k.get_idx)
    then k
    else record k { keybuf = set k.keybuf k.put_idx c; put_idx = next }

-- `while (!(inb(0x64) & 0x01)) { }`: what is left of the status bytes; `none` if none says ready.
pub wait_ready : List ℕ → Option (List ℕ)
wait_ready [] = none
wait_ready (s ∷ statuses) =
    let rest = wait_ready statuses in if bit_and s 1 == 0 then rest else some statuses

-- The scancode after the prefix 0xE0.
pub handle_extended : ℕ → Keyboard → Keyboard
handle_extended sc k =
    if sc == 0x48
    then push_char (0x41 - 0x40) k
    else if sc == 0x50
    then push_char (0x42 - 0x40) k
    else if sc == 0x4B
    then push_char (0x43 - 0x40) k
    else if sc == 0x4D
    then push_char (0x44 - 0x40) k
    else k

abbrev pub is_shift : ℕ → Bool
is_shift sc = sc == 0x2A || sc == 0x36

pub handle_press : ℕ → Keyboard → Keyboard
handle_press sc k =
    let c = get_or (if k.shift_down then keymap_shift else keymap_normal) sc 0 in
    if is_shift sc then record k { shift_down = true } else if c == 0 then k else push_char c k

pub handle_release : ℕ → Keyboard → Keyboard
handle_release sc k = if is_shift (bit_and sc 0x7F) then record k { shift_down = false } else k

-- `handle_scancode`, with the status bytes of the wait and the byte after the prefix.
pub handle_scancode : ℕ → List ℕ → ℕ → Keyboard → Option Keyboard
handle_scancode sc statuses second k =
    if sc == 0xE0
    then (do _ ← wait_ready statuses; some (handle_extended second k))
    else if not (bit_and sc 0x80 == 0)
    then some (handle_release sc k)
    else some (handle_press sc k)

pub keyboard_try_getchar : Keyboard → Option ℕ × Keyboard
keyboard_try_getchar k = if k.get_idx == k.put_idx then (none, k) else (
  some (get_or k.keybuf k.get_idx 0),
  record k { get_idx = u32 (k.get_idx + 1) % buffer_size },
)

-- One interrupt: the byte at the data port, the status bytes after it and the byte that follows.
pub record Interrupt : Type 0 where
  pub scancode : ℕ
  pub statuses : List ℕ
  pub second : ℕ

pub keyboard_irq_handler : Interrupt → Keyboard → Option Keyboard
keyboard_irq_handler i k = handle_scancode i.scancode i.statuses i.second k

abbrev pub received : Option ℕ × Keyboard → Option (ℕ × Keyboard)
received (none, k) = none
received (some c, k) = some (c, k)

-- `keyboard_getchar` with the interrupts that wake its `cpu_halt`; `none` if it still waits, or
-- hangs in the handler.
pub keyboard_getchar : List Interrupt → Keyboard → Option (ℕ × Keyboard)
keyboard_getchar [] k = received (keyboard_try_getchar k)
keyboard_getchar (i ∷ more) k =
    let rest = keyboard_irq_handler i k >>= keyboard_getchar more in
    if k.get_idx == k.put_idx then rest else received (keyboard_try_getchar k)

-- `keyboard_init`, given whether the PS/2 port is present.
pub keyboard_init : Bool → Keyboard → Bool × Keyboard
keyboard_init present k =
    if present then (true, record k { put_idx = 0; get_idx = 0 }) else (false, k)
