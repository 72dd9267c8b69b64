-- ===== src/Memory.antt =====
-- Physical memory as bytes at addresses, with the little-endian 32-bit accesses that the C code
-- makes through `u32 *` and structure fields, and the memory routines of lib/string.c.
pub mod Access
pub mod Fill
pub mod Copy
mod Tests
use obsidian_kernel.Base.{
  ℕ, zero, suc, ◌+◌, ◌*◌, ◌/◌, ◌%◌, ◌^◌, ◌==◌, if◌then◌else◌, u8, u32, bit_or, bit_and, ltb, ◌||◌,
}

abbrev pub Memory : Type 0
Memory = ℕ → ℕ

unfoldable pub store8 : Memory → ℕ → ℕ → Memory
store8 m a v x = if x == a then v else m x

unfoldable pub load32 : Memory → ℕ → ℕ
load32 m a = m a + m (a + 1) * 2 ^ 8 + m (a + 2) * 2 ^ 16 + m (a + 3) * 2 ^ 24

-- The four bytes of `v`, the lowest first.
unfoldable pub store32 : Memory → ℕ → ℕ → Memory
unfolding store8
store32 m a v =
    store8 (store8 (store8 (store8 m a (u8 v)) (a + 1) (u8 (v / 2 ^ 8))) (a + 2) (u8 (v / 2 ^ 16)))
      (a + 3) (u8 (v / 2 ^ 24))

-- A loop's memory, its destination pointer, and the bytes left.
pub record Cursor : Type 0 where
  pub mem : Memory
  pub dst : ℕ
  pub left : ℕ

abbrev pub cursor : Memory → ℕ → ℕ → Cursor
cursor m d n = record { mem = m; dst = d; left = n }

-- `while (((uintptr_t)d & 3) && n) { *d++ = v; n--; }`
pub memset_head : ℕ → Memory → ℕ → ℕ → Cursor
memset_head v m d zero = cursor m d zero
memset_head v m d (suc n) =
    let rest = memset_head v (store8 m d v) (d + 1) n in
    if bit_and d 3 == 0 then cursor m d (suc n) else rest

-- `while (n >= 4) { *dw++ = vw; n -= 4; }`
pub memset_words : ℕ → Memory → ℕ → ℕ → Cursor
memset_words vw m d (suc (suc (suc (suc n)))) = memset_words vw (store32 m d vw) (d + 4) n
memset_words vw m d n = cursor m d n

-- `while (n--) *d++ = v;`
pub memset_tail : ℕ → Memory → ℕ → ℕ → Memory
memset_tail v m d zero = m
memset_tail v m d (suc n) = memset_tail v (store8 m d v) (d + 1) n

-- `u32 vw = v | (v << 8) | (v << 16) | ((u32)v << 24)`
pub spread : ℕ → ℕ
spread v = bit_or (bit_or (bit_or v (v * 2 ^ 8)) (v * 2 ^ 16)) (u32 (v * 2 ^ 24))

unfoldable pub memset : ℕ → ℕ → ℕ → Memory → Memory
unfolding memset_head memset_words memset_tail spread
memset d val n m =
    let v = u8 val in
    let head = memset_head v m d n in
    let body = memset_words (spread v) head.mem head.dst head.left in
    memset_tail v body.mem body.dst body.left

-- The state of the copying loops, which move a source pointer too.
pub record CopyCursor : Type 0 where
  pub mem : Memory
  pub dst : ℕ
  pub src : ℕ
  pub left : ℕ

abbrev pub copy_cursor : Memory → ℕ → ℕ → ℕ → CopyCursor
copy_cursor m d s n = record { mem = m; dst = d; src = s; left = n }

-- `while (((uintptr_t)d & 3) && n) { *d++ = *s++; n--; }`
pub memcpy_head : Memory → ℕ → ℕ → ℕ → CopyCursor
memcpy_head m d s zero = copy_cursor m d s zero
memcpy_head m d s (suc n) =
    let rest = memcpy_head (store8 m d (m s)) (d + 1) (s + 1) n in
    if bit_and d 3 == 0 then copy_cursor m d s (suc n) else rest

-- `while (n >= 4) { *dw++ = *sw++; n -= 4; }`
pub memcpy_words : Memory → ℕ → ℕ → ℕ → CopyCursor
memcpy_words m d s (suc (suc (suc (suc n)))) =
    memcpy_words (store32 m d (load32 m s)) (d + 4) (s + 4) n
memcpy_words m d s n = copy_cursor m d s n

-- `while (n--) *d++ = *s++;`
pub memcpy_tail : Memory → ℕ → ℕ → ℕ → Memory
memcpy_tail m d s zero = m
memcpy_tail m d s (suc n) = memcpy_tail (store8 m d (m s)) (d + 1) (s + 1) n

unfoldable pub memcpy : ℕ → ℕ → ℕ → Memory → Memory
unfolding memcpy_head memcpy_words memcpy_tail
memcpy d s n m =
    let head = memcpy_head m d s n in
    let body = memcpy_words head.mem head.dst head.src head.left in
    memcpy_tail body.mem body.dst body.src body.left

-- `while (n--) *--d = *--s;` from the ends, `n` bytes in.
pub memmove_down : Memory → ℕ → ℕ → ℕ → Memory
memmove_down m d s zero = m
memmove_down m d s (suc n) = memmove_down (store8 m (d + n) (m (s + n))) d s n

unfoldable pub memmove : ℕ → ℕ → ℕ → Memory → Memory
unfolding memcpy_tail memmove_down
memmove d s n m =
    if d == s || n == 0 then m else if ltb d s then memcpy_tail m d s n else memmove_down m d s n
