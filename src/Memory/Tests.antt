-- ===== src/Memory/Tests.antt =====
-- The memory routines at concrete areas.
use obsidian_kernel.Base.{◌%◌, ◌≡◌, refl, arith}
use obsidian_kernel.Memory.{
  Memory, store8, store32, memset, memset_head, memset_words, memset_tail, spread, memmove,
  memmove_down,
}
use obsidian_kernel.Memory.Access.{IsBytes}
use obsidian_kernel.Memory.Copy.{IsCopied, memmove-IsCopied}

abbrev pattern_bytes : Memory
pattern_bytes a = a % 256

pattern-IsBytes : IsBytes pattern_bytes
pattern-IsBytes a = omega arith

-- Three bytes up to the word boundary, one word, and one byte.
memset_unaligned : memset 5 0x1A5 8 pattern_bytes 12 ≡ 0xA5
unfolding memset memset_head memset_words memset_tail spread store8 store32
memset_unaligned = refl

memmove_overlap : memmove 102 100 8 pattern_bytes 109 ≡ 107
unfolding memmove memmove_down store8
memmove_overlap = refl

memmove-IsCopied_example : IsCopied 102 100 8 pattern_bytes (memmove 102 100 8 pattern_bytes)
memmove-IsCopied_example = memmove-IsCopied 102 100 8 pattern_bytes
