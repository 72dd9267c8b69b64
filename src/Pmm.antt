-- ===== src/Pmm.antt =====
-- The physical frame managers arch/x86_64/pmm.c and arch/x86/pmm.c: a bitmap with a bit per frame of
-- 4 KiB, set when the frame is in use. The two files are one text at two word widths, so the model
-- takes the width `w` of a word and of an address (64 and 32), and the number of frames.
pub mod Bits
pub mod Ranges
pub mod Alloc
mod Tests
use obsidian_kernel.Base.{
  ℕ, zero, suc, ◌+◌, ◌-◌, ◌*◌, ◌/◌, ◌%◌, ◌^◌, ◌==◌, ltb, Bool, not, List, if◌then◌else◌, get_or,
  set, replicate, bit_and, bit_or,
}

abbrev pub frame_size : ℕ
frame_size = 4096

-- `MAX_FRAMES` of the two files.
abbrev pub max_frames_64 : ℕ
max_frames_64 = 512 * 1024

abbrev pub max_frames_32 : ℕ
max_frames_32 = 131072

pub record Pmm : Type 0 where
  pub bitmap : List ℕ
  pub highest_frame : ℕ

module _ (w : ℕ) where
  abbrev pub bitmap_set : ℕ → Pmm → Pmm
  bitmap_set f s = record s {
    bitmap = set s.bitmap (f / w) (bit_or (get_or s.bitmap (f / w) 0) (2 ^ (f % w)));
  }

  -- `& ~(1 << b)`: the mask has every bit of a word but that one.
  abbrev pub bitmap_clear : ℕ → Pmm → Pmm
  bitmap_clear f s = record s {
    bitmap = set s.bitmap (f / w) (bit_and (get_or s.bitmap (f / w) 0) (2 ^ w - 1 - 2 ^ (f % w)));
  }

  abbrev pub bitmap_test : ℕ → Pmm → ℕ
  bitmap_test f s = bit_and (get_or s.bitmap (f / w) 0 / 2 ^ (f % w)) 1

  -- `for (f = first; f < last; f++) bitmap_set(f);`, with `n` frames left.
  pub set_frames : ℕ → ℕ → Pmm → Pmm
  set_frames zero f s = s
  set_frames (suc n) f s = set_frames n (f + 1) (bitmap_set f s)

  -- The loop of `free_range`, with `n` frames left.
  pub clear_frames : ℕ → ℕ → Pmm → Pmm
  clear_frames zero f s = s
  clear_frames (suc n) f s =
      let s = bitmap_clear f s in
      clear_frames n (f + 1)
        (record s { highest_frame = if ltb s.highest_frame f then f else s.highest_frame })

  module _ (max_frames : ℕ) where
    pub clamp : ℕ → ℕ
    clamp last = if ltb max_frames last then max_frames else last

    pub reserve_range : ℕ → ℕ → Pmm → Pmm
    reserve_range start finish s =
        let first = start / frame_size in
        set_frames (clamp ((finish + frame_size - 1) % 2 ^ w / frame_size) - first) first s

    pub free_range : ℕ → ℕ → Pmm → Pmm
    free_range start finish s =
        let first = start / frame_size in clear_frames (clamp (finish / frame_size) - first) first s

    pub pmm_reserve : ℕ → ℕ → Pmm → Pmm
    pmm_reserve start finish s = reserve_range start finish s

  -- `for (f = 0; f <= highest_frame; f++)`, with `n` frames left.
  pub alloc_loop : ℕ → ℕ → Pmm → ℕ × Pmm
  alloc_loop zero f s = (0, s)
  alloc_loop (suc n) f s =
      let rest = alloc_loop n (f + 1) s in
      if bitmap_test f s == 0 then (f * frame_size % 2 ^ w, bitmap_set f s) else rest

  pub pmm_alloc_frame : Pmm → ℕ × Pmm
  pmm_alloc_frame s = alloc_loop (s.highest_frame + 1) 0 s

  pub pmm_free_frame : ℕ → Pmm → Pmm
  pmm_free_frame phys_addr s = bitmap_clear (phys_addr / frame_size) s
