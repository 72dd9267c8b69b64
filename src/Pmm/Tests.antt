-- ===== src/Pmm/Tests.antt =====
-- The frame managers at concrete bitmaps.
use obsidian_kernel.Base.{ℕ, ◌*◌, ◌≡◌, ◌≢◌, refl, [], ◌∷◌, arith}
use obsidian_kernel.Pmm.{Pmm, pmm_alloc_frame, pmm_free_frame, alloc_loop, bitmap_test}
use obsidian_kernel.Pmm.Alloc.{
  IsFree, IsAllocated, pmm_alloc_frame-IsAllocated, pmm_free_frame-IsFree,
  pmm_free_frame-pmm_alloc_frame,
}

-- Frame 34 is the first free one.
abbrev partly_used : Pmm
partly_used = record { bitmap = 0xFFFFFFFF ∷ 0xFFFFFF0B ∷ []; highest_frame = 40 }

first_free_frame : (pmm_alloc_frame 32 partly_used).0 ≡ 34 * 4096
unfolding pmm_alloc_frame alloc_loop
first_free_frame = refl

pmm_alloc_frame-IsAllocated_example :
    IsAllocated 32 (omega arith) 0 41 partly_used (pmm_alloc_frame 32 partly_used)
pmm_alloc_frame-IsAllocated_example =
    pmm_alloc_frame-IsAllocated 32 (omega arith) partly_used (omega arith, omega arith)

pmm_free_frame-IsFree_example :
    IsFree 32 (omega arith) (pmm_free_frame 32 0x5123 partly_used) 5
    × ((g : ℕ)
        → g ≢ 5
        → bitmap_test 32 g (pmm_free_frame 32 0x5123 partly_used) ≡ bitmap_test 32 g partly_used)
pmm_free_frame-IsFree_example =
    pmm_free_frame-IsFree 32 (omega arith) 0x5123 partly_used (omega arith)

pmm_free_frame-pmm_alloc_frame_example :
    bitmap_test 32 34
      (pmm_free_frame 32 (pmm_alloc_frame 32 partly_used).0 (pmm_alloc_frame 32 partly_used).1)
    ≡ bitmap_test 32 34 partly_used
pmm_free_frame-pmm_alloc_frame_example =
    pmm_free_frame-pmm_alloc_frame 32 (omega arith) partly_used 34 (omega arith, omega arith)
      (omega arith) refl 34
