-- ===== src/Heap/Init.antt =====
-- `heap_init` lays the heap out as one free block.
use obsidian_kernel.Base.{ℕ, ◌+◌, ◌-◌, ◌%◌, ◌^◌, ◌≤◌, ◌<◌, ◌≡◌, [], ◌∷◌, arith, refl, u32}
use obsidian_kernel.Memory.{Memory}
use obsidian_kernel.Memory.Access.{IsBytes, store32-IsBytes}
use obsidian_kernel.Heap.{
  Heap, heap_init, align_up, set_magic, set_size, set_next_off, set_used, magic_free, end_of_list,
}
use obsidian_kernel.Heap.Header.{load32-store32, align_up_lem}
use obsidian_kernel.Heap.Layout.{free, BlockAt, IsLayout}

-- The first header.
abbrev init_stores : ℕ → ℕ → Memory → Memory
init_stores a n m =
    set_used a 0 (set_next_off a end_of_list (set_size a n (set_magic a magic_free m)))

init_block :
    (a n : ℕ) (m : Memory)
    → a % 16 ≡ 0
    → n < 2 ^ 32
    → n % 16 ≡ 0
    → BlockAt a (init_stores a n m) 0 (free n) end_of_list
init_block a n m al word whole = (
  grind (arith, load32-store32),
  grind (arith, load32-store32),
  grind (arith, load32-store32),
  grind (arith, load32-store32),
  whole,
)

-- From a region that starts above 0 and has room for a header and a byte, up to 2 GiB, `heap_init`
-- makes one free block of the rounded size less the header, and counts it as free.
pub heap_init-IsLayout :
    (base sz : ℕ) (h : Heap)
    → IsBytes h.mem
    → 0 < base
    → base + 15 < 2 ^ 32
    → 16 < sz
    → sz ≤ 2 ^ 31
    → let w = heap_init base sz h in
      IsLayout w [] (free (w.hsize - 16) ∷ []) × (w.st.free_bytes ≡ w.hsize - 16)
unfolding heap_init
heap_init-IsLayout base sz h bytes pos fits room small =
    let n : u32 (align_up sz + 2 ^ 32 - 16) ≡ align_up sz - 16 = omega (arith, align_up_lem sz) in
    let a = align_up base in
    rw n (
      record {
        before = tt;
        after = (
          init_block a (align_up sz - 16) h.mem (omega (arith, align_up_lem base))
              (omega (arith, align_up_lem sz)) (omega (arith, align_up_lem sz)),
          tt,
        );
        head = refl;
        extent = omega (arith, align_up_lem sz);
        bounded = omega (arith, align_up_lem sz);
        aligned = omega (arith, align_up_lem base);
        present = omega (arith, align_up_lem base);
        bytes =
            store32-IsBytes _ _ _
              (store32-IsBytes _ _ _ (store32-IsBytes _ _ _ (store32-IsBytes _ _ _ bytes)));
      },
      refl,
    )
