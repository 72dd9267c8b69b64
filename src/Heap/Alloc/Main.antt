-- ===== src/Heap/Alloc/Main.antt =====
-- `kmalloc` from the head of the free list.
use obsidian_kernel.Base.{
  ℕ, ◌+◌, ◌-◌, ◌*◌, ◌%◌, ◌^◌, ◌≤◌, ◌<◌, ◌≡◌, ◌≢◌, List, [], ◌∷◌, Option, some, arith, refl, ◌∙◌,
  length, ne→==, subst, sym, ap,
}
use obsidian_kernel.Heap.{Heap, kmalloc, kmalloc_loop, align_up, end_of_list, rounds}
use obsidian_kernel.Memory.{Memory}
use obsidian_kernel.Heap.Header.{align_up_lem}
use obsidian_kernel.Heap.Layout.{Block, free, used, total, After, IsLayout}
use obsidian_kernel.Heap.Alloc.Loop.{
  FirstFit, whole, split, skip_small, skip_used, Search, exhausted, placed, kmalloc_loop-Search,
}

pub length-le-total : (bs : List Block) → length bs * 16 ≤ total bs
length-le-total [] = omega arith
length-le-total (b ∷ bs) = omega (arith, length-le-total bs)

-- On a laid-out heap `kmalloc` of a nonzero size always returns. It fails exactly when no free block
-- has room for the rounded size and a further header; then only the error counter changes. Otherwise it
-- returns the payload of the first block with room, and the heap stays laid out, every other
-- block with its place, its size and, if used, its bytes.
pub kmalloc-Search :
    (sz : ℕ) (h : Heap) (bs : List Block)
    → IsLayout h [] bs
    → sz ≢ 0
    → Search h (align_up sz) [] bs (kmalloc sz h)
unfolding kmalloc
kmalloc-Search sz h bs l pos =
    rw (ne→== sz 0 pos, ne→== h.hbase 0 (omega (arith, l.present)))
      (subst
        (λ f. Search h (align_up sz) [] bs (kmalloc_loop (rounds h) (align_up sz) end_of_list f h))
        (sym l.head)
        (kmalloc_loop-Search (align_up sz) h (omega (arith, align_up_lem sz)) (rounds h) [] bs l
          (omega (arith, length-le-total bs, l.extent))))

-- What was handed out is a used block of the new row.
pub FirstFit-size : {need o p n : ℕ} {ys zs : List Block} → FirstFit need o ys p n zs → need ≤ n
FirstFit-size (whole d a b) = omega arith
FirstFit-size (split d a) = omega arith
FirstFit-size (skip_small a f) = FirstFit-size f
FirstFit-size (skip_used d f) = FirstFit-size f

-- The block at `p` lies within the row.
pub FirstFit-within :
    {need o p n : ℕ} {ys zs : List Block}
    → FirstFit need o ys p n zs
    → (o ≤ p) × (p + 16 + n ≤ o + total zs) × (total zs ≡ total ys)
FirstFit-within (whole d a b) = omega arith
FirstFit-within (split d a) = omega arith
FirstFit-within (skip_small a f) = omega (arith, FirstFit-within f)
FirstFit-within (skip_used d f) = omega (arith, FirstFit-within f)

same_pointer :
    {p q : ℕ} {v w : Heap} → ◌≡◌ {A = Option (ℕ × Heap)} (some (p, v)) (some (q, w)) → p ≡ q
same_pointer e = cc

-- The offset of the block keeps the alignment of the row.
FirstFit-aligned :
    {need o p n : ℕ} {ys zs : List Block} (base : ℕ) (m : Memory)
    → FirstFit need o ys p n zs
    → After base m o ys
    → o % 16 ≡ 0
    → p % 16 ≡ 0
FirstFit-aligned base m (whole d a b) at al = al
FirstFit-aligned base m (split d a) at al = al
FirstFit-aligned base m (skip_small a f) at al =
    FirstFit-aligned base m f at.1 (omega (arith, at.0.4))
FirstFit-aligned base m (skip_used d f) at al =
    FirstFit-aligned base m f at.1 (omega (arith, at.0.3))

room_of :
    (sz : ℕ) (h : Heap) (bs : List Block) {r : Option (ℕ × Heap)} {p : ℕ} {w : Heap}
    → IsLayout h [] bs
    → sz ≤ 2 ^ 32 - 16
    → Search h (align_up sz) [] bs r
    → r ≡ some (p, w)
    → p ≢ 0
    → (h.hbase + 16 ≤ p) × (p + sz ≤ h.hbase + h.hsize) × (p % 16 ≡ 0)
room_of sz h bs l fits (exhausted small e) got ne = absurd (ne (same_pointer (sym got ∙ e)))
room_of sz h bs {p} l fits (placed {p = q} fit t e) got ne =
    let same : p ≡ q = same_pointer (sym got ∙ e) in
    omega (
      arith,
      t.pointer,
      l.extent,
      l.aligned,
      align_up_lem sz,
      FirstFit-within fit,
      FirstFit-size fit,
      FirstFit-aligned h.hbase h.mem fit l.after refl,
    )

-- A block that `kmalloc` returns for 1 to 2^32 - 16 bytes on a laid-out heap lies inside the heap,
-- header and all, with room for the bytes asked for, and is aligned to 16.
pub kmalloc_room :
    (sz : ℕ) (h w : Heap) (bs : List Block) (p : ℕ)
    → IsLayout h [] bs
    → sz ≤ 2 ^ 32 - 16
    → sz ≢ 0
    → kmalloc sz h ≡ some (p, w)
    → p ≢ 0
    → (h.hbase + 16 ≤ p) × (p + sz ≤ h.hbase + h.hsize) × (p % 16 ≡ 0)
kmalloc_room sz h w bs p l fits pos got ne =
    room_of sz h bs l fits (kmalloc-Search sz h bs l pos) got ne

-- A size in the last 15 below 2^32 rounds up to 0.
pub align_up_wraps : (sz : ℕ) → 2 ^ 32 - 16 < sz → sz < 2 ^ 32 → align_up sz ≡ 0
align_up_wraps sz a b = omega (arith, align_up_lem sz)

placed_front :
    {n : ℕ} {h : Heap} {ys : List Block} {r : Option (ℕ × Heap)}
    → 32 ≤ n
    → Search h 0 [] (free n ∷ ys) r
    → (w : Heap) × (d : ℕ → ℕ) × (r ≡ some (h.hbase + 16, w))
      × IsLayout w [] (used 0 d ∷ free (n - 16) ∷ ys)
placed_front big (exhausted small e) = absurd (omega arith)
placed_front big (placed (whole d a b) t e) = absurd (omega arith)
placed_front {n} {h} {ys} big (placed {w} (split d a) t e) =
    let rest : n - 0 - 16 ≡ n - 16 = omega arith in
    (
      w,
      d,
      e ∙ ap (λ (p : ℕ). some (p, w)) (omega (arith, t.pointer)),
      subst (λ k. IsLayout w [] (used 0 d ∷ free k ∷ ys)) rest t.layout,
    )
placed_front big (placed (skip_small a f) t e) = absurd (omega arith)

-- For a size in the last 15 below 2^32, on a laid-out heap whose first block is free and has 32 bytes
-- or more, `kmalloc` hands out a block of no bytes, split from that one.
pub kmalloc_oversize :
    (sz n : ℕ) (h : Heap) (ys : List Block)
    → IsLayout h [] (free n ∷ ys)
    → 2 ^ 32 - 16 < sz
    → sz < 2 ^ 32
    → 32 ≤ n
    → (w : Heap) × (d : ℕ → ℕ) × (kmalloc sz h ≡ some (h.hbase + 16, w))
      × IsLayout w [] (used 0 d ∷ free (n - 16) ∷ ys)
kmalloc_oversize sz n h ys l lo hi big =
    placed_front big
      (rw (align_up_wraps sz lo hi) at (kmalloc-Search sz h (free n ∷ ys) l (omega arith)))
