-- ===== src/Heap/Free/Walk.antt =====
-- The walk of `kfree` ends between the free blocks on both sides of the freed one.
use obsidian_kernel.Base.{
  ℕ, suc, ◌+◌, ◌≤◌, ◌<◌, ◌≡◌, List, [], ◌∷◌, some, arith, refl, ne→==, lt→ltb, ◌⊎◌, inl, inr, ◌∙◌,
  ap, ◌*◌, ◌-◌,
}
use obsidian_kernel.Heap.{Heap, kfree_walk, end_of_list}
use obsidian_kernel.Heap.Layout.{Block, free, used, total, first_free, last_free, enter, Before}

-- The list never goes back: what follows a position is the end, or stands at the position or later.
pub first_free-ge :
    (o : ℕ) (ys : List Block) → (first_free o ys ≡ end_of_list) ⊎ (o ≤ first_free o ys)
first_free-ge o [] = inl refl
first_free-ge o (free n ∷ ys) = inr (omega arith)
first_free-ge o (used n d ∷ ys) = ground (arith, first_free-ge (o + 16 + n) ys)

free_count : List Block → ℕ
free_count [] = 0
free_count (free n ∷ rs) = suc (free_count rs)
free_count (used n d ∷ rs) = free_count rs

free_count-le : (rs : List Block) → free_count rs * 16 ≤ total rs
unfolding free_count
free_count-le [] = omega arith
free_count-le (free n ∷ rs) = omega (arith, free_count-le rs)
free_count-le (used n d ∷ rs) = omega (arith, free_count-le rs)

module _ (h : Heap) (off : ℕ) where
  -- One round for each free block before the position.
  kfree_walk-through :
      (rs : List Block) (fuel f v : ℕ)
      → fuel ≡ free_count rs + f
      → Before h.hbase h.mem rs v
      → total rs ≤ off
      → off < end_of_list
      → kfree_walk fuel off end_of_list (enter rs v) h ≡ kfree_walk f off (last_free rs) v h
  unfolding free_count
  kfree_walk-through [] fuel f v e at below small =
      ap (λ k. kfree_walk k off end_of_list v h) (omega arith)
  kfree_walk-through (used n d ∷ rs) fuel f v e (at, rest) below small =
      kfree_walk-through rs fuel f v e rest (omega arith) small
  kfree_walk-through (free n ∷ rs) fuel f v e (at, rest) below small =
      kfree_walk-through rs fuel (suc f) (total rs) (omega arith) rest (omega arith) small ∙ step
    where
      step : kfree_walk (suc f) off (last_free rs) (total rs) h ≡ kfree_walk f off (total rs) v h
      step =
          unfold kfree_walk in
          rw (ne→== (total rs) end_of_list (omega arith), lt→ltb (total rs) off (omega arith), at.2)

  kfree_walk-stop :
      (f prev v : ℕ)
      → (v ≡ end_of_list) ⊎ (off ≤ v)
      → kfree_walk (suc f) off prev v h ≡ some (prev, v)
  unfolding kfree_walk
  kfree_walk-stop f prev v (inl e) = rw e
  kfree_walk-stop f prev v (inr p) = ground (arith)

  -- The walk stops at `off` with its neighbours in the list.
  pub kfree_walk_lem :
      (rs : List Block) (fuel v : ℕ)
      → total rs < fuel * 16
      → Before h.hbase h.mem rs v
      → total rs ≤ off
      → off < end_of_list
      → (v ≡ end_of_list) ⊎ (off ≤ v)
      → kfree_walk fuel off end_of_list (enter rs v) h ≡ some (last_free rs, v)
  kfree_walk_lem rs fuel v enough at below small beyond =
      kfree_walk-through rs fuel (suc (fuel - free_count rs - 1)) v
        (omega (arith, free_count-le rs)) at below small
      ∙ kfree_walk-stop (fuel - free_count rs - 1) (last_free rs) v beyond
