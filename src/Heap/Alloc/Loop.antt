-- ===== src/Heap/Alloc/Loop.antt =====
-- The first-fit search over the row of blocks.
use obsidian_kernel.Base.{
  ℕ, zero, suc, ◌+◌, ◌-◌, ◌%◌, ◌≤◌, ◌<◌, ◌≡◌, List, [], ◌∷◌, Option, some, arith, refl, leb, length,
  Bool-cases, inl, inr, ne→==,
}
use obsidian_kernel.Heap.{
  Heap, hand_out, take_block, split_block, count_alloc, check_allocation, count_error, kmalloc_loop,
  end_of_list,
}
use obsidian_kernel.Heap.Layout.{Block, free, used, total, first_free, last_free, IsLayout}
use obsidian_kernel.Heap.Layout.Frame.{move_left, move_right}
use obsidian_kernel.Heap.Alloc.Split.{split_block-IsLayout}
use obsidian_kernel.Heap.Alloc.Take.{with_counters, garbage, taken_lem, taken_size, taken-IsLayout}

-- From offset `o`, the first block of `ys` with room for `need` bytes is at `p`; `n` bytes are
-- handed out, and `zs` are the blocks then.
pub data FirstFit (need : ℕ) : (o : ℕ) (ys : List Block) (p n : ℕ) (zs : List Block) → Type 0 where
  whole :
      {o n : ℕ} {ys : List Block} (d : ℕ → ℕ)
      → need + 16 ≤ n
      → n < need + 32
      → FirstFit need o (free n ∷ ys) o n (used n d ∷ ys)
  split :
      {o n : ℕ} {ys : List Block} (d : ℕ → ℕ)
      → need + 32 ≤ n
      → FirstFit need o (free n ∷ ys) o need (used need d ∷ free (n - need - 16) ∷ ys)
  skip_small :
      {o k p n : ℕ} {ys zs : List Block}
      → k < need + 16
      → FirstFit need (o + 16 + k) ys p n zs
      → FirstFit need o (free k ∷ ys) p n (free k ∷ zs)
  skip_used :
      {o k p n : ℕ} {ys zs : List Block} (d : ℕ → ℕ)
      → FirstFit need (o + 16 + k) ys p n zs
      → FirstFit need o (used k d ∷ ys) p n (used k d ∷ zs)

-- No free block has room.
abbrev pub NoRoom : ℕ → List Block → Type 0
NoRoom need [] = Unit {0}
NoRoom need (free n ∷ ys) = (n < need + 16) × NoRoom need ys
NoRoom need (used n d ∷ ys) = NoRoom need ys

-- The state after handing out `n` bytes at offset `o`: its blocks, pointer and counters.
pub record IsTaken (h : Heap) (rs : List Block) (o n : ℕ) (zs : List Block) (p : ℕ) (w : Heap)
    : Type 0 where
  pub pointer : p ≡ h.hbase + o + 16
  pub layout : IsLayout w rs zs
  pub counted : w.st ≡ count_alloc n h.st
  pub checked : w.guard ≡ check_allocation (h.hbase + o + 16) 16 h.guard
  pub same_base : w.hbase ≡ h.hbase

pub data Search (h : Heap) (need : ℕ) (rs ys : List Block) (r : Option (ℕ × Heap)) : Type 0 where
  exhausted : NoRoom need ys → r ≡ some (0, count_error h) → Search h need rs ys r
  placed :
      {o n p : ℕ} {zs : List Block} {w : Heap}
      → FirstFit need (total rs) ys o n zs
      → IsTaken h rs o n zs p w
      → r ≡ some (p, w)
      → Search h need rs ys r

-- What the unlinking and the counters do, once the block has its size.
hand_out-IsTaken :
    (h : Heap) (rs ys : List Block) (n : ℕ) (l : IsLayout h rs (free n ∷ ys))
    → let (p, w) = hand_out (last_free rs) (total rs) h in
      IsTaken h rs (total rs) n (used n (garbage h rs ys n l) ∷ ys) p w
unfolding hand_out
hand_out-IsTaken h rs ys n l = rw (taken_lem h rs ys n l) (record {
  pointer = refl;
  layout = with_counters _ rs _ _ _ (taken-IsLayout h rs ys n l);
  counted = rw (taken_size h rs ys n l);
  checked = refl;
  same_base = refl;
})

-- The same blocks one position to the left, with `b` passed over.
back_used :
    {h : Heap} {need n : ℕ} {d : ℕ → ℕ} {rs ys : List Block} {r : Option (ℕ × Heap)}
    → Search h need (used n d ∷ rs) ys r
    → Search h need rs (used n d ∷ ys) r
back_used (exhausted small e) = exhausted small e
back_used {h} {n} {d} {rs} (placed {zs} {w} fit t e) =
    placed (skip_used d fit)
      (record {
        pointer = t.pointer;
        layout = move_left w rs zs (used n d) t.layout;
        counted = t.counted;
        checked = t.checked;
        same_base = t.same_base;
      })
      e

back_small :
    {h : Heap} {need n : ℕ} {rs ys : List Block} {r : Option (ℕ × Heap)}
    → n < need + 16
    → Search h need (free n ∷ rs) ys r
    → Search h need rs (free n ∷ ys) r
back_small less (exhausted small e) = exhausted (less, small) e
back_small {h} {n} {rs} less (placed {zs} {w} fit t e) =
    placed (skip_small less fit)
      (record {
        pointer = t.pointer;
        layout = move_left w rs zs (free n) t.layout;
        counted = t.counted;
        checked = t.checked;
        same_base = t.same_base;
      })
      e

-- A split changes memory only.
of_split :
    (need : ℕ) (h : Heap) (rs : List Block) {o n p : ℕ} {zs : List Block} {w : Heap}
    → IsTaken (split_block (total rs) need h) rs o n zs p w
    → IsTaken h rs o n zs p w
unfolding split_block
of_split need h rs t = record {
  pointer = t.pointer;
  layout = t.layout;
  counted = t.counted;
  checked = t.checked;
  same_base = t.same_base;
}

module _ (need : ℕ) (h : Heap) (al : need % 16 ≡ 0) where
  take_block-Search :
      (rs ys : List Block) (n : ℕ) (l : IsLayout h rs (free n ∷ ys))
      → need + 16 ≤ n
      → Search h need rs (free n ∷ ys) (some (take_block (last_free rs) (total rs) need h))
  unfolding take_block
  take_block-Search rs ys n l room = rw (l.after.0.1) (elim (Bool-cases (leb (need + 16 + 16) n)) [
    | inl part ↦ rw part (
        let big : need + 32 ≤ n = ground arith in
        let l' = split_block-IsLayout h rs ys n need l big al in
        let h1 = split_block (total rs) need h in
        placed (split _ big) (of_split need h rs (hand_out-IsTaken h1 rs _ need l')) refl)
    | inr all ↦ rw all (placed (whole _ room (ground arith)) (hand_out-IsTaken h rs ys n l) refl)
  ])

  pub kmalloc_loop-Search :
      (fuel : ℕ) (rs ys : List Block)
      → IsLayout h rs ys
      → length ys < fuel
      → Search h need rs ys (kmalloc_loop fuel need (last_free rs) (first_free (total rs) ys) h)
  unfolding kmalloc_loop
  kmalloc_loop-Search zero rs ys l f = absurd (omega arith)
  kmalloc_loop-Search (suc fuel) rs [] l f = exhausted tt refl
  kmalloc_loop-Search (suc fuel) rs (used n d ∷ ys) l f = back_used (
      kmalloc_loop-Search (suc fuel) (used n d ∷ rs) ys (move_right h rs ys (used n d) l)
        (omega arith))
  kmalloc_loop-Search (suc fuel) rs (free n ∷ ys) l f =
      let rest =
        kmalloc_loop-Search fuel (free n ∷ rs) ys (move_right h rs ys (free n) l) (omega arith) in
      rw
        (
          ne→== (total rs) end_of_list (omega (arith, l.extent, l.bounded)),
          l.after.0.1,
          l.after.0.2,
        )
        (elim (Bool-cases (leb (need + 16) n)) [
          | inl room ↦ rw room (take_block-Search rs ys n l (ground arith))
          | inr less ↦ rw less (back_small (ground arith) rest)
        ])
