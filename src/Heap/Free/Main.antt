-- ===== src/Heap/Free/Main.antt =====
-- `kfree` of a block in use, and the refusals.
use obsidian_kernel.Base.{
  ℕ, ◌+◌, ◌-◌, ◌%◌, ◌^◌, ◌≤◌, ◌≡◌, ◌≢◌, List, ◌∷◌, some, arith, ◌∙◌, u32, ◌==◌, ltb, leb, ◌||◌, not,
  ne→==, ◌⊎◌, inl, inr, true, Bool-cases, sym, subst, gt→leb,
}
use obsidian_kernel.Memory.{Memory, memset}
use obsidian_kernel.Memory.Access.{Outside, IsBytes, store32-IsBytes, store32-SameOff}
use obsidian_kernel.Memory.Fill.{IsFilled, memset-IsFilled}
use obsidian_kernel.Heap.{
  Heap, magic, size, is_used, set_magic, set_used, kfree, poison_free, count_free, mark_free,
  kfree_walk, insert_free, merge_next, magic_free, magic_used, end_of_list, rounds, count_error,
  poison_byte,
}
use obsidian_kernel.Heap.Header.{load32-store32}
use obsidian_kernel.Heap.Layout.{Block, used, total, first_free, last_free, IsLayout}
use obsidian_kernel.Heap.Layout.Frame.{header_frame, After-frame, Before-frame, total-aligned}
use obsidian_kernel.Heap.Free.Walk.{first_free-ge, kfree_walk_lem}
use obsidian_kernel.Heap.Free.Effects.{
  IsRelinked, IsRelinked-trans, LinkAligned, insert_free-IsRelinked, merge_next-IsRelinked,
  last_free-aligned,
}
use obsidian_kernel.Heap.Free.Insert.{
  IsLoose, join_right, left_of, left_size, insert_free-IsLayout, merge_next-IsLayout,
}

-- A pointer other than NULL is refused, and only the error counter changes, if the header before it
-- would stand outside the heap, has not the magic number of a used block, or says unused.
pub kfree-refuses :
    (p o : ℕ) (h : Heap)
    → p ≢ 0
    → u32 (p + 2 ^ 64 - h.hbase - 16) ≡ o
    → (2 ^ 31 ≤ o)
      ⊎ (h.hsize ≤ o)
      ⊎ (magic h.mem (h.hbase + o) ≢ magic_used)
      ⊎ (is_used h.mem (h.hbase + o) ≡ 0)
    → kfree p h ≡ some (count_error h)
unfolding kfree
kfree-refuses p o h ne e why =
    rw (e, ne→== p 0 ne)
      (elim (Bool-cases (leb (2 ^ 31) o || leb h.hsize o)) [
        | inl outside ↦ rw outside
        | inr inside ↦
            let bad : (not (magic h.mem (h.hbase + o) == magic_used)
                  || is_used h.mem (h.hbase + o) == 0)
                ≡ true =
              ground arith in
            rw (inside, bad)
      ])

-- The header and payload of the freed block, before it is linked.
abbrev loosened : (h : Heap) (off n : ℕ) → Heap
loosened h off n =
    let h1 = poison_free (h.hbase + off + 16) n h in
    mark_free off (record h1 { st = count_free n h1.st })

loose_walk :
    (h : Heap) (rs ys : List Block) (n : ℕ)
    → IsLoose h rs n ys
    → kfree_walk (rounds h) (total rs) end_of_list h.free_head h
      ≡ some (last_free rs, first_free (total rs + 16 + n) ys)
loose_walk h rs ys n l =
    let v = first_free (total rs + 16 + n) ys in
    let beyond : (v ≡ end_of_list) ⊎ (total rs ≤ v) =
      omega (arith, first_free-ge (total rs + 16 + n) ys) in
    subst (λ f. kfree_walk (rounds h) (total rs) end_of_list f h ≡ some (last_free rs, v))
      (sym l.head)
      (kfree_walk_lem h (total rs) rs (rounds h) v (omega (arith, l.extent)) l.before (omega arith)
        (omega (arith, l.extent, l.bounded)) beyond)

module _ (h : Heap) (rs ys : List Block) (n : ℕ) (d : ℕ → ℕ)
    (l : IsLayout h rs (used n d ∷ ys)) where
  abbrev at_cur : ℕ
  at_cur = h.hbase + total rs

  abbrev poisoned : Memory
  poisoned = memset (at_cur + 16) poison_byte n h.mem

  filled : IsFilled poison_byte (at_cur + 16) n h.mem poisoned
  filled = memset-IsFilled (at_cur + 16) poison_byte n h.mem

  abbrev loose_mem : Memory
  loose_mem = set_used at_cur 0 (set_magic at_cur magic_free poisoned)

  offset : total rs % 16 ≡ 0
  offset = total-aligned h.hbase h.mem rs (first_free (total rs + 16 + n) ys) l.before

  loose-same : (x : ℕ) → Outside at_cur (16 + n) x → loose_mem x ≡ h.mem x
  loose-same x p = grind (arith, store32-SameOff, filled.outside x)

  poisoned-IsBytes : IsBytes poisoned
  poisoned-IsBytes x = elim (Bool-cases (ltb x (at_cur + 16) || leb (at_cur + 16 + n) x)) [
    | inl off ↦ ground (arith, filled.outside x, l.bytes x)
    | inr on ↦ ground (arith, filled.inside x)
  ]

  poisoned_header :
      (magic poisoned at_cur ≡ magic_used)
      × (size poisoned at_cur ≡ n)
      × (is_used poisoned at_cur ≡ 1)
  poisoned_header =
      let same = header_frame at_cur h.mem poisoned (λ x p q. filled.outside x (omega arith)) in
      (same.0 ∙ l.after.0.0, same.1 ∙ l.after.0.1, same.3 ∙ l.after.0.2)

  loosened-IsLoose : IsLoose (loosened h (total rs) n) rs n ys
  unfolding mark_free poison_free
  loosened-IsLoose = record {
    before =
        Before-frame h.hbase h.mem loose_mem rs _ (λ x p q. loose-same x (omega arith)) l.before;
    after =
        After-frame h.hbase h.mem loose_mem (total rs + 16 + n) ys
          (λ x p q. loose-same x (omega arith)) l.after.1;
    head = l.head;
    marked = grind (arith, load32-store32, offset, l.aligned);
    sized = grind (arith, load32-store32, offset, l.aligned, poisoned_header);
    unused = grind (arith, load32-store32, offset, l.aligned);
    whole = l.after.0.3;
    extent = omega (arith, l.extent);
    bounded = l.bounded;
    aligned = l.aligned;
    present = l.present;
    bytes = store32-IsBytes _ _ _ (store32-IsBytes _ _ _ poisoned-IsBytes);
  }

  abbrev freed_at : ℕ × Heap
  freed_at =
      insert_free (total rs) (last_free rs) (first_free (total rs + 16 + n) ys)
        (loosened h (total rs) n)

  kfree_lem : kfree (h.hbase + total rs + 16) h ≡ some (merge_next freed_at.0 freed_at.1)
  unfolding kfree
  kfree_lem =
      let off : u32 (h.hbase + total rs + 16 + 2 ^ 64 - h.hbase - 16) ≡ total rs =
        omega (arith, l.extent, l.bounded) in
      let size_after : size (poison_free (h.hbase + total rs + 16) n h).mem at_cur ≡ n =
        unfold poison_free in poisoned_header.1 in
      rw (
        off,
        l.after.0.1,
        l.after.0.0,
        l.after.0.2,
        ne→== (h.hbase + total rs + 16) 0 (omega arith),
        gt→leb (2 ^ 31) (total rs) (omega (arith, l.extent, l.bounded)),
        gt→leb h.hsize (total rs) (omega (arith, l.extent, l.bounded)),
        size_after,
        loose_walk (loosened h (total rs) n) rs ys n loosened-IsLoose,
      )

-- The state in which `kfree` leaves a block of `n` bytes: free, with the free blocks that touch it
-- taken in, and every block in use as it was.
pub record IsFreed (h : Heap) (rs ys : List Block) (n : ℕ) (w : Heap) : Type 0 where
  pub layout : IsLayout w (left_of rs) (join_right (left_size rs n) ys)
  pub gone : magic w.mem (h.hbase + total rs) ≡ magic_free
  pub counted : w.st ≡ count_free n h.st
  pub same_base : w.hbase ≡ h.hbase
  pub same_size : w.hsize ≡ h.hsize

module _ (h : Heap) (rs ys : List Block) (n : ℕ) (d : ℕ → ℕ)
    (l : IsLayout h rs (used n d ∷ ys)) where
  -- The link and merge writes, together.
  freed-IsRelinked :
      let w = freed_at h rs ys n d l in IsRelinked (loosened h (total rs) n) (merge_next w.0 w.1)
  unfolding mark_free poison_free
  freed-IsRelinked =
      let loose = loosened-IsLoose h rs ys n d l in
      let (o, inserted) = insert_free-IsLayout (loosened h (total rs) n) rs ys n loose in
      let w = freed_at h rs ys n d l in
      let link : LinkAligned (loosened h (total rs) n) (last_free rs) =
        omega (
          arith,
          last_free-aligned h.hbase (loose_mem h rs ys n d l) rs _ loose.before,
          l.aligned,
        ) in
      let place : total (left_of rs) % 16 ≡ 0 =
        total-aligned w.1.hbase w.1.mem (left_of rs) _ inserted.before in
      IsRelinked-trans
        (insert_free-IsRelinked (loosened h (total rs) n) (total rs) (last_free rs) _
          (omega (arith, l.aligned, offset h rs ys n d l)) link)
        (merge_next-IsRelinked w.1 w.0 (omega (arith, o, place, inserted.aligned)))

  -- On a laid-out heap `kfree` of the pointer to a block in use returns, and leaves the heap laid out
  -- with that block free and merged with the free blocks that touch it, its header marked free, and
  -- the counters moved by its size.
  pub kfree-IsFreed :
      (w : Heap) × (kfree (h.hbase + total rs + 16) h ≡ some w) × IsFreed h rs ys n w
  unfolding mark_free poison_free
  kfree-IsFreed =
      let loose = loosened-IsLoose h rs ys n d l in
      let (o, inserted) = insert_free-IsLayout (loosened h (total rs) n) rs ys n loose in
      let w = freed_at h rs ys n d l in
      let rest = freed-IsRelinked in
      (
        merge_next w.0 w.1,
        kfree_lem h rs ys n d l,
        record {
          layout =
              subst (λ k. IsLayout (merge_next k w.1) (left_of rs) (join_right (left_size rs n) ys))
                (sym o) (merge_next-IsLayout w.1 (left_of rs) ys (left_size rs n) inserted);
          gone =
              rest.same_magic (h.hbase + total rs) (omega (arith, l.aligned, offset h rs ys n d l))
              ∙ loose.marked;
          counted = rest.same_stats;
          same_base = rest.same_base;
          same_size = rest.same_size;
        },
      )

  -- On a laid-out heap the pointer to a block in use, freed twice in a row, is refused the second
  -- time: only the error counter changes.
  pub kfree-kfree :
      (w : Heap) × (kfree (h.hbase + total rs + 16) h ≡ some w)
      × (kfree (h.hbase + total rs + 16) w ≡ some (count_error w))
  kfree-kfree = let (w, returns, freed) = kfree-IsFreed in (w, returns, again w freed)
    where
      again :
          (w : Heap)
          → IsFreed h rs ys n w
          → kfree (h.hbase + total rs + 16) w ≡ some (count_error w)
      again w freed =
          let off : u32 (h.hbase + total rs + 16 + 2 ^ 64 - w.hbase - 16) ≡ total rs =
            omega (arith, l.extent, l.bounded, freed.same_base) in
          kfree-refuses (h.hbase + total rs + 16) (total rs) w (omega arith) off
            (inr (inr (inl (rw (freed.same_base, freed.gone) λ e. absurd (omega arith)))))
