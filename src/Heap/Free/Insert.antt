-- ===== src/Heap/Free/Insert.antt =====
-- Linking the freed block into the list, and the merges with its neighbours.
use obsidian_kernel.Base.{
  ℕ, ◌+◌, ◌%◌, ◌^◌, ◌≤◌, ◌<◌, ◌≡◌, ◌≢◌, List, [], ◌∷◌, arith, refl, ◌∙◌, ◌==◌, ne→==, inl, inr,
  false, Bool-cases, sym, ==-refl,
}
use obsidian_kernel.Memory.{Memory}
use obsidian_kernel.Memory.Access.{Outside, IsBytes, store32-IsBytes, store32-SameOff}
use obsidian_kernel.Heap.{
  Heap, magic, size, is_used, set_next_off, set_link, merge_prev, insert_free, merge_next,
  magic_free, end_of_list,
}
use obsidian_kernel.Heap.Header.{load32-store32}
use obsidian_kernel.Heap.Layout.{
  Block, free, used, total, first_free, last_free, enter, After, Before, BlockAt, IsLayout,
}
use obsidian_kernel.Heap.Layout.Frame.{
  After-frame, Before-frame, BlockAt-frame, total-aligned, move_left,
}
use obsidian_kernel.Heap.Link.{
  linked_mem, linked_head, set_link_lem, linked-IsBytes, linked-same, linked-head, Before-linked,
}
use obsidian_kernel.Heap.Free.Walk.{first_free-ge}
use obsidian_kernel.Heap.Free.Join.{joined-IsLayout}

-- The state at the freed block, when its header says free and the list does not hold it yet.
pub record IsLoose (h : Heap) (rs : List Block) (n : ℕ) (ys : List Block) : Type 0 where
  pub before : Before h.hbase h.mem rs (first_free (total rs + 16 + n) ys)
  pub after : After h.hbase h.mem (total rs + 16 + n) ys
  pub head : h.free_head ≡ enter rs (first_free (total rs + 16 + n) ys)
  pub marked : magic h.mem (h.hbase + total rs) ≡ magic_free
  pub sized : size h.mem (h.hbase + total rs) ≡ n
  pub unused : is_used h.mem (h.hbase + total rs) ≡ 0
  pub whole : n % 16 ≡ 0
  pub extent : total rs + 16 + n + total ys ≡ h.hsize
  pub bounded : h.hsize ≤ 2 ^ 31
  pub aligned : h.hbase % 16 ≡ 0
  pub present : 0 < h.hbase
  pub bytes : IsBytes h.mem

first_free-word : (o : ℕ) (ys : List Block) → o + total ys ≤ 2 ^ 31 → first_free o ys < 2 ^ 32
first_free-word o [] p = omega arith
first_free-word o (free n ∷ ys) p = omega arith
first_free-word o (used n d ∷ ys) p = first_free-word (o + 16 + n) ys (omega arith)

-- After the two link writes of `kfree` the block is in the list.
module _ (h : Heap) (rs ys : List Block) (n : ℕ) (l : IsLoose h rs n ys) where
  abbrev at_cur : ℕ
  at_cur = h.hbase + total rs

  abbrev after_link : ℕ
  after_link = first_free (total rs + 16 + n) ys

  abbrev onward : Heap
  onward = record h { mem = set_next_off at_cur after_link h.mem }

  abbrev inserted_mem : Memory
  inserted_mem = linked_mem onward (total rs) (last_free rs)

  offset : total rs % 16 ≡ 0
  offset = total-aligned h.hbase h.mem rs after_link l.before

  link_word : after_link < 2 ^ 32
  link_word = first_free-word (total rs + 16 + n) ys (omega (arith, l.extent, l.bounded))

  onward_block : BlockAt h.hbase onward.mem (total rs) (free n) after_link
  onward_block = (
    grind (arith, load32-store32, offset, l.aligned, link_word, l.marked),
    grind (arith, load32-store32, offset, l.aligned, link_word, l.sized),
    grind (arith, load32-store32, offset, l.aligned, link_word),
    grind (arith, load32-store32, offset, l.aligned, link_word, l.unused),
    l.whole,
  )

  onward-same : (x : ℕ) → Outside at_cur 16 x → onward.mem x ≡ h.mem x
  onward-same x p = store32-SameOff h.mem (at_cur + 8) after_link x (omega arith)

  abbrev inserted : Heap
  inserted = record h {
    mem = inserted_mem;
    free_head = linked_head onward (total rs) (last_free rs);
  }

  inserted-IsLayout : IsLayout inserted rs (free n ∷ ys)
  inserted-IsLayout = record {
    before =
        Before-linked onward (total rs) l.aligned (omega (arith, l.extent, l.bounded)) rs after_link
          (omega (arith, l.extent, l.bounded))
          (Before-frame h.hbase h.mem onward.mem rs after_link
            (λ x p q. onward-same x (omega arith)) l.before);
    after = (
      BlockAt-frame h.hbase onward.mem inserted_mem (total rs) after_link (free n)
          (λ x p q. linked-same onward (total rs) rs x p) onward_block,
      After-frame h.hbase h.mem inserted_mem (total rs + 16 + n) ys
          (λ x p q. linked-same onward (total rs) rs x (omega arith) ∙ onward-same x (omega arith))
          l.after,
    );
    head = linked-head onward (total rs) rs after_link (omega (arith, l.extent, l.bounded)) l.head;
    extent = omega (arith, l.extent);
    bounded = l.bounded;
    aligned = l.aligned;
    present = l.present;
    bytes = linked-IsBytes onward (total rs) (last_free rs) (store32-IsBytes _ _ _ l.bytes);
  }

  inserted_lem : set_link (last_free rs) (total rs) onward ≡ inserted
  inserted_lem = set_link_lem onward (total rs) (last_free rs)

-- The free block behind, if any, is taken in.
abbrev pub join_right : ℕ → List Block → List Block
join_right n (free k ∷ ys) = free (n + 16 + k) ∷ ys
join_right n [] = free n ∷ []
join_right n (used k d ∷ ys) = free n ∷ used k d ∷ ys

pub merge_next-IsLayout :
    (h : Heap) (rs ys : List Block) (n : ℕ)
    → IsLayout h rs (free n ∷ ys)
    → IsLayout (merge_next (total rs) h) rs (join_right n ys)
unfolding merge_next
merge_next-IsLayout h rs [] n l =
    rw
      (
        l.after.0.1,
        l.after.0.2,
        ne→== (total rs + 16 + n) end_of_list (omega (arith, l.extent, l.bounded)),
      )
      l
merge_next-IsLayout h rs (free k ∷ ys) n l =
    rw
      (
        l.after.0.1,
        l.after.0.2,
        ==-refl (total rs + 16 + n),
        ne→== (total rs + 16 + n) end_of_list (omega (arith, l.extent, l.bounded)),
        l.after.1.0.0,
        l.after.1.0.3,
      )
      (rw (l.after.0.1) at (joined-IsLayout h rs ys n k l))
merge_next-IsLayout h rs (used k d ∷ ys) n l =
    let away : first_free (total rs + 16 + n + 16 + k) ys ≢ total rs + 16 + n =
      omega (arith, first_free-ge (total rs + 16 + n + 16 + k) ys, l.extent, l.bounded) in
    rw
      (
        l.after.0.1,
        l.after.0.2,
        ne→== (total rs + 16 + n) (first_free (total rs + 16 + n + 16 + k) ys) (λ e. away (sym e)),
      )
      l

-- The nearest free block before a position ends at the position or before.
last_free-span :
    (base : ℕ) (m : Memory) (rs : List Block) (v : ℕ)
    → Before base m rs v
    → last_free rs ≢ end_of_list
    → last_free rs + 16 + size m (base + last_free rs) ≤ total rs
last_free-span base m [] v at ne = absurd (ne refl)
last_free-span base m (free n ∷ rs) v at ne = omega (arith, at.0.1)
last_free-span base m (used n d ∷ rs) v at ne = omega (arith, last_free-span base m rs v at.1 ne)

-- The position of the freed block once the free block before it, if it touches, has taken it in.
abbrev pub left_of : List Block → List Block
left_of (free k ∷ rs) = rs
left_of [] = []
left_of (used k d ∷ rs) = used k d ∷ rs

abbrev pub left_size : List Block → ℕ → ℕ
left_size (free k ∷ rs) n = k + 16 + n
left_size [] n = n
left_size (used k d ∷ rs) n = n

merge_prev-IsLayout :
    (h : Heap) (rs ys : List Block) (n : ℕ)
    → IsLayout h rs (free n ∷ ys)
    → let (o, w) = merge_prev (total rs) (last_free rs) h in
      (o ≡ total (left_of rs)) × IsLayout w (left_of rs) (free (left_size rs n) ∷ ys)
unfolding merge_prev
merge_prev-IsLayout h [] ys n l = (refl, l)
merge_prev-IsLayout h (free k ∷ rs) ys n l =
    rw
      (
        ne→== (total rs) end_of_list (omega (arith, l.extent, l.bounded)),
        l.before.0.1,
        ==-refl (total rs + 16 + k),
      )
      ((
        refl,
        rw (l.before.0.1) at
            (joined-IsLayout h rs ys k n (move_left h rs (free n ∷ ys) (free k) l)),
      ))
merge_prev-IsLayout h (used k d ∷ rs) ys n l = elim (Bool-cases (last_free rs == end_of_list)) [
  | inl none_before ↦ rw none_before ((refl, l))
  | inr some_before ↦
      let gap : (last_free rs + 16 + size h.mem (h.hbase + last_free rs) == total rs + 16 + k)
          ≡ false =
        ne→== _ _ (
          omega (
            arith,
            last_free-span h.hbase h.mem rs (total rs + 16 + k) l.before.1 (ground arith),
          )) in
      rw (some_before, gap) ((refl, l))
]

pub insert_free-IsLayout :
    (h : Heap) (rs ys : List Block) (n : ℕ)
    → IsLoose h rs n ys
    → let (o, w) = insert_free (total rs) (last_free rs) (first_free (total rs + 16 + n) ys) h in
      (o ≡ total (left_of rs)) × IsLayout w (left_of rs) (free (left_size rs n) ∷ ys)
unfolding insert_free
insert_free-IsLayout h rs ys n l =
    rw (inserted_lem h rs ys n l)
      (merge_prev-IsLayout (inserted h rs ys n l) rs ys n (inserted-IsLayout h rs ys n l))
