-- ===== src/Heap/Alloc/Take.antt =====
-- Taking a free block out of the list and marking it used.
use obsidian_kernel.Base.{ℕ, ◌+◌, ◌%◌, ◌^◌, ◌≤◌, ◌<◌, ◌≡◌, List, ◌∷◌, arith}
use obsidian_kernel.Memory.{Memory}
use obsidian_kernel.Memory.Access.{store32-IsBytes, store32-SameOff, load32-lt}
use obsidian_kernel.Heap.{
  Heap, HeapStats, Guard, size, next_off, set_magic, set_used, set_link, mark_used, magic_used,
}
use obsidian_kernel.Heap.Header.{load32-store32}
use obsidian_kernel.Heap.Layout.{Block, free, used, total, first_free, last_free, IsLayout}
use obsidian_kernel.Heap.Layout.Frame.{header_frame, After-frame, Before-frame, total-aligned}
use obsidian_kernel.Heap.Link.{
  linked_mem, linked_head, set_link_lem, linked-IsBytes, linked-same, linked-head, Before-linked,
}

-- The two stores of `mark_used`.
abbrev used_stores : ℕ → Memory → Memory
used_stores a m = set_magic a magic_used (set_used a 1 m)

-- The counters are no part of the layout.
pub with_counters :
    (h : Heap) (rs ys : List Block) (s : HeapStats) (g : Guard)
    → IsLayout h rs ys
    → IsLayout (record h { st = s; guard = g }) rs ys
with_counters h rs ys s g l = record {
  before = l.before;
  after = l.after;
  head = l.head;
  extent = l.extent;
  bounded = l.bounded;
  aligned = l.aligned;
  present = l.present;
  bytes = l.bytes;
}

module _ (h : Heap) (rs ys : List Block) (n : ℕ) (l : IsLayout h rs (free n ∷ ys)) where
  abbrev pub at_cur : ℕ
  at_cur = h.hbase + total rs

  abbrev pub after_link : ℕ
  after_link = first_free (total rs + 16 + n) ys

  -- The bytes of the block, as the allocation found them.
  abbrev pub garbage : ℕ → ℕ
  garbage i = h.mem (h.hbase + total rs + 16 + i)

  abbrev pub linked : Memory
  linked = linked_mem h after_link (last_free rs)

  abbrev pub taken_mem : Memory
  taken_mem = used_stores at_cur linked

  same : (x : ℕ) → at_cur + 16 ≤ x → taken_mem x ≡ h.mem x
  same x p = grind (arith, store32-SameOff, linked-same h after_link rs x (omega arith))

  same_before : (x : ℕ) → x < at_cur → taken_mem x ≡ linked x
  same_before x p = grind (arith, store32-SameOff)

  offset : total rs % 16 ≡ 0
  offset = total-aligned h.hbase h.mem rs (total rs) l.before

  link_word : after_link < 2 ^ 32
  link_word = rw (← l.after.0.2) (load32-lt h.mem (at_cur + 8) l.bytes)

  pub taken_size : size taken_mem at_cur ≡ n
  taken_size = grind (
    arith,
    load32-store32,
    offset,
    l.aligned,
    (header_frame at_cur h.mem linked (λ x p q. linked-same h after_link rs x p)).1,
    l.after.0.1,
  )

  abbrev pub taken : Heap
  taken = record h { mem = taken_mem; free_head = linked_head h after_link (last_free rs) }

  pub taken_lem : mark_used (total rs) (set_link (last_free rs) (next_off h.mem at_cur) h) ≡ taken
  unfolding mark_used
  taken_lem = rw (l.after.0.2, set_link_lem h after_link (last_free rs))

  pub taken-IsLayout : IsLayout taken rs (used n garbage ∷ ys)
  taken-IsLayout = record {
    before =
        Before-frame h.hbase linked taken_mem rs after_link (λ x p q. same_before x q)
          (Before-linked h after_link l.aligned link_word rs (total rs)
            (omega (arith, l.extent, l.bounded)) l.before);
    after = (
      (
        grind (arith, load32-store32, offset, l.aligned),
        taken_size,
        grind (arith, load32-store32, offset, l.aligned),
        l.after.0.4,
        λ i p. same (at_cur + 16 + i) (omega arith),
      ),
      After-frame h.hbase h.mem taken_mem (total rs + 16 + n) ys (λ x p q. same x (omega arith))
          l.after.1,
    );
    head = linked-head h after_link rs (total rs) (omega (arith, l.extent, l.bounded)) l.head;
    extent = l.extent;
    bounded = l.bounded;
    aligned = l.aligned;
    present = l.present;
    bytes =
        store32-IsBytes _ _ _
          (store32-IsBytes _ _ _ (linked-IsBytes h after_link (last_free rs) l.bytes));
  }
