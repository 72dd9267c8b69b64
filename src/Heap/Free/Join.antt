-- ===== src/Heap/Free/Join.antt =====
-- Two free blocks that touch become one: the two stores of either merge.
use obsidian_kernel.Base.{ℕ, ◌+◌, ◌%◌, ◌^◌, ◌<◌, ◌≡◌, List, ◌∷◌, arith, u32}
use obsidian_kernel.Memory.{Memory}
use obsidian_kernel.Memory.Access.{Outside, store32-IsBytes, store32-SameOff, load32-lt}
use obsidian_kernel.Heap.{Heap, size, next_off, set_size, set_next_off}
use obsidian_kernel.Heap.Header.{load32-store32}
use obsidian_kernel.Heap.Layout.{Block, free, total, first_free, IsLayout}
use obsidian_kernel.Heap.Layout.Frame.{After-frame, Before-frame, total-aligned}

-- The header at `a` takes in the block with the header at `b`.
abbrev pub joined : ℕ → ℕ → Memory → Memory
joined a b m =
    let w = set_size a (u32 (size m a + 16 + size m b)) m in set_next_off a (next_off w b) w

module _ (h : Heap) (rs ys : List Block) (k n : ℕ) (l : IsLayout h rs (free k ∷ free n ∷ ys)) where
  abbrev at_left : ℕ
  at_left = h.hbase + total rs

  abbrev at_right : ℕ
  at_right = h.hbase + (total rs + 16 + k)

  abbrev after_link : ℕ
  after_link = first_free (total rs + 16 + k + 16 + n) ys

  abbrev joined_mem : Memory
  joined_mem = set_next_off at_left after_link (set_size at_left (k + 16 + n) h.mem)

  offset : total rs % 16 ≡ 0
  offset = total-aligned h.hbase h.mem rs (total rs) l.before

  link_word : after_link < 2 ^ 32
  link_word = rw (← l.after.1.0.2) (load32-lt h.mem (at_right + 8) l.bytes)

  joined_lem : joined at_left at_right h.mem ≡ joined_mem
  joined_lem =
      let fits : u32 (k + 16 + n) ≡ k + 16 + n = omega (arith, l.extent, l.bounded) in
      let kept : next_off (set_size at_left (k + 16 + n) h.mem) at_right ≡ after_link = grind (
        arith, load32-store32, offset, l.aligned, l.after.1.0.2, l.after.0.4, l.extent, l.bounded,
      ) in
      rw (l.after.0.1, l.after.1.0.1, fits, kept)

  same : (x : ℕ) → Outside at_left 16 x → joined_mem x ≡ h.mem x
  same x p = grind (arith, store32-SameOff)

  pub joined-IsLayout :
      IsLayout (record h { mem = joined at_left at_right h.mem }) rs (free (k + 16 + n) ∷ ys)
  joined-IsLayout =
      let same_end : total rs + 16 + (k + 16 + n) ≡ total rs + 16 + k + 16 + n = omega arith in
      rw joined_lem (record {
        before =
            Before-frame h.hbase h.mem joined_mem rs (total rs) (λ x p q. same x (omega arith))
              l.before;
        after = rw same_end (
          (
            grind (
              arith, load32-store32, offset, l.aligned, link_word, l.extent, l.bounded, l.after.0.0,
            ),
            grind (arith, load32-store32, offset, l.aligned, link_word, l.extent, l.bounded),
            grind (arith, load32-store32, offset, l.aligned, link_word, l.extent, l.bounded),
            grind (
              arith, load32-store32, offset, l.aligned, link_word, l.extent, l.bounded, l.after.0.3,
            ),
            omega (arith, l.after.0.4, l.after.1.0.4),
          ),
          After-frame h.hbase h.mem joined_mem (total rs + 16 + k + 16 + n) ys
              (λ x p q. same x (omega arith)) l.after.1.1,
        );
        head = l.head;
        extent = omega (arith, l.extent);
        bounded = l.bounded;
        aligned = l.aligned;
        present = l.present;
        bytes = store32-IsBytes _ _ _ (store32-IsBytes _ _ _ l.bytes);
      })
