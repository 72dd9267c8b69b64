-- ===== src/Heap/Alloc/Split.antt =====
-- Splitting a free block leaves two free blocks.
use obsidian_kernel.Base.{ℕ, ◌+◌, ◌-◌, ◌%◌, ◌^◌, ◌≤◌, ◌<◌, ◌≡◌, List, ◌∷◌, arith, ◌∙◌, u32}
use obsidian_kernel.Memory.{Memory}
use obsidian_kernel.Memory.Access.{Outside, IsBytes, store32-IsBytes, store32-SameOff, load32-lt}
use obsidian_kernel.Heap.{
  Heap, magic, size, next_off, is_used, split_block, magic_free, set_magic, set_size, set_next_off,
  set_used,
}
use obsidian_kernel.Heap.Header.{load32-store32}
use obsidian_kernel.Heap.Layout.{Block, free, total, first_free, After, IsLayout}
use obsidian_kernel.Heap.Layout.Frame.{After-frame, Before-frame, total-aligned}

-- The six stores of a split, with the header of the rest at `b`.
abbrev split_stores : (a b left next need off : ℕ) → Memory → Memory
split_stores a b left next need off m = set_next_off a off (
    set_size a need
      (set_used b 0 (set_next_off b next (set_size b left (set_magic b magic_free m)))))

abbrev Reads : Memory → (a g s v u : ℕ) → Type 0
Reads w a g s v u = (magic w a ≡ g) × (size w a ≡ s) × (next_off w a ≡ v) × (is_used w a ≡ u)

-- Two aligned headers that do not overlap, and values that are words.
record Fits (a b left next need off : ℕ) : Type 0 where
  cur_aligned : a % 16 ≡ 0
  rest_aligned : b % 16 ≡ 0
  apart : a + 16 ≤ b
  left_word : left < 2 ^ 32
  next_word : next < 2 ^ 32
  need_word : need < 2 ^ 32
  off_word : off < 2 ^ 32

module _ (a b left next need off : ℕ) (m : Memory) (fits : Fits a b left next need off) where
  split_cur : Reads (split_stores a b left next need off m) a (magic m a) need off (is_used m a)
  split_cur = (
    grind (arith, load32-store32),
    grind (arith, load32-store32),
    grind (arith, load32-store32),
    grind (arith, load32-store32),
  )

  split_rest : Reads (split_stores a b left next need off m) b magic_free left next 0
  split_rest = (
    grind (arith, load32-store32),
    grind (arith, load32-store32),
    grind (arith, load32-store32),
    grind (arith, load32-store32),
  )

module _ (a b left next need off : ℕ) (m : Memory) where
  split_same :
      (x : ℕ) → Outside a 16 x → Outside b 16 x → split_stores a b left next need off m x ≡ m x
  split_same x p q = grind (arith, store32-SameOff)

  split-IsBytes : IsBytes m → IsBytes (split_stores a b left next need off m)
  split-IsBytes h = search (store32-IsBytes, h) depth 8

module _ (h : Heap) (rs ys : List Block) (n need : ℕ) (l : IsLayout h rs (free n ∷ ys))
    (room : need + 32 ≤ n) (whole : need % 16 ≡ 0) where
  abbrev at_cur : ℕ
  at_cur = h.hbase + total rs

  abbrev at_rest : ℕ
  at_rest = h.hbase + (total rs + 16 + need)

  abbrev after_link : ℕ
  after_link = first_free (total rs + 16 + n) ys

  abbrev split_mem : Memory
  split_mem =
      split_stores at_cur at_rest (n - need - 16) after_link need (total rs + 16 + need) h.mem

  offset : total rs % 16 ≡ 0
  offset = total-aligned h.hbase h.mem rs (total rs) l.before

  link_fits : after_link < 2 ^ 32
  link_fits = rw (← l.after.0.2) (load32-lt h.mem (at_cur + 8) l.bytes)

  split_block-mem : split_block (total rs) need h ≡ record h { mem = split_mem }
  unfolding split_block
  split_block-mem =
      let new_off : u32 (total rs + 16 + need) ≡ total rs + 16 + need =
        omega (arith, l.extent, l.bounded) in
      let kept_size : size (set_magic at_rest magic_free h.mem) at_cur ≡ n =
        grind (arith, load32-store32, offset, l.aligned, l.after.0.1) in
      let left : u32 (n + 2 ^ 64 - need - 16) ≡ n - need - 16 =
        omega (arith, l.extent, l.bounded) in
      let kept_link : next_off
            (set_size at_rest (n - need - 16) (set_magic at_rest magic_free h.mem)) at_cur
          ≡ after_link =
        grind (arith, load32-store32, offset, l.aligned, l.after.0.2, l.extent, l.bounded) in
      rw (new_off, kept_size, left, kept_link)

  fits : Fits at_cur at_rest (n - need - 16) after_link need (total rs + 16 + need)
  fits = omega (arith, offset, link_fits, l.aligned, l.extent, l.bounded)

  -- The blocks after the split one stand as before.
  After-rest : After h.hbase split_mem (total rs + 16 + n) ys
  After-rest =
      After-frame h.hbase h.mem split_mem (total rs + 16 + n) ys
        (λ x p q. split_same at_cur at_rest _ _ _ _ h.mem x (omega arith) (omega arith)) l.after.1

  pub split_block-IsLayout :
      IsLayout (split_block (total rs) need h) rs (free need ∷ free (n - need - 16) ∷ ys)
  split_block-IsLayout =
      let same_end : total rs + 16 + need + 16 + (n - need - 16) ≡ total rs + 16 + n =
        omega arith in
      let cur = split_cur at_cur at_rest _ _ _ _ h.mem fits in
      let rest = split_rest at_cur at_rest _ _ _ _ h.mem fits in
      rw split_block-mem (record {
        before =
            Before-frame h.hbase h.mem split_mem rs (total rs)
              (λ x p q. split_same at_cur at_rest _ _ _ _ h.mem x (omega arith) (omega arith))
              l.before;
        after = (
          (cur.0 ∙ l.after.0.0, cur.1, cur.2, cur.3 ∙ l.after.0.3, whole),
          rw same_end ((rest.0, rest.1, rest.2, rest.3, omega (arith, l.after.0.4)), After-rest),
        );
        head = l.head;
        extent = omega (arith, l.extent);
        bounded = l.bounded;
        aligned = l.aligned;
        present = l.present;
        bytes = split-IsBytes at_cur at_rest _ _ _ _ h.mem l.bytes;
      })
