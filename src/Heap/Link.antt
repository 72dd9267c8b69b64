-- ===== src/Heap/Link.antt =====
-- The write of a list link: `free_head`, or the `next_off` of the previous free block.
use obsidian_kernel.Base.{
  ℕ, ◌+◌, ◌%◌, ◌^◌, ◌≤◌, ◌<◌, ◌≡◌, List, [], ◌∷◌, arith, refl, ◌==◌, if◌then◌else◌, Bool-cases, inl,
  inr, ne→==, subst, sym,
}
use obsidian_kernel.Memory.{Memory}
use obsidian_kernel.Memory.Access.{IsBytes, store32-IsBytes, store32-SameOff}
use obsidian_kernel.Heap.{Heap, set_next_off, set_link, end_of_list}
use obsidian_kernel.Heap.Header.{load32-store32}
use obsidian_kernel.Heap.Layout.{Block, free, used, total, last_free, enter, Before}
use obsidian_kernel.Heap.Layout.Frame.{BlockAt-frame, Before-frame, total-aligned}

module _ (h : Heap) (v : ℕ) where
  abbrev pub linked_mem : ℕ → Memory
  linked_mem p = if p == end_of_list then h.mem else set_next_off (h.hbase + p) v h.mem

  abbrev pub linked_head : ℕ → ℕ
  linked_head p = if p == end_of_list then v else h.free_head

  pub set_link_lem :
      (p : ℕ) → set_link p v h ≡ record h { mem = linked_mem p; free_head = linked_head p }
  unfolding set_link
  set_link_lem p = ground arith

  pub linked-IsBytes : (p : ℕ) → IsBytes h.mem → IsBytes (linked_mem p)
  linked-IsBytes p b = elim (Bool-cases (p == end_of_list)) [
    | inl last ↦ rw last b
    | inr before ↦ rw before (store32-IsBytes h.mem (h.hbase + p + 8) v b)
  ]

  -- Nothing from the position on is written.
  pub linked-same :
      (rs : List Block) (x : ℕ) → h.hbase + total rs ≤ x → linked_mem (last_free rs) x ≡ h.mem x
  linked-same [] x p = refl
  linked-same (free n ∷ rs) x p = elim (Bool-cases (total rs == end_of_list)) [
    | inl last ↦ rw last
    | inr before ↦ rw before (store32-SameOff h.mem (h.hbase + total rs + 8) v x (omega arith))
  ]
  linked-same (used n d ∷ rs) x p = linked-same rs x (omega arith)

  pub linked-head :
      (rs : List Block) (u : ℕ)
      → total rs ≤ 2 ^ 31
      → h.free_head ≡ enter rs u
      → linked_head (last_free rs) ≡ enter rs v
  linked-head [] u small e = refl
  linked-head (free n ∷ rs) u small e = rw (ne→== (total rs) end_of_list (omega arith)) e
  linked-head (used n d ∷ rs) u small e = linked-head rs u (omega arith) e

  module _ (aligned : h.hbase % 16 ≡ 0) (word : v < 2 ^ 32) where
    pub Before-linked :
        (rs : List Block) (u : ℕ)
        → total rs ≤ 2 ^ 31
        → Before h.hbase h.mem rs u
        → Before h.hbase (linked_mem (last_free rs)) rs v
    Before-linked [] u small at = tt
    Before-linked (free n ∷ rs) u small (at, rest) =
        let offset = total-aligned h.hbase h.mem rs (total rs) rest in
        let w = set_next_off (h.hbase + total rs) v h.mem in
        let written : linked_mem (total rs) ≡ w = rw (ne→== (total rs) end_of_list (omega arith)) in
        subst (λ k. Before h.hbase k (free n ∷ rs) v) (sym written)
          (
            (
              grind (arith, load32-store32, at.0),
              grind (arith, load32-store32, at.1),
              grind (arith, load32-store32),
              grind (arith, load32-store32, at.3),
              at.4,
            ),
            Before-frame h.hbase h.mem w rs (total rs)
                (λ x p q. store32-SameOff h.mem (h.hbase + total rs + 8) v x (omega arith)) rest,
          )
    Before-linked (used n d ∷ rs) u small (at, rest) = (
      BlockAt-frame h.hbase h.mem (linked_mem (last_free rs)) (total rs) v (used n d)
          (λ x p q. linked-same rs x p) at,
      Before-linked rs u (omega arith) rest,
    )
