-- ===== src/Heap/Free/Effects.antt =====
-- What the link and merge writes of `kfree` leave alone: the counters, the extent of the heap and
-- every magic number.
use obsidian_kernel.Base.{
  ℕ, ◌+◌, ◌%◌, ◌≡◌, List, [], ◌∷◌, arith, refl, ◌∙◌, ◌==◌, if◌then◌else◌, inl, inr, Bool, true,
  false, Bool-cases, ◌⊎◌,
}
use obsidian_kernel.Memory.{Memory}
use obsidian_kernel.Memory.Access.{load32-store32_ne}
use obsidian_kernel.Heap.{
  Heap, magic, size, set_next_off, set_size, set_link, merge_prev, merge_next, insert_free, hdr_at,
  end_of_list,
}
use obsidian_kernel.Heap.Layout.{Block, free, used, total, last_free, Before}
use obsidian_kernel.Heap.Layout.Frame.{total-aligned}

pub record IsRelinked (h w : Heap) : Type 0 where
  pub same_stats : w.st ≡ h.st
  pub same_base : w.hbase ≡ h.hbase
  pub same_size : w.hsize ≡ h.hsize
  pub same_magic : (a : ℕ) → a % 16 ≡ 0 → magic w.mem a ≡ magic h.mem a

pub IsRelinked-trans : {h w k : Heap} → IsRelinked h w → IsRelinked w k → IsRelinked h k
IsRelinked-trans p q = record {
  same_stats = q.same_stats ∙ p.same_stats;
  same_base = q.same_base ∙ p.same_base;
  same_size = q.same_size ∙ p.same_size;
  same_magic = λ a e. q.same_magic a e ∙ p.same_magic a e;
}

abbrev same : (h : Heap) → IsRelinked h h
same h = record { same_stats = refl; same_base = refl; same_size = refl; same_magic = λ a e. refl }

IsRelinked-if :
    {h x y : Heap} (b : Bool) → IsRelinked h x → IsRelinked h y → IsRelinked h (if b then x else y)
IsRelinked-if true p q = p
IsRelinked-if false p q = q

-- A link is stored in a header, away from every magic number.
set_next-magic :
    (m : Memory) (b v a : ℕ) → b % 16 ≡ 0 → a % 16 ≡ 0 → magic (set_next_off b v m) a ≡ magic m a
set_next-magic m b v a hb ha = load32-store32_ne m (b + 8) a v (omega arith)

set_size-magic :
    (m : Memory) (b v a : ℕ) → b % 16 ≡ 0 → a % 16 ≡ 0 → magic (set_size b v m) a ≡ magic m a
set_size-magic m b v a hb ha = load32-store32_ne m (b + 4) a v (omega arith)

pub set_next-IsRelinked :
    (h : Heap) (b v : ℕ) → b % 16 ≡ 0 → IsRelinked h (record h { mem = set_next_off b v h.mem })
set_next-IsRelinked h b v e = record {
  same_stats = refl;
  same_base = refl;
  same_size = refl;
  same_magic = λ a p. set_next-magic h.mem b v a e p;
}

joined-IsRelinked :
    (h : Heap) (b v k : ℕ)
    → b % 16 ≡ 0
    → IsRelinked h (record h { mem = set_next_off b k (set_size b v h.mem) })
joined-IsRelinked h b v k e = record {
  same_stats = refl;
  same_base = refl;
  same_size = refl;
  same_magic =
      λ a p. set_next-magic (set_size b v h.mem) b k a e p ∙ set_size-magic h.mem b v a e p;
}

-- A link field is aligned, unless the link is `free_head`.
abbrev pub LinkAligned : Heap → ℕ → Type 0
LinkAligned h p = (p ≡ end_of_list) ⊎ ((h.hbase + p) % 16 ≡ 0)

pub set_link-IsRelinked : (h : Heap) (p v : ℕ) → LinkAligned h p → IsRelinked h (set_link p v h)
unfolding set_link
set_link-IsRelinked h p v (inl e) =
    rw e
      (record { same_stats = refl; same_base = refl; same_size = refl; same_magic = λ a e. refl })
set_link-IsRelinked h p v (inr e) =
    IsRelinked-if (p == end_of_list)
      (record { same_stats = refl; same_base = refl; same_size = refl; same_magic = λ a e. refl })
      (set_next-IsRelinked h (h.hbase + p) v e)

pub merge_prev-IsRelinked :
    (h : Heap) (off p : ℕ) → LinkAligned h p → IsRelinked h (merge_prev off p h).1
unfolding merge_prev
merge_prev-IsRelinked h off p (inl e) = rw e (same h)
merge_prev-IsRelinked h off p (inr e) = elim (Bool-cases (p == end_of_list)) [
  | inl last ↦ rw last (same h)
  | inr before ↦ rw before (elim (Bool-cases (p + 16 + size h.mem (hdr_at h p) == off)) [
    | inl touch ↦ rw touch (joined-IsRelinked h (h.hbase + p) _ _ e)
    | inr apart ↦ rw apart (same h)
  ])
]

pub merge_next-IsRelinked :
    (h : Heap) (off : ℕ) → (h.hbase + off) % 16 ≡ 0 → IsRelinked h (merge_next off h)
unfolding merge_next
merge_next-IsRelinked h off e =
    IsRelinked-if _ (IsRelinked-if _ (joined-IsRelinked h (h.hbase + off) _ _ e) (same h)) (same h)

pub insert_free-IsRelinked :
    (h : Heap) (off p v : ℕ)
    → (h.hbase + off) % 16 ≡ 0
    → LinkAligned h p
    → IsRelinked h (insert_free off p v h).1
unfolding insert_free
insert_free-IsRelinked h off p v e al =
    let onward = record h { mem = set_next_off (h.hbase + off) v h.mem } in
    let linked = set_link p off onward in
    let link = set_link-IsRelinked onward p off al in
    IsRelinked-trans (set_next-IsRelinked h (h.hbase + off) v e)
      (IsRelinked-trans link (merge_prev-IsRelinked linked off p (rw (link.same_base) al)))

-- The nearest free block stands at an aligned offset.
pub last_free-aligned :
    (base : ℕ) (m : Memory) (rs : List Block) (v : ℕ)
    → Before base m rs v
    → (last_free rs ≡ end_of_list) ⊎ (last_free rs % 16 ≡ 0)
last_free-aligned base m [] v at = inl refl
last_free-aligned base m (free n ∷ rs) v at = inr (total-aligned base m rs (total rs) at.1)
last_free-aligned base m (used n d ∷ rs) v at = last_free-aligned base m rs v at.1
