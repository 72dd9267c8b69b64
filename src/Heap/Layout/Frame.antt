-- ===== src/Heap/Layout/Frame.antt =====
-- A write elsewhere leaves the headers as they are, and a position may move.
use obsidian_kernel.Base.{ℕ, ◌+◌, ◌%◌, ◌≡◌, List, [], ◌∷◌, arith, refl, ◌∙◌}
use obsidian_kernel.Memory.{Memory}
use obsidian_kernel.Memory.Access.{SameOn, load32_ext}
use obsidian_kernel.Heap.{Heap, magic, size, next_off, is_used}
use obsidian_kernel.Heap.Layout.{
  Block, free, used, payload, total, first_free, BlockAt, After, Before, IsLayout,
}

pub header_frame :
    (a : ℕ) (m w : Memory)
    → SameOn a 16 m w
    → (magic w a ≡ magic m a)
      × (size w a ≡ size m a)
      × (next_off w a ≡ next_off m a)
      × (is_used w a ≡ is_used m a)
header_frame a m w same = (
  load32_ext m w a (λ x p q. same x p (omega arith)),
  load32_ext m w (a + 4) (λ x p q. same x (omega arith) (omega arith)),
  load32_ext m w (a + 8) (λ x p q. same x (omega arith) (omega arith)),
  load32_ext m w (a + 12) (λ x p q. same x (omega arith) (omega arith)),
)

module _ (base : ℕ) (m w : Memory) where
  pub BlockAt-frame :
      (o v : ℕ) (b : Block)
      → SameOn (base + o) (16 + payload b) m w
      → BlockAt base m o b v
      → BlockAt base w o b v
  BlockAt-frame o v (free n) same at =
      ground (arith, header_frame (base + o) m w (λ x p q. same x p (omega arith)))
  BlockAt-frame o v (used n d) same (g, s, u, al, held) =
      let same_header = header_frame (base + o) m w (λ x p q. same x p (omega arith)) in
      (
        same_header.0 ∙ g,
        same_header.1 ∙ s,
        same_header.3 ∙ u,
        al,
        λ i p. same (base + o + 16 + i) (omega arith) (omega arith) ∙ held i p,
      )

  pub After-frame :
      (o : ℕ) (ys : List Block)
      → SameOn (base + o) (total ys) m w
      → After base m o ys
      → After base w o ys
  After-frame o [] same at = tt
  After-frame o (b ∷ ys) same (at, rest) = (
    BlockAt-frame o (first_free (o + 16 + payload b) ys) b (λ x p q. same x p (omega arith)) at,
    After-frame (o + 16 + payload b) ys (λ x p q. same x (omega arith) (omega arith)) rest,
  )

  pub Before-frame :
      (rs : List Block) (v : ℕ)
      → SameOn base (total rs) m w
      → Before base m rs v
      → Before base w rs v
  Before-frame [] v same at = tt
  Before-frame (free n ∷ rs) v same (at, rest) = (
    BlockAt-frame (total rs) v (free n) (λ x p q. same x (omega arith) (omega arith)) at,
    Before-frame rs (total rs) (λ x p q. same x p (omega arith)) rest,
  )
  Before-frame (used n d ∷ rs) v same (at, rest) = (
    BlockAt-frame (total rs) v (used n d) (λ x p q. same x (omega arith) (omega arith)) at,
    Before-frame rs v (λ x p q. same x p (omega arith)) rest,
  )

-- Every offset is a multiple of 16.
pub total-aligned :
    (base : ℕ) (m : Memory) (rs : List Block) (v : ℕ) → Before base m rs v → total rs % 16 ≡ 0
total-aligned base m [] v at = refl
total-aligned base m (free n ∷ rs) v at = omega (arith, total-aligned base m rs (total rs) at.1)
total-aligned base m (used n d ∷ rs) v at = omega (arith, total-aligned base m rs v at.1)

-- The same state, seen from one block further on, and back.
pub move_right :
    (h : Heap) (rs ys : List Block) (b : Block) → IsLayout h rs (b ∷ ys) → IsLayout h (b ∷ rs) ys
move_right h rs ys (free n) l = record {
  before = (l.after.0, l.before);
  after = l.after.1;
  head = l.head;
  extent = omega (arith, l.extent);
  bounded = l.bounded;
  aligned = l.aligned;
  present = l.present;
  bytes = l.bytes;
}
move_right h rs ys (used n d) l = record {
  before = (l.after.0, l.before);
  after = l.after.1;
  head = l.head;
  extent = omega (arith, l.extent);
  bounded = l.bounded;
  aligned = l.aligned;
  present = l.present;
  bytes = l.bytes;
}

pub move_left :
    (h : Heap) (rs ys : List Block) (b : Block) → IsLayout h (b ∷ rs) ys → IsLayout h rs (b ∷ ys)
move_left h rs ys (free n) l = record {
  before = l.before.1;
  after = (l.before.0, l.after);
  head = l.head;
  extent = omega (arith, l.extent);
  bounded = l.bounded;
  aligned = l.aligned;
  present = l.present;
  bytes = l.bytes;
}
move_left h rs ys (used n d) l = record {
  before = l.before.1;
  after = (l.before.0, l.after);
  head = l.head;
  extent = omega (arith, l.extent);
  bounded = l.bounded;
  aligned = l.aligned;
  present = l.present;
  bytes = l.bytes;
}
