-- ===== src/Heap/Layout.antt =====
-- The heap as a row of blocks: what the headers in memory say of it. A position in the row splits
-- it into the blocks before it, nearest first, and those after it.
pub mod Frame
use obsidian_kernel.Base.{ℕ, ◌+◌, ◌%◌, ◌^◌, ◌≤◌, ◌<◌, ◌≡◌, List, [], ◌∷◌}
use obsidian_kernel.Memory.{Memory}
use obsidian_kernel.Memory.Access.{IsBytes}
use obsidian_kernel.Heap.{Heap, magic, size, next_off, is_used, magic_used, magic_free, end_of_list}

-- A block has its payload size; a block in use also has its bytes.
pub data Block : Type 0 where
  free : ℕ → Block
  used : ℕ → (ℕ → ℕ) → Block

abbrev pub payload : Block → ℕ
payload (free n) = n
payload (used n d) = n

-- Headers included.
abbrev pub total : List Block → ℕ
total [] = 0
total (b ∷ bs) = total bs + 16 + payload b

-- Where the free list enters the blocks from offset `o` on.
abbrev pub first_free : ℕ → List Block → ℕ
first_free o [] = end_of_list
first_free o (free n ∷ ys) = o
first_free o (used n d ∷ ys) = first_free (o + 16 + n) ys

-- The nearest free block of those before a position.
abbrev pub last_free : List Block → ℕ
last_free [] = end_of_list
last_free (free n ∷ rs) = total rs
last_free (used n d ∷ rs) = last_free rs

-- What `free_head` holds if the list, past the blocks before a position, goes on at `v`.
abbrev pub enter : List Block → ℕ → ℕ
enter [] v = v
enter (free n ∷ rs) v = enter rs (total rs)
enter (used n d ∷ rs) v = enter rs v

module _ (base : ℕ) (m : Memory) where
  -- The header of block `b` stands at offset `o`; if it is free, its link is `v`.
  abbrev pub BlockAt : ℕ → Block → ℕ → Type 0
  BlockAt o (free n) v =
      (magic m (base + o) ≡ magic_free)
      × (size m (base + o) ≡ n)
      × (next_off m (base + o) ≡ v)
      × (is_used m (base + o) ≡ 0)
      × (n % 16 ≡ 0)
  BlockAt o (used n d) v =
      (magic m (base + o) ≡ magic_used)
      × (size m (base + o) ≡ n)
      × (is_used m (base + o) ≡ 1)
      × (n % 16 ≡ 0)
      × ((i : ℕ) → i < n → m (base + o + 16 + i) ≡ d i)

  abbrev pub After : ℕ → List Block → Type 0
  After o [] = Unit {0}
  After o (b ∷ ys) =
      BlockAt o b (first_free (o + 16 + payload b) ys) × After (o + 16 + payload b) ys

  abbrev pub Before : List Block → ℕ → Type 0
  Before [] v = Unit {0}
  Before (free n ∷ rs) v = BlockAt (total rs) (free n) v × Before rs (total rs)
  Before (used n d ∷ rs) v = BlockAt (total rs) (used n d) v × Before rs v

-- The state of the allocator at a position between the blocks `rs` and `ys`.
pub record IsLayout (h : Heap) (rs ys : List Block) : Type 0 where
  pub before : Before h.hbase h.mem rs (first_free (total rs) ys)
  pub after : After h.hbase h.mem (total rs) ys
  pub head : h.free_head ≡ enter rs (first_free (total rs) ys)
  pub extent : total rs + total ys ≡ h.hsize
  pub bounded : h.hsize ≤ 2 ^ 31
  pub aligned : h.hbase % 16 ≡ 0
  pub present : 0 < h.hbase
  pub bytes : IsBytes h.mem
