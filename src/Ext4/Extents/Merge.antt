-- ===== src/Ext4/Extents/Merge.antt =====
-- The runs that appending collects map the blocks of the file as they were allocated.
use obsidian_kernel.Base.{
  ℕ, zero, suc, ◌+◌, ◌-◌, ◌^◌, ◌≤◌, ◌<◌, ◌==◌, leb, Bool, true, false, List, [], ◌∷◌, reverse,
  if◌then◌else◌, ◌&&◌, u32, u64, length, get_or, ◌≡◌, ◌∙◌, refl, ap, sym, subst, arith, Bool-cases,
  inl, inr, some, ge→ltb, lt→ltb, le→leb, gt→leb,
}
use mathlib.Core.List.{reverse_aux}
use obsidian_kernel.Ext4.{Disk, Ext4}
use obsidian_kernel.Ext4.Map.{extent_lookup}
use obsidian_kernel.Ext4.Extents.{Run, add_run, build_tree}
use obsidian_kernel.Ext4.Extents.Inline.{run_search, AreRuns, extent_lookup-build_tree}

-- The runs, last first, of the blocks from `first` on, before `end`.
abbrev pub Lie : ℕ → List Run → ℕ → Type 0
Lie first [] end = end ≡ first
Lie first (r ∷ runs) end =
    (r.first_block + r.count ≡ end)
    × (0 < r.count)
    × (first ≤ r.first_block)
    × (r.start + r.count < 2 ^ 48)
    × Lie first runs r.first_block

-- The block that a block of the file stands in, by the last run that begins before it.
abbrev pub last_run : List Run → ℕ → ℕ
last_run [] logical = 0
last_run (r ∷ runs) logical =
    if leb r.first_block logical then r.start + (logical - r.first_block) else last_run runs logical

Lie-first : (first : ℕ) (runs : List Run) (end : ℕ) → Lie first runs end → first ≤ end
Lie-first first [] end h = omega arith
Lie-first first (r ∷ runs) end h = omega (arith, h)

-- What a run behind others does not have is looked for behind it.
search_past :
    (first : ℕ) (runs : List Run) (end logical : ℕ) (others : List Run)
    → Lie first runs end
    → end ≤ logical
    → run_search (reverse_aux runs others) logical ≡ run_search others logical
search_past first [] end logical others h past = refl
search_past first (r ∷ runs) end logical others h past =
    search_past first runs r.first_block logical (r ∷ others) h.4 (omega (arith, h))
    ∙ rw
        (
          le→leb r.first_block logical (omega (arith, h)),
          ge→ltb logical (r.first_block + r.count) (omega (arith, h)),
        )
        refl

search_in :
    (first : ℕ) (runs : List Run) (end logical : ℕ) (others : List Run)
    → Lie first runs end
    → first ≤ logical
    → logical < end
    → run_search (reverse_aux runs others) logical ≡ last_run runs logical
search_in first [] end logical others h low high = grind (arith, h)
search_in first (r ∷ runs) end logical others h low high =
    elim (Bool-cases (leb r.first_block logical)) [
      | inl a ↦
          search_past first runs r.first_block logical (r ∷ others) h.4
            (leb_yes r.first_block logical a)
          ∙ rw (a, lt→ltb logical (r.first_block + r.count) (omega (arith, h))) refl
      | inr a ↦
          search_in first runs r.first_block logical (r ∷ others) h.4 low
            (leb_no r.first_block logical a)
          ∙ rw a refl
    ]
  where
    leb_yes : (m n : ℕ) → leb m n ≡ true → m ≤ n
    leb_yes m n h = ground arith

    leb_no : (m n : ℕ) → leb m n ≡ false → n < m
    leb_no m n h = ground arith

u32_small : (n : ℕ) → n < 2 ^ 32 → u32 n ≡ n
u32_small n h = omega arith

-- Whether a block continues a run.
abbrev continues : Run → ℕ → ℕ → Bool
continues r blk end = u64 (r.start + r.count) == blk && u32 (r.first_block + r.count) == end

continues-true :
    (r : Run) (blk end : ℕ)
    → r.start + r.count < 2 ^ 48
    → continues r blk end ≡ true
    → r.start + r.count ≡ blk
continues-true r blk end h c = ground arith

add_run-Lie :
    (first : ℕ) (runs : List Run) (end blk : ℕ)
    → Lie first runs end
    → end < 2 ^ 32
    → blk + 1 < 2 ^ 48
    → Lie first (add_run blk end runs) (end + 1)
unfolding add_run
add_run-Lie first [] end blk h small block =
    rw (u32_small end small) (refl, omega arith, omega (arith, h), block, h)
add_run-Lie first (r ∷ runs) end blk h small block = elim (Bool-cases (continues r blk end)) [
  | inl a ↦
      let next = continues-true r blk end h.3 a in
      rw a (omega (arith, h), omega arith, h.2, omega (arith, next), h.4)
  | inr a ↦
      rw (a, u32_small end small) (refl, omega arith, Lie-first first (r ∷ runs) end h, block, h)
]

-- The block that was added is the last of the file.
last_run-add_run :
    (first : ℕ) (runs : List Run) (end blk : ℕ)
    → Lie first runs end
    → end < 2 ^ 32
    → last_run (add_run blk end runs) end ≡ blk
unfolding add_run
last_run-add_run first [] end blk h small =
    rw (u32_small end small, le→leb end end (omega arith)) (omega arith)
last_run-add_run first (r ∷ runs) end blk h small = elim (Bool-cases (continues r blk end)) [
  | inl a ↦
      let next = continues-true r blk end h.3 a in
      rw (a, le→leb r.first_block end (omega (arith, h))) (omega (arith, h, next))
  | inr a ↦ rw (a, u32_small end small, le→leb end end (omega arith)) (omega arith)
]

-- And those before it stay.
last_run-add_run_before :
    (first : ℕ) (runs : List Run) (end blk logical : ℕ)
    → Lie first runs end
    → end < 2 ^ 32
    → logical < end
    → last_run (add_run blk end runs) logical ≡ last_run runs logical
unfolding add_run
last_run-add_run_before first [] end blk logical h small before =
    rw (u32_small end small, gt→leb end logical before) refl
last_run-add_run_before first (r ∷ runs) end blk logical h small before =
    elim (Bool-cases (continues r blk end)) [
      | inl a ↦ rw a refl
      | inr a ↦ rw (a, u32_small end small, gt→leb end logical before) refl
    ]

-- Blocks of a file from block `from` on, in order.
abbrev pub add_runs : List ℕ → ℕ → List Run → List Run
add_runs [] from runs = runs
add_runs (b ∷ blocks) from runs = add_runs blocks (from + 1) (add_run b from runs)

abbrev pub AreBlocks : List ℕ → Type 0
AreBlocks [] = Unit {0}
AreBlocks (b ∷ blocks) = (b + 1 < 2 ^ 48) × AreBlocks blocks

add_runs-Lie :
    (first : ℕ) (blocks : List ℕ) (from end : ℕ) (runs : List Run)
    → AreBlocks blocks
    → from + length blocks ≡ end
    → end < 2 ^ 32
    → Lie first runs from
    → Lie first (add_runs blocks from runs) end
add_runs-Lie first [] from end runs ok e small h =
    subst (λ n. Lie first runs n) (omega (arith, e)) h
add_runs-Lie first (b ∷ blocks) from end runs ok e small h =
    add_runs-Lie first blocks (from + 1) end (add_run b from runs) ok.1 (omega (arith, e)) small
      (add_run-Lie first runs from b h (omega (arith, e)) ok.0)

last_run-add_runs_before :
    (first : ℕ) (blocks : List ℕ) (from : ℕ) (runs : List Run) (logical : ℕ)
    → AreBlocks blocks
    → from + length blocks < 2 ^ 32
    → Lie first runs from
    → logical < from
    → last_run (add_runs blocks from runs) logical ≡ last_run runs logical
last_run-add_runs_before first [] from runs logical ok small h before = refl
last_run-add_runs_before first (b ∷ blocks) from runs logical ok small h before =
    let here : from < 2 ^ 32 = omega (arith, small) in
    last_run-add_runs_before first blocks (from + 1) (add_run b from runs) logical ok.1
      (omega (arith, small)) (add_run-Lie first runs from b h here ok.0) (omega arith)
    ∙ last_run-add_run_before first runs from b logical h here before

last_run-add_runs :
    (first : ℕ) (blocks : List ℕ) (from : ℕ) (runs : List Run) (k logical : ℕ)
    → AreBlocks blocks
    → from + length blocks < 2 ^ 32
    → Lie first runs from
    → from + k ≡ logical
    → k < length blocks
    → last_run (add_runs blocks from runs) logical ≡ get_or blocks k 0
last_run-add_runs first [] from runs k logical ok small h e lt = grind (arith, lt)
last_run-add_runs first (b ∷ blocks) from runs zero logical ok small h e lt =
    let here : from < 2 ^ 32 = omega (arith, small) in
    let first_one : from ≡ logical = omega (arith, e) in
    ap (λ n. last_run (add_runs blocks (from + 1) (add_run b from runs)) n) (sym first_one)
    ∙ last_run-add_runs_before first blocks (from + 1) (add_run b from runs) from ok.1
        (omega (arith, small)) (add_run-Lie first runs from b h here ok.0) (omega arith)
    ∙ last_run-add_run first runs from b h here
last_run-add_runs first (b ∷ blocks) from runs (suc k) logical ok small h e lt =
    let here : from < 2 ^ 32 = omega (arith, small) in
    last_run-add_runs first blocks (from + 1) (add_run b from runs) k logical ok.1
      (omega (arith, small)) (add_run-Lie first runs from b h here ok.0) (omega (arith, e))
      (omega (arith, lt))

-- Runs of fewer than 32768 blocks can stand in extents.
pub Lie-AreRuns :
    (first : ℕ) (runs : List Run) (end : ℕ) (others : List Run)
    → Lie first runs end
    → end < first + 32768
    → end < 2 ^ 32
    → AreRuns others
    → AreRuns (reverse_aux runs others)
Lie-AreRuns first [] end others h few small ok = ok
Lie-AreRuns first (r ∷ runs) end others h few small ok =
    Lie-AreRuns first runs r.first_block (r ∷ others) h.4 (omega (arith, h)) (omega (arith, h))
      ((omega (arith, h), omega (arith, h), h.3), ok)

-- For fewer than 32768 allocated blocks that merge into four runs at most, the tree that is built of
-- their runs maps each block of the file to the one that was allocated for it.
pub extent_lookup-add_runs :
    {D : Type 0} (disk : Disk D) (ino : ℕ) (blocks : List ℕ) (i : List ℕ) (e : Ext4 D)
    → AreBlocks blocks
    → length blocks < 32768
    → length (reverse (add_runs blocks 0 [])) ≤ 4
    → length i ≡ 256
    → (tree : List ℕ) × (build_tree disk ino (reverse (add_runs blocks 0 [])) i e ≡ (some tree, e))
      × ((k : ℕ) → k < length blocks → extent_lookup disk tree k e ≡ (some (get_or blocks k 0), e))
extent_lookup-add_runs disk ino blocks i e ok few runs_few whole =
    let runs = add_runs blocks 0 [] in
    let lie =
      add_runs-Lie 0 blocks 0 (length blocks) [] ok (omega arith) (omega (arith, few)) refl in
    let built =
      extent_lookup-build_tree disk ino (reverse runs) i e runs_few
        (Lie-AreRuns 0 runs (length blocks) [] lie (omega (arith, few)) (omega (arith, few)) tt)
        whole in
    (
      built.0,
      built.1,
      λ k lt.
          built.2 k (omega (arith, few, lt))
          ∙ ap (λ b. (some b, e))
              (search_in 0 runs (length blocks) k [] lie (omega arith) lt
                ∙ last_run-add_runs 0 blocks 0 [] k k ok (omega (arith, few)) refl (omega arith)
                    lt),
    )
