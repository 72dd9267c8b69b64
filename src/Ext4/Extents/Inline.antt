-- ===== src/Ext4/Extents/Inline.antt =====
-- A file of at most four runs: the tree that is built of them maps its blocks as the runs say.
use obsidian_kernel.Base.{
  ℕ, suc, ◌+◌, ◌-◌, ◌^◌, ◌≤◌, ◌<◌, ◌==◌, ltb, leb, List, [], ◌∷◌, some, if◌then◌else◌, read16, drop,
  length-drop, blit, length, get_or, length-blit, get_or-blit_in, get_or-blit_before,
  drop-blit_self, ◌&&◌, ◌≡◌, refl, sym, ap, ◌∙◌, arith, gt→leb, le→leb, Bool-cases, inl, inr,
}
use obsidian_kernel.Ext4.{Disk, Ext4}
use obsidian_kernel.Ext4.Inode.{ino_block}
use obsidian_kernel.Ext4.Map.{
  entry_at, first_block, count, start, leaf_search, entries_of, extent_walk, extent_lookup,
}
use obsidian_kernel.Ext4.Extents.{
  Run, entry_bytes, put_entries, header_bytes, build_inline, build_tree, root_max_entries,
}

-- The block that a block of a file stands in, by the first run that has it, or 0.
abbrev pub run_search : List Run → ℕ → ℕ
run_search [] logical = 0
run_search (r ∷ runs) logical =
    if leb r.first_block logical && ltb logical (r.first_block + r.count)
    then r.start + (logical - r.first_block)
    else run_search runs logical

-- The runs that an extent can stand for.
abbrev pub IsRun : Run → Type 0
IsRun r = (r.count < 32768) × (r.first_block + r.count < 2 ^ 32) × (r.start + r.count < 2 ^ 48)

abbrev pub AreRuns : List Run → Type 0
AreRuns [] = Unit {0}
AreRuns (r ∷ runs) = IsRun r × AreRuns runs

length-put_entries :
    (runs : List Run) (i : ℕ) (node : List ℕ) → length (put_entries runs i node) ≡ length node
unfolding put_entries
length-put_entries [] i node = refl
length-put_entries (r ∷ runs) i node =
    length-put_entries runs (i + 1) (blit node (entry_at i) (entry_bytes r))
    ∙ length-blit node (entry_at i) (entry_bytes r)

get_or-put_entries :
    (runs : List Run) (i : ℕ) (node : List ℕ) (j : ℕ)
    → j < entry_at i
    → get_or (put_entries runs i node) j 0 ≡ get_or node j 0
unfolding put_entries
get_or-put_entries [] i node j h = refl
get_or-put_entries (r ∷ runs) i node j h =
    get_or-put_entries runs (i + 1) (blit node (entry_at i) (entry_bytes r)) j (omega arith)
    ∙ get_or-blit_before node (entry_at i) (entry_bytes r) j h

-- The bytes of the first entry that is put.
entry_byte :
    (r : Run) (runs : List Run) (i : ℕ) (node : List ℕ) (j k : ℕ)
    → entry_at i + 12 ≤ length node
    → k < 12
    → entry_at i + k ≡ j
    → get_or (put_entries (r ∷ runs) i node) j 0 ≡ get_or (entry_bytes r) k 0
unfolding put_entries
entry_byte r runs i node j k room h e =
    get_or-put_entries runs (i + 1) (blit node (entry_at i) (entry_bytes r)) j (omega arith)
    ∙ ap (λ j. get_or (blit node (entry_at i) (entry_bytes r)) j 0) (sym e)
    ∙ get_or-blit_in node (entry_at i) (entry_bytes r) k h room

-- An entry whose three fields are read as those of a run is taken as the run.
leaf_step :
    (n i : ℕ) (node : List ℕ) (logical : ℕ) (r : Run) (rest : ℕ)
    → logical < 2 ^ 32
    → IsRun r
    → first_block node i ≡ r.first_block
    → count node i ≡ r.count
    → start node i ≡ r.start
    → leaf_search n (i + 1) node logical ≡ rest
    → leaf_search (suc n) i node logical ≡ (
        if leb r.first_block logical && ltb logical (r.first_block + r.count)
        then r.start + (logical - r.first_block)
        else rest)
unfolding leaf_search
leaf_step n i node logical r rest lt (small, fits, low) f c s e =
    rw (f, c, s, e, gt→leb 32768 r.count small)
      (elim (Bool-cases (leb r.first_block logical)) [ inl a ↦ ground arith | inr a ↦ rw a refl ])

module _ (r : Run) (runs : List Run) (i : ℕ) (node : List ℕ) (room : entry_at i + 12 ≤ length node)
    (ok : IsRun r) where
  abbrev put : List ℕ
  put = put_entries (r ∷ runs) i node

  byte : (k : ℕ) (j : ℕ) → k < 12 → entry_at i + k ≡ j → get_or put j 0 ≡ get_or (entry_bytes r) k 0
  byte k j h e = entry_byte r runs i node j k room h e

  put_first : first_block put i ≡ r.first_block
  put_first = omega (
    arith,
    byte 0 (entry_at i) (omega arith) (omega arith),
    byte 1 (entry_at i + 1) (omega arith) (omega arith),
    byte 2 (entry_at i + 2) (omega arith) (omega arith),
    byte 3 (entry_at i + 3) (omega arith) (omega arith),
    ok,
  )

  put_count : count put i ≡ r.count
  put_count = omega (
    arith,
    byte 4 (entry_at i + 4) (omega arith) (omega arith),
    byte 5 (entry_at i + 4 + 1) (omega arith) (omega arith),
    plain,
    ok,
  )
    where
      plain : (if r.count == 32768 then 32767 else r.count) ≡ r.count
      plain = ground arith

  put_start : start put i ≡ r.start
  put_start = omega (
    arith,
    byte 6 (entry_at i + 6) (omega arith) (omega arith),
    byte 7 (entry_at i + 6 + 1) (omega arith) (omega arith),
    byte 8 (entry_at i + 8) (omega arith) (omega arith),
    byte 9 (entry_at i + 8 + 1) (omega arith) (omega arith),
    byte 10 (entry_at i + 8 + 2) (omega arith) (omega arith),
    byte 11 (entry_at i + 8 + 3) (omega arith) (omega arith),
    ok,
  )

leaf_search-put_entries :
    (runs : List Run) (i : ℕ) (node : List ℕ) (logical : ℕ)
    → logical < 2 ^ 32
    → entry_at (i + length runs) ≤ length node
    → AreRuns runs
    → leaf_search (length runs) i (put_entries runs i node) logical ≡ run_search runs logical
unfolding leaf_search put_entries
leaf_search-put_entries [] i node logical small room ok = refl
leaf_search-put_entries (r ∷ runs) i node logical small room (ok, oks) =
    let here : entry_at i + 12 ≤ length node = omega arith in
    leaf_step (length runs) i (put_entries (r ∷ runs) i node) logical r (run_search runs logical)
      small ok (put_first r runs i node here ok) (put_count r runs i node here ok)
      (put_start r runs i node here ok)
      (leaf_search-put_entries runs (i + 1) (blit node (entry_at i) (entry_bytes r)) logical small
        (omega (arith, length-blit node (entry_at i) (entry_bytes r))) oks)

module _ (runs : List Run) (i : List ℕ) (few : length runs ≤ 4) (whole : length i ≡ 256) where
  abbrev header : List ℕ
  header = header_bytes (length runs) root_max_entries 0

  abbrev headed : List ℕ
  headed = blit (drop ino_block i) 0 header

  abbrev node : List ℕ
  node = put_entries runs 0 headed

  length-headed : length headed ≡ 216
  length-headed =
      length-blit (drop ino_block i) 0 header ∙ length-drop ino_block i ∙ omega (arith, whole)

  root_lem : drop ino_block (build_inline runs i) ≡ node
  unfolding build_inline
  root_lem =
      drop-blit_self i ino_block node
        (omega (arith, length-put_entries runs 0 headed, length-headed, whole))

  header_byte : (k : ℕ) → k < 12 → get_or node k 0 ≡ get_or header k 0
  header_byte k h =
      get_or-put_entries runs 0 headed k (omega arith)
      ∙ ap (λ j. get_or headed j 0) (omega arith)
      ∙ get_or-blit_in (drop ino_block i) 0 header k h
          (omega (arith, length-drop ino_block i, whole))

  inline_magic : read16 (drop ino_block (build_inline runs i)) 0 ≡ 0xF30A
  inline_magic =
      rw root_lem (omega (arith, header_byte 0 (omega arith), header_byte 1 (omega arith)))

  inline_entries : entries_of (drop ino_block (build_inline runs i)) ≡ length runs
  inline_entries =
      rw root_lem (omega (arith, header_byte 2 (omega arith), header_byte 3 (omega arith), few))

  inline_depth : read16 (drop ino_block (build_inline runs i)) 6 ≡ 0
  inline_depth =
      rw root_lem (omega (arith, header_byte 6 (omega arith), header_byte 7 (omega arith)))

  inline_search :
      (logical : ℕ)
      → logical < 2 ^ 32
      → AreRuns runs
      → leaf_search (length runs) 0 (drop ino_block (build_inline runs i)) logical
        ≡ run_search runs logical
  inline_search logical small ok =
      rw root_lem
        (leaf_search-put_entries runs 0 headed logical small (omega (arith, length-headed, few)) ok)

  inline_lookup :
      {D : Type 0} (disk : Disk D) (logical : ℕ) (e : Ext4 D)
      → logical < 2 ^ 32
      → AreRuns runs
      → extent_lookup disk (build_inline runs i) logical e ≡ (some (run_search runs logical), e)
  unfolding extent_lookup extent_walk
  inline_lookup disk logical e small ok =
      rw (inline_magic, inline_depth)
        (ap (λ (b : ℕ). (some b, e))
          (ap (λ n. leaf_search n 0 (drop ino_block (build_inline runs i)) logical) inline_entries
            ∙ inline_search logical small ok))

-- For at most four runs, each of fewer than 32768 blocks and within the widths of an extent's fields,
-- `build_tree` makes an inode, and changes nothing else, in which `extent_lookup` finds for every
-- block number below 2^32 the block that the runs say, without reading the disk.
pub extent_lookup-build_tree :
    {D : Type 0} (disk : Disk D) (ino : ℕ) (runs : List Run) (i : List ℕ) (e : Ext4 D)
    → length runs ≤ 4
    → AreRuns runs
    → length i ≡ 256
    → (tree : List ℕ) × (build_tree disk ino runs i e ≡ (some tree, e))
      × ((logical : ℕ)
          → logical < 2 ^ 32
          → extent_lookup disk tree logical e ≡ (some (run_search runs logical), e))
unfolding build_tree
extent_lookup-build_tree disk ino runs i e few ok whole = (
  build_inline runs i,
  rw (le→leb (length runs) 4 few) refl,
  λ logical small. inline_lookup runs i few whole disk logical e small ok,
)
