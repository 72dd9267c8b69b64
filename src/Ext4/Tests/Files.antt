-- ===== src/Ext4/Tests/Files.antt =====
-- Files, directories, the journal and the mount on the same device.
use obsidian_kernel.Base.{
  ℕ, get_or, reverse, true, none, some, List, [], ◌∷◌, replicate, ◌≡◌, ◌<◌, ◌^◌, ◌*◌, ◌/◌, u64,
  refl, sym, arith, Bool, ne→==, AreBytes,
}
use obsidian_kernel.Ext4.{Ext4}
use obsidian_kernel.Ext4.Dir.{e4_dir_lookup}
use obsidian_kernel.Ext4.Dir.Lookup.{e4_dir_lookup-fails}
use obsidian_kernel.Ext4.Extents.{Run, build_tree, add_run}
use obsidian_kernel.Ext4.Extents.Merge.{add_runs, extent_lookup-add_runs}
use obsidian_kernel.Ext4.Extents.Inline.{extent_lookup-build_tree, run_search}
use obsidian_kernel.Ext4.Inode.Keeps.{dev_block, IsDevice}
use obsidian_kernel.Ext4.Journal.{Journal, be32, pass1_block, pass2}
use obsidian_kernel.Ext4.Journal.Order.{pass1_block-revokes_nothing}
use obsidian_kernel.Ext4.Journal.Revoked.{pass2-revoked}
use obsidian_kernel.Ext4.Map.{extent_lookup}
use obsidian_kernel.Ext4.Mount.{ext4_mount}
use obsidian_kernel.Ext4.Mount.Fails.{Refuses, ext4_mount-Refuses}
use obsidian_kernel.Ext4.Tests.{Blocks, memory_disk, content, small}

abbrev always : ℕ → Bool
always n = true

-- The state before the first mount, and the tables before a recovery.
abbrev unmounted : Ext4 Blocks
unmounted = record small { dev = none }

-- Block 9 is revoked.
abbrev nine_revoked : Journal
nine_revoked = record {
  jin = replicate 256 0;
  committed = 7 ∷ [];
  last_commit_seq = 7;
  revbits = 0 ∷ 2 ∷ [];
}

memory_disk-IsDevice : IsDevice memory_disk 2 (λ d b. d b)
memory_disk-IsDevice = record {
  keeps = λ lba n buf d b. refl;
  apart =
      λ c buf d b small_c other. rw (place c small_c, ne→== b c (λ same. other (sym same))) refl;
}
  where
    place : (c : ℕ) → c < 2 ^ 32 → u64 (c * 2) / 2 ≡ c
    place c h = omega arith

ext4_mount-Refuses_example :
    Refuses memory_disk (ext4_mount memory_disk always nine_revoked (some content) unmounted)
ext4_mount-Refuses_example =
    ext4_mount-Refuses memory_disk always nine_revoked (some content) unmounted refl

e4_dir_lookup-fails_example : (e4_dir_lookup memory_disk 2 (97 ∷ []) small).0 ≡ none
e4_dir_lookup-fails_example = e4_dir_lookup-fails memory_disk 2 (97 ∷ []) small

pass2-revoked_example :
    dev_block (λ d b. d b) (pass2 memory_disk 10 10 8 1 nine_revoked small).dev 9
    ≡ dev_block {D = Blocks} (λ d b. d b) (some content) 9
pass2-revoked_example =
    pass2-revoked memory_disk (λ d b. d b) small memory_disk-IsDevice 10 10 8 1 nine_revoked 9 refl

-- A revoke block of 20 bytes, in the journal's order.
abbrev revoke_block : List ℕ
revoke_block =
    0xC0 ∷ 0x3B ∷ 0x39 ∷ 0x98 ∷ 0 ∷ 0 ∷ 0 ∷ 2 ∷ 0 ∷ 0 ∷ 0 ∷ 7 ∷ 0 ∷ 0 ∷ 0 ∷ 20 ∷ 0 ∷ 0 ∷ 0 ∷ 9 ∷ []

pass1_block-revokes_nothing_example : pass1_block revoke_block nine_revoked small ≡ nine_revoked
unfolding be32
pass1_block-revokes_nothing_example =
    pass1_block-revokes_nothing revoke_block nine_revoked small bytes refl (omega arith)
      (omega arith) (omega arith)
  where
    bytes : AreBytes revoke_block
    bytes = ground arith

abbrev two_runs : List Run
two_runs =
    record { first_block = 0; start = 20; count = 3 }
    ∷ record { first_block = 5; start = 70; count = 2 }
    ∷ []

extent_lookup-build_tree_example :
    (tree : List ℕ) × (build_tree memory_disk 12 two_runs (replicate 256 0) small
      ≡ (some tree, small))
    × ((logical : ℕ)
        → logical < 2 ^ 32
        → extent_lookup memory_disk tree logical small
          ≡ (some (run_search two_runs logical), small))
extent_lookup-build_tree_example =
    extent_lookup-build_tree memory_disk 12 two_runs (replicate 256 0) small (omega arith)
      (ground arith) refl

-- Three blocks in a row and one apart.
abbrev allocated : List ℕ
allocated = 30 ∷ 31 ∷ 32 ∷ 50 ∷ []

extent_lookup-add_runs_example :
    (tree : List ℕ) × (build_tree memory_disk 12
        (reverse (add_runs allocated 0 []))
        (replicate 256 0)
        small
      ≡ (some tree, small))
    × ((k : ℕ)
        → k < 4
        → extent_lookup memory_disk tree k small ≡ (some (get_or allocated k 0), small))
unfolding add_run
extent_lookup-add_runs_example =
    extent_lookup-add_runs memory_disk 12 allocated (replicate 256 0) small (ground arith)
      (omega arith) (omega arith) refl
