-- ===== src/Ext4/Journal/Order.antt =====
-- The first pass reads the number of bytes of a revoke block in the order of the file system, and
-- all else of the journal in its own.
use obsidian_kernel.Base.{
  ℕ, zero, suc, ◌+◌, ◌<◌, ◌^◌, ◌==◌, List, [], ◌∷◌, get_or, read32, ◌≡◌, refl, arith, gt→leb,
  AreBytes, Bool-cases, inl, inr,
}
use obsidian_kernel.Ext4.{Ext4}
use obsidian_kernel.Ext4.Journal.{Journal, be32, pass1_block, jt_revoke, j_magic}

get_or_lt : (b : List ℕ) (i : ℕ) → AreBytes b → get_or b i 0 < 256
get_or_lt [] i ok = omega arith
get_or_lt (x ∷ b) zero ok = ok.0
get_or_lt (x ∷ b) (suc i) ok = get_or_lt b i ok.1

-- Read in the other order a count of fewer than 2^16 bytes is one of 2^16 at least.
used_large :
    (buf : List ℕ)
    → AreBytes buf
    → 0 < be32 buf 12
    → be32 buf 12 < 2 ^ 16
    → 2 ^ 16 < read32 buf 12 + 1
unfolding be32
used_large buf ok pos small =
    let a = get_or_lt buf 12 ok in
    let b = get_or_lt buf 13 ok in
    let c = get_or_lt buf 14 ok in let d = get_or_lt buf 15 ok in omega arith

-- A revoke block of at least one and fewer than 2^16 bytes, on blocks of fewer than 2^16 bytes,
-- revokes nothing.
pub pass1_block-revokes_nothing :
    {D : Type 0} (buf : List ℕ) (j : Journal) (e : Ext4 D)
    → AreBytes buf
    → be32 buf 4 ≡ jt_revoke
    → 0 < be32 buf 12
    → be32 buf 12 < 2 ^ 16
    → e.block_size < 2 ^ 16
    → pass1_block buf j e ≡ j
unfolding pass1_block
pass1_block-revokes_nothing buf j e ok kind pos small bs =
    let large = used_large buf ok pos small in
    rw (kind, gt→leb (read32 buf 12) e.block_size (omega (arith, large)))
      (elim (Bool-cases (be32 buf 0 == j_magic)) [ inl a ↦ rw a refl | inr a ↦ rw a refl ])
