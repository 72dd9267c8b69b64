-- ===== src/Base/Bytes/Laws.antt =====
-- What reads of an array give after a copy into it.
use obsidian_kernel.Base.Bytes.{blit, slice}
use obsidian_kernel.Base.Lists.{length, get_or, drop}
use Prim.Native.Nat.{ℕ, zero, suc, ◌+◌, ◌≤◌, ◌<◌}
use mathlib.Core.Path.{◌≡◌, refl, ap}
use mathlib.Core.List.{List, [], ◌∷◌}
use native.Mathlib.Omega.{arith}

pub length-blit : (b : List ℕ) (off : ℕ) (src : List ℕ) → length (blit b off src) ≡ length b
length-blit [] off src = refl
length-blit (y ∷ b) zero [] = refl
length-blit (y ∷ b) zero (x ∷ src) = ap suc (length-blit b zero src)
length-blit (y ∷ b) (suc off) src = ap suc (length-blit b off src)

blit-nil : (b : List ℕ) (off : ℕ) → blit b off [] ≡ b
blit-nil [] off = refl
blit-nil (y ∷ b) zero = refl
blit-nil (y ∷ b) (suc off) = ap (y ∷◌) (blit-nil b off)

pub slice-blit_self :
    (b : List ℕ) (off : ℕ) (src : List ℕ)
    → off + length src ≤ length b
    → slice (blit b off src) off (length src) ≡ src
slice-blit_self b off [] h = refl
slice-blit_self [] off (x ∷ src) h = absurd (omega arith)
slice-blit_self (y ∷ b) zero (x ∷ src) h = ap (x ∷◌) (slice-blit_self b zero src (omega arith))
slice-blit_self (y ∷ b) (suc off) (x ∷ src) h = slice-blit_self b off (x ∷ src) (omega arith)

-- A copy leaves the bytes before it.
pub slice-blit_before :
    (b : List ℕ) (off : ℕ) (src : List ℕ) (o n : ℕ)
    → o + n ≤ off
    → slice (blit b off src) o n ≡ slice b o n
slice-blit_before [] off src o n h = refl
slice-blit_before (y ∷ b) zero src zero zero h = refl
slice-blit_before (y ∷ b) zero src zero (suc n) h = absurd (omega arith)
slice-blit_before (y ∷ b) zero src (suc o) n h = absurd (omega arith)
slice-blit_before (y ∷ b) (suc off) src zero zero h = refl
slice-blit_before (y ∷ b) (suc off) src zero (suc n) h =
    ap (y ∷◌) (slice-blit_before b off src zero n (omega arith))
slice-blit_before (y ∷ b) (suc off) src (suc o) n h = slice-blit_before b off src o n (omega arith)

-- A copy leaves the bytes after it.
pub drop-blit_after :
    (b : List ℕ) (off : ℕ) (src : List ℕ) (o : ℕ)
    → off + length src ≤ o
    → drop o (blit b off src) ≡ drop o b
drop-blit_after [] off src o h = refl
drop-blit_after (y ∷ b) zero [] o h = refl
drop-blit_after (y ∷ b) zero (x ∷ src) zero h = absurd (omega arith)
drop-blit_after (y ∷ b) zero (x ∷ src) (suc o) h = drop-blit_after b zero src o (omega arith)
drop-blit_after (y ∷ b) (suc off) src zero h = absurd (omega arith)
drop-blit_after (y ∷ b) (suc off) src (suc o) h = drop-blit_after b off src o (omega arith)

-- Single bytes of a copy, and those outside it.
pub get_or-blit_in :
    (b : List ℕ) (off : ℕ) (src : List ℕ) (k : ℕ)
    → k < length src
    → off + length src ≤ length b
    → get_or (blit b off src) (off + k) 0 ≡ get_or src k 0
get_or-blit_in b off src k h le = at b off src k (off + k) refl h le
  where
    at :
        (b : List ℕ) (off : ℕ) (src : List ℕ) (k j : ℕ)
        → off + k ≡ j
        → k < length src
        → off + length src ≤ length b
        → get_or (blit b off src) j 0 ≡ get_or src k 0
    at b off [] k j e h le = absurd (omega arith)
    at [] off (x ∷ src) k j e h le = absurd (omega arith)
    at (y ∷ b) zero (x ∷ src) zero zero e h le = refl
    at (y ∷ b) zero (x ∷ src) zero (suc j) e h le = absurd (omega arith)
    at (y ∷ b) zero (x ∷ src) (suc k) zero e h le = absurd (omega arith)
    at (y ∷ b) zero (x ∷ src) (suc k) (suc j) e h le =
        at b zero src k j (omega arith) (omega arith) (omega arith)
    at (y ∷ b) (suc off) (x ∷ src) k zero e h le = absurd (omega arith)
    at (y ∷ b) (suc off) (x ∷ src) k (suc j) e h le =
        at b off (x ∷ src) k j (omega arith) h (omega arith)

pub get_or-blit_before :
    (b : List ℕ) (off : ℕ) (src : List ℕ) (j : ℕ)
    → j < off
    → get_or (blit b off src) j 0 ≡ get_or b j 0
get_or-blit_before [] off src j h = refl
get_or-blit_before (y ∷ b) zero src j h = absurd (omega arith)
get_or-blit_before (y ∷ b) (suc off) src zero h = refl
get_or-blit_before (y ∷ b) (suc off) src (suc j) h = get_or-blit_before b off src j (omega arith)

-- A copy up to the end.
pub drop-blit_self :
    (b : List ℕ) (off : ℕ) (src : List ℕ)
    → off + length src ≡ length b
    → drop off (blit b off src) ≡ src
drop-blit_self [] zero [] h = refl
drop-blit_self [] zero (x ∷ src) h = absurd (omega arith)
drop-blit_self [] (suc off) src h = absurd (omega arith)
drop-blit_self (y ∷ b) zero [] h = absurd (omega arith)
drop-blit_self (y ∷ b) zero (x ∷ src) h = ap (x ∷◌) (drop-blit_self b zero src (omega arith))
drop-blit_self (y ∷ b) (suc off) src h = drop-blit_self b off src (omega arith)
