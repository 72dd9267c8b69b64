-- ===== src/Ext4/Alloc/Search.antt =====
-- The search of a bitmap finds its first clear bit.
use obsidian_kernel.Base.{
  ℕ, zero, suc, ◌+◌, ◌*◌, ◌-◌, ◌/◌, ◌^◌, ◌≤◌, ◌<◌, ◌==◌, ltb, leb, Bool, true, false, not, List,
  Option, none, some, get_or, bit_and, u32, Bool-cases, ==_iff, ◌≡◌, inl, inr, ap₂, min, refl,
  subst, arith,
}
use obsidian_kernel.Ext4.Alloc.{is_marked, bit_search, byte_search, or_else}

-- Of the bits from `lo` on and below `hi`, the first that `marked` is false of, or none if there is
-- no such bit.
abbrev pub IsFirstClear : (ℕ → Bool) → ℕ → ℕ → Option ℕ → Type 0
IsFirstClear marked lo hi none = (i : ℕ) → lo ≤ i → i < hi → marked i ≡ true
IsFirstClear marked lo hi (some i) =
    (lo ≤ i) × (i < hi) × (marked i ≡ false) × ((j : ℕ) → lo ≤ j → j < i → marked j ≡ true)

past :
    (marked : ℕ → Bool) (lo mid hi : ℕ)
    → ((j : ℕ) → lo ≤ j → j < mid → j < hi → marked j ≡ true)
    → ((j : ℕ) → mid ≤ j → j < hi → marked j ≡ true)
    → (j : ℕ) → lo ≤ j
    → j < hi
    → marked j ≡ true
past marked lo mid hi below h j low high = elim (Bool-cases (ltb j mid)) [
  | inl a ↦ below j low (ground arith) high
  | inr a ↦ h j (ground arith) high
]

-- A search that goes on past a marked bit.
IsFirstClear-step :
    (marked : ℕ → Bool) (lo mid hi : ℕ) (r : Option ℕ)
    → lo ≤ mid
    → ((j : ℕ) → lo ≤ j → j < mid → j < hi → marked j ≡ true)
    → IsFirstClear marked mid hi r
    → IsFirstClear marked lo hi r
IsFirstClear-step marked lo mid hi none le below h = past marked lo mid hi below h
IsFirstClear-step marked lo mid hi (some i) le below h = (
  omega (arith, h.0, le),
  h.1,
  h.2,
  past marked lo mid i (λ j a b c. below j a b (omega (arith, c, h.1))) h.3,
)

-- The bits of a byte are those of the bitmap at its place.
marked_bit :
    (bm : List ℕ) (k bit : ℕ)
    → bit < 8
    → is_marked bm (k * 8 + bit) ≡ not (bit_and (get_or bm k 0) (2 ^ bit) == 0)
marked_bit bm k bit h =
    ap₂ (λ q r. not (bit_and (get_or bm q 0) (2 ^ r) == 0)) (omega arith) (omega arith)

bit_search-IsFirstClear :
    (n bit : ℕ) (bm : List ℕ) (k last : ℕ)
    → bit + n ≡ 8
    → IsFirstClear
        (is_marked bm)
        (k * 8 + bit)
        (min (k * 8 + 8) last)
        (bit_search n bit (get_or bm k 0) (k * 8) last)
unfolding bit_search
bit_search-IsFirstClear zero bit bm k last e = λ i low high. absurd (omega arith)
bit_search-IsFirstClear (suc n) bit bm k last e = elim (Bool-cases (leb last (k * 8 + bit))) [
  | inl a ↦ rw a (λ i low high. absurd (ground arith))
  | inr a ↦ (elim (Bool-cases (bit_and (get_or bm k 0) (2 ^ bit) == 0)) [
    | inl b ↦
        rw (a, b)
          (
            omega arith,
            ground arith,
            rw (marked_bit bm k bit (omega arith), b) refl,
            λ j low high. absurd (omega arith),
          )
    | inr b ↦
        rw (a, b)
          (IsFirstClear-step (is_marked bm) (k * 8 + bit) (k * 8 + (bit + 1)) (min (k * 8 + 8) last)
            (bit_search n (bit + 1) (get_or bm k 0) (k * 8) last) (omega arith)
            (λ j low mid high.
              (let here : k * 8 + bit ≡ j = omega (arith, low, mid) in
                subst (λ j. is_marked bm j ≡ true) here
                  (rw (marked_bit bm k bit (omega arith), b) refl)))
            (bit_search-IsFirstClear n (bit + 1) bm k last (omega arith)))
  ])
]

full_byte : (bit : ℕ) → bit < 8 → not (bit_and 0xFF (2 ^ bit) == 0) ≡ true
full_byte zero h = refl
full_byte (suc zero) h = refl
full_byte (suc (suc zero)) h = refl
full_byte (suc (suc (suc zero))) h = refl
full_byte (suc (suc (suc (suc zero)))) h = refl
full_byte (suc (suc (suc (suc (suc zero))))) h = refl
full_byte (suc (suc (suc (suc (suc (suc zero)))))) h = refl
full_byte (suc (suc (suc (suc (suc (suc (suc zero))))))) h = refl
full_byte (suc (suc (suc (suc (suc (suc (suc (suc bit)))))))) h = absurd (omega arith)

full_marked :
    (bm : List ℕ) (k j : ℕ)
    → get_or bm k 0 ≡ 0xFF
    → k * 8 ≤ j
    → j < k * 8 + 8
    → is_marked bm j ≡ true
full_marked bm k j e low high =
    let place : k * 8 + (j - k * 8) ≡ j = omega (arith, low) in
    subst (λ j. is_marked bm j ≡ true) place
      (rw (marked_bit bm k (j - k * 8) (omega (arith, low, high)), e)
        (full_byte (j - k * 8) (omega (arith, low, high))))

-- A byte's search, followed by the search of the bytes behind it.
join_searches :
    (marked : ℕ → Bool) (lo mid hi last : ℕ) (r rest : Option ℕ)
    → lo ≤ mid
    → mid ≤ hi
    → IsFirstClear marked lo (min mid last) r
    → IsFirstClear marked mid (min hi last) rest
    → IsFirstClear marked lo (min hi last) (or_else r rest)
join_searches marked lo mid hi last none rest le le2 h k =
    IsFirstClear-step marked lo mid (min hi last) rest le (λ j a b c. h j a (omega (arith, b, c))) k
join_searches marked lo mid hi last (some i) rest le le2 h k =
    (h.0, omega (arith, h.1, le2), h.2, h.3)

byte_search-IsFirstClear :
    (n k : ℕ) (bm : List ℕ) (last : ℕ)
    → IsFirstClear (is_marked bm) (k * 8) (min ((k + n) * 8) last) (byte_search n k bm last)
unfolding byte_search
byte_search-IsFirstClear zero k bm last = λ i low high. absurd (omega arith)
byte_search-IsFirstClear (suc n) k bm last =
    let rest = byte_search n (k + 1) bm last in
    let after : IsFirstClear (is_marked bm) (k * 8 + 8) (min ((k + suc n) * 8) last) rest =
      subst (λ (r : ℕ × ℕ). IsFirstClear (is_marked bm) r.0 (min (r.1 * 8) last) rest)
        (ap₂ (λ (a b : ℕ). (a, b)) (omega arith) (omega arith))
        (byte_search-IsFirstClear n (k + 1) bm last) in
    elim (Bool-cases (get_or bm k 0 == 0xFF)) [
      | inl a ↦ rw a (
          IsFirstClear-step (is_marked bm) (k * 8) (k * 8 + 8) (min ((k + suc n) * 8) last) rest
            (omega arith)
            (λ j low mid high. full_marked bm k j ((==_iff (get_or bm k 0) 0xFF).0 a) low mid)
            after)
      | inr a ↦ rw a (
          join_searches (is_marked bm) (k * 8) (k * 8 + 8) ((k + suc n) * 8) last
            (bit_search 8 0 (get_or bm k 0) (k * 8) last) rest (omega arith) (omega arith)
            (subst
              (λ n.
                IsFirstClear (is_marked bm) n (min (k * 8 + 8) last)
                  (bit_search 8 0 (get_or bm k 0) (k * 8) last))
              (omega arith) (bit_search-IsFirstClear 8 0 bm k last refl))
            after)
    ]

-- For a group of fewer than 2^32 - 7 bits the search of `e4_alloc_block_near` finds the first bit of
-- its bitmap that is clear, or none if all are set.
pub byte_search_first :
    (bm : List ℕ) (last : ℕ)
    → last < 2 ^ 32 - 7
    → IsFirstClear (is_marked bm) 0 last (byte_search (u32 (last + 7) / 8) 0 bm last)
byte_search_first bm last h =
    subst (λ n. IsFirstClear (is_marked bm) 0 n (byte_search (u32 (last + 7) / 8) 0 bm last))
      (omega (arith, h)) (byte_search-IsFirstClear (u32 (last + 7) / 8) 0 bm last)
