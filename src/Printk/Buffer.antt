-- ===== src/Printk/Buffer.antt =====
-- The contract of the bounded buffer: a prefix of the text, then a NUL, and the full length counted.
use obsidian_kernel.Base.{
  ℕ, zero, suc, ◌+◌, ◌-◌, ◌<◌, ◌^◌, ltb, List, [], ◌∷◌, some, if◌then◌else◌, u32, ◌≡◌, ◌≢◌, ◌∙◌,
  refl, ap, min, length, get_or, set, length-set, get_or-set_self, get_or-set_ne, Bool-cases, inl,
  inr, arith,
}
use native.Mathlib.Nat.{mod-eq_of_lt}
use obsidian_kernel.Printk.{Outbuf, ob_putc, ob_puts, finish}

-- A buffer of `n` bytes `b`, with `k` characters counted.
abbrev pub out : List ℕ → ℕ → ℕ → Outbuf
out b n k = record { p = some b; size = n; len = k }

-- The bytes after one `ob_putc`.
put : ℕ → List ℕ → ℕ → ℕ → List ℕ
put c b n k = if ltb (k + 1) n then set b k c else if ltb k n then set b k 0 else b

ob_putc_lem :
    (c : ℕ) (b : List ℕ) (n k : ℕ)
    → k + 1 < 2 ^ 32
    → ob_putc c (out b n k) ≡ out (put c b n k) n (k + 1)
unfolding ob_putc put
ob_putc_lem c b n k h =
    let fits : u32 (k + 1) ≡ k + 1 = mod-eq_of_lt h in
    rw fits (elim (Bool-cases (ltb (k + 1) n)) [
      | inl e ↦ rw e refl
      | inr e ↦ elim (Bool-cases (ltb k n)) [ inl q ↦ rw (e, q) refl | inr q ↦ rw (e, q) refl ]
    ])

length-put : (c : ℕ) (b : List ℕ) (n k : ℕ) → length (put c b n k) ≡ length b
unfolding put
length-put c b n k = ground (arith, length-set b k c, length-set b k 0)

get_or-put_ne : (c : ℕ) (b : List ℕ) (n k i : ℕ) → k ≢ i → get_or (put c b n k) i 0 ≡ get_or b i 0
unfolding put
get_or-put_ne c b n k i h = ground (arith, get_or-set_ne b k i c 0 h, get_or-set_ne b k i 0 0 h)

get_or-put_self :
    (c : ℕ) (b : List ℕ) (n k : ℕ) → length b ≡ n → k + 1 < n → get_or (put c b n k) k 0 ≡ c
unfolding put
get_or-put_self c b n k e h = ground (arith, get_or-set_self b k c 0 (omega arith))

-- What a run of `ob_putc` leaves: the characters before, and the text while there is room for the
-- terminator behind it.
abbrev IsPut : List ℕ → List ℕ → ℕ → ℕ → List ℕ → Type 0
IsPut text b n k c =
    (length c ≡ n)
    × ((i : ℕ) → i < k → get_or c i 0 ≡ get_or b i 0)
    × ((i : ℕ) → i < length text → k + i + 1 < n → get_or c (k + i) 0 ≡ get_or text i 0)

all_written :
    (x : ℕ) (text : List ℕ) (k n : ℕ) (c : List ℕ)
    → (k + 1 < n → get_or c k 0 ≡ x)
    → ((i : ℕ) → i < length text → k + 1 + i + 1 < n → get_or c (k + 1 + i) 0 ≡ get_or text i 0)
    → (i : ℕ) → i < suc (length text)
    → k + i + 1 < n
    → get_or c (k + i) 0 ≡ get_or (x ∷ text) i 0
all_written x text k n c first after zero p q =
    ap (λ j. get_or c j 0) (omega arith) ∙ first (omega arith)
all_written x text k n c first after (suc i) p q =
    ap (λ j. get_or c j 0) (omega arith) ∙ after i (omega arith) (omega arith)

ob_puts-IsPut :
    (text b : List ℕ) (n k : ℕ)
    → length b ≡ n
    → k + length text < 2 ^ 32
    → (c : List ℕ) × (ob_puts text (out b n k) ≡ out c n (k + length text)) × IsPut text b n k c
unfolding ob_puts
ob_puts-IsPut [] b n k e h =
    (b, ap (out b n) (omega arith), (e, (λ i p. refl), (λ i p. absurd (omega arith))))
ob_puts-IsPut (x ∷ text) b n k e h =
    let b1 = put x b n k in
    let (c, r, (l, before, after)) =
      ob_puts-IsPut text b1 n (k + 1) (length-put x b n k ∙ e) (omega arith) in
    let first : k + 1 < n → get_or c k 0 ≡ x =
      λ q. before k (omega arith) ∙ get_or-put_self x b n k e q in
    (
      c,
      ap (ob_puts text) (ob_putc_lem x b n k (omega arith)) ∙ r ∙ ap (out c n) (omega arith),
      (
        l,
        (λ i p. before i (omega arith) ∙ get_or-put_ne x b n k i (omega arith)),
        all_written x text k n c first after,
      ),
    )

finish_lem : (c : List ℕ) (n k : ℕ) → 0 < n → finish (out c n k) ≡ out (set c (min k (n - 1)) 0) n k
unfolding finish
finish_lem c n k p = elim (Bool-cases (ltb k n)) [
  | inl e ↦ grind (arith, e)
  | inr e ↦ grind (arith, e)
]

-- For a buffer of at least one byte and a text below 2^32 characters, `kvsnprintf`'s calls of
-- `ob_putc` for the text and its terminator leave in the buffer the text cut to one less than the
-- size, followed by a NUL, keep the number of bytes, and count the whole text.
pub finish-ob_puts :
    (text b : List ℕ) (n : ℕ)
    → length b ≡ n
    → 0 < n
    → length text < 2 ^ 32
    → (c : List ℕ) × (finish (ob_puts text (out b n 0)) ≡ out c n (length text))
      × (length c ≡ n)
      × ((i : ℕ) → i < min (length text) (n - 1) → get_or c i 0 ≡ get_or text i 0)
      × (get_or c (min (length text) (n - 1)) 0 ≡ 0)
finish-ob_puts text b n e p h =
    let (c, r, (l, before, after)) = ob_puts-IsPut text b n 0 e (omega arith) in
    let at_end = min (length text) (n - 1) in
    (
      set c at_end 0,
      ap finish (r ∙ ap (out c n) (omega arith)) ∙ finish_lem c n (length text) p,
      length-set c at_end 0 ∙ l,
      (λ i q.
          get_or-set_ne c at_end i 0 0 (omega arith)
          ∙ (let same : i ≡ 0 + i = omega arith in ap (λ j. get_or c j 0) same)
          ∙ after i (omega arith) (omega arith)),
      get_or-set_self c at_end 0 0 (omega (arith, l)),
    )
