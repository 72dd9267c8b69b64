-- ===== src/Ext4/Csum/Table.antt =====
-- The checksum by the table is the checksum bit by bit.
use obsidian_kernel.Base.{
  ℕ, zero, suc, ◌+◌, ◌*◌, ◌/◌, ◌%◌, ◌^◌, ◌<◌, ◌==◌, not, List, [], ◌∷◌, if◌then◌else◌, get_or,
  bit_and, bit_xor, bit_xor_assoc, bit_xor_comm, bit_xor_self, zero-bit_xor, bit_xor_half,
  bit_xor_low, bit_xor_join, bit_and_mask, AreBytes, double_field, ◌≡◌, refl, sym, ap, ap₂, ◌∙◌,
  arith,
}
use native.Mathlib.Nat.{pow-suc, div-div-eq-div-mul}
use obsidian_kernel.Ext4.Csum.{crc32c_round, rounds, entries, crc32c_byte, ext4_crc32c}

-- The bits of a byte go through the register one by one, with no table.
abbrev pub bitwise_crc32c : ℕ → List ℕ → ℕ
bitwise_crc32c crc [] = crc
bitwise_crc32c crc (b ∷ buf) = bitwise_crc32c (rounds 8 crc32c_round (bit_xor crc b)) buf

get_or-entries : (f : ℕ → ℕ) (n i j : ℕ) → j < n → get_or (entries f i n) j 0 ≡ f (i + j)
get_or-entries f zero i j h = absurd (omega arith)
get_or-entries f (suc n) i zero h = ap f (omega arith)
get_or-entries f (suc n) i (suc j) h =
    get_or-entries f n (i + 1) j (omega arith) ∙ ap f (omega arith)

-- A round, by the lowest bit.
abbrev pub step : ℕ → ℕ → ℕ
step h zero = h
step h (suc l) = bit_xor h 0x82F63B78

step_if : (h l : ℕ) → l < 2 → (if not (l == 0) then bit_xor h 0x82F63B78 else h) ≡ step h l
step_if h zero hl = refl
step_if h (suc zero) hl = refl
step_if h (suc (suc l)) hl = absurd (omega arith)

crc32c_round_lem : (c : ℕ) → crc32c_round c ≡ step (c / 2) (c % 2)
unfolding crc32c_round
crc32c_round_lem c = rw (bit_and_mask 1 c) (step_if (c / 2) (c % 2) (omega arith))

step-bit_xor :
    (h k l m : ℕ) → l < 2 → m < 2 → step (bit_xor h k) ((l + m) % 2) ≡ bit_xor (step h l) (step k m)
step-bit_xor h k zero zero hl hm = refl
step-bit_xor h k zero (suc zero) hl hm = bit_xor_assoc h k 0x82F63B78
step-bit_xor h k (suc zero) zero hl hm =
    bit_xor_assoc h k p ∙ ap (bit_xor h) (bit_xor_comm k p) ∙ sym (bit_xor_assoc h p k)
  where
    p : ℕ
    p = 0x82F63B78
step-bit_xor h k (suc zero) (suc zero) hl hm = sym (
    bit_xor_assoc h p (bit_xor k p)
    ∙ ap (bit_xor h) (
        ap (bit_xor p) (bit_xor_comm k p)
        ∙ sym (bit_xor_assoc p p k)
        ∙ ap (λ z. bit_xor z k) (bit_xor_self p)
        ∙ zero-bit_xor k))
  where
    p : ℕ
    p = 0x82F63B78
step-bit_xor h k zero (suc (suc m)) hl hm = absurd (omega arith)
step-bit_xor h k (suc zero) (suc (suc m)) hl hm = absurd (omega arith)
step-bit_xor h k (suc (suc l)) m hl hm = absurd (omega arith)

crc32c_round-bit_xor :
    (a b : ℕ) → crc32c_round (bit_xor a b) ≡ bit_xor (crc32c_round a) (crc32c_round b)
crc32c_round-bit_xor a b =
    crc32c_round_lem (bit_xor a b)
    ∙ ap₂ step (bit_xor_half a b) (bit_xor_low a b)
    ∙ step-bit_xor (a / 2) (b / 2) (a % 2) (b % 2) (omega arith) (omega arith)
    ∙ ap₂ bit_xor (sym (crc32c_round_lem a)) (sym (crc32c_round_lem b))

rounds-bit_xor :
    (k a b : ℕ)
    → rounds k crc32c_round (bit_xor a b)
      ≡ bit_xor (rounds k crc32c_round a) (rounds k crc32c_round b)
rounds-bit_xor zero a b = refl
rounds-bit_xor (suc k) a b =
    ap (rounds k crc32c_round) (crc32c_round-bit_xor a b)
    ∙ rounds-bit_xor k (crc32c_round a) (crc32c_round b)

-- The rounds shift out zeros.
crc32c_round_even : (m : ℕ) → crc32c_round (2 * m) ≡ m
crc32c_round_even m =
    let half : 2 * m / 2 ≡ m = omega arith in
    let low : 2 * m % 2 ≡ 0 = omega arith in crc32c_round_lem (2 * m) ∙ ap₂ step half low

rounds_shift : (k q : ℕ) → rounds k crc32c_round (q * 2 ^ k) ≡ q
rounds_shift zero q = omega arith
rounds_shift (suc k) q =
    ap (rounds k crc32c_round) (ap crc32c_round (double_field k q) ∙ crc32c_round_even (q * 2 ^ k))
    ∙ rounds_shift k q

high_bits : (k a b : ℕ) → b < 2 ^ k → bit_xor a b / 2 ^ k ≡ a / 2 ^ k
high_bits zero a zero h = ap (λ n. n / 1) (bit_xor_comm a 0 ∙ zero-bit_xor a)
high_bits zero a (suc b) h = absurd (omega arith)
high_bits (suc k) a b h =
    by_halves (bit_xor a b)
    ∙ ap (λ n. n / 2 ^ k) (bit_xor_half a b)
    ∙ high_bits k (a / 2) (b / 2) (omega (arith, h, pow-suc 2 k))
    ∙ sym (by_halves a)
  where
    by_halves : (n : ℕ) → n / 2 ^ suc k ≡ n / 2 / 2 ^ k
    by_halves n =
        ap (λ m. n / m) (omega (arith, pow-suc 2 k)) ∙ sym (div-div-eq-div-mul n 2 (2 ^ k))

rounds_split :
    (x : ℕ) → rounds 8 crc32c_round x ≡ bit_xor (x / 2 ^ 8) (rounds 8 crc32c_round (x % 2 ^ 8))
rounds_split x =
    ap (rounds 8 crc32c_round)
      (sym (bit_xor_join 8 (x / 2 ^ 8) (x % 2 ^ 8) (omega arith) ∙ omega arith))
    ∙ rounds-bit_xor 8 (x / 2 ^ 8 * 2 ^ 8) (x % 2 ^ 8)
    ∙ ap (λ h. bit_xor h (rounds 8 crc32c_round (x % 2 ^ 8))) (rounds_shift 8 (x / 2 ^ 8))

crc32c_byte_lem : (crc b : ℕ) → b < 256 → crc32c_byte crc b ≡ rounds 8 crc32c_round (bit_xor crc b)
unfolding crc32c_byte
crc32c_byte_lem crc b h =
    let low = bit_and (bit_xor crc b) 0xFF in
    let mask = bit_and_mask 8 (bit_xor crc b) in
    ap₂ bit_xor (sym (high_bits 8 crc b h)) (
      get_or-entries (rounds 8 crc32c_round) 256 0 low (omega (arith, mask))
      ∙ ap (rounds 8 crc32c_round) (omega (arith, mask)))
    ∙ sym (rounds_split (bit_xor crc b))

-- `ext4_crc32c` of bytes is the checksum bit by bit, from any register.
pub ext4_crc32c-bitwise_crc32c :
    (buf : List ℕ) (crc : ℕ) → AreBytes buf → ext4_crc32c crc buf ≡ bitwise_crc32c crc buf
unfolding ext4_crc32c
ext4_crc32c-bitwise_crc32c [] crc h = refl
ext4_crc32c-bitwise_crc32c (b ∷ buf) crc h =
    ap (λ c. ext4_crc32c c buf) (crc32c_byte_lem crc b h.0)
    ∙ ext4_crc32c-bitwise_crc32c buf (rounds 8 crc32c_round (bit_xor crc b)) h.1
