-- ===== src/Memory/Fill.antt =====
-- `memset`: the byte, word and byte loops together fill exactly the `n` bytes from `d`.
use obsidian_kernel.Base.{
  ℕ, zero, suc, ◌+◌, ◌*◌, ◌^◌, ◌≤◌, ◌<◌, ◌≡◌, ◌⊎◌, inl, inr, ◌==◌, arith, u32, u8, refl,
  bit_or_join, bit_or_comm, bit_or, bit_and, Bool-cases,
}
use obsidian_kernel.Memory.{
  Memory, Cursor, cursor, store8, store32, memset_head, memset_words, memset_tail, spread, memset,
}
use obsidian_kernel.Memory.Access.{SameOff, store32-SameOff}

-- The bytes from `d` to `c.dst` are filled, the rest of memory is as in `m`, and the bytes left
-- reach up to `d + n`.
record IsFilling (v : ℕ) (m : Memory) (d n : ℕ) (c : Cursor) : Type 0 where
  moved : d ≤ c.dst
  total : c.dst + c.left ≡ d + n
  inside : (x : ℕ) → d ≤ x → x < c.dst → c.mem x ≡ v
  outside : (x : ℕ) → (x < d) ⊎ (c.dst ≤ x) → c.mem x ≡ m x

-- `w` is `m` with `v` in the `n` bytes from `d`.
pub record IsFilled (v : ℕ) (d n : ℕ) (m w : Memory) : Type 0 where
  pub inside : (x : ℕ) → d ≤ x → x < d + n → w x ≡ v
  pub outside : SameOff d n m w

module _ (v : ℕ) where
  start-IsFilling : (m : Memory) (d n : ℕ) → IsFilling v m d n (cursor m d n)
  start-IsFilling m d n = record {
    moved = omega arith;
    total = refl;
    inside = λ x p q. absurd (omega arith);
    outside = λ x h. refl;
  }

  head-IsFilling : (n : ℕ) (m : Memory) (d : ℕ) → IsFilling v m d n (memset_head v m d n)
  unfolding memset_head store8
  head-IsFilling zero m d = start-IsFilling m d 0
  head-IsFilling (suc n) m d = elim (Bool-cases (bit_and d 3 == 0)) [
    | inl aligned ↦ rw aligned (start-IsFilling m d (suc n))
    | inr not ↦ rw not (
        let rest = head-IsFilling n (store8 m d v) (d + 1) in
        record {
          moved = omega (arith, rest.moved);
          total = omega (arith, rest.total);
          inside = λ x p q. ground (arith, rest.inside x, rest.outside x);
          outside = λ x h. ground (arith, rest.outside x, rest.moved);
        })
  ]

  tail-IsFilled : (n : ℕ) (m : Memory) (d : ℕ) → IsFilled v d n m (memset_tail v m d n)
  unfolding memset_tail store8
  tail-IsFilled zero m d = record { inside = λ x p q. absurd (omega arith); outside = λ x h. refl }
  tail-IsFilled (suc n) m d =
      let rest = tail-IsFilled n (store8 m d v) (d + 1) in
      record {
        inside = λ x p q. ground (arith, rest.inside x, rest.outside x);
        outside = λ x h. ground (arith, rest.outside x);
      }

-- For a byte the four shifted copies do not overlap.
spread_lem : (v : ℕ) → v < 256 → spread v ≡ v * 0x01010101
unfolding spread
spread_lem v h =
    let two : bit_or v (v * 2 ^ 8) ≡ v * 257 =
      omega (arith, bit_or_comm v (v * 2 ^ 8), bit_or_join 8 v v (omega arith)) in
    let three : bit_or (v * 257) (v * 2 ^ 16) ≡ v * 65793 =
      omega (arith, bit_or_comm (v * 257) (v * 2 ^ 16), bit_or_join 16 v (v * 257) (omega arith)) in
    let four : bit_or (v * 65793) (v * 2 ^ 24) ≡ v * 0x01010101 =
      omega
        (arith, bit_or_comm (v * 65793) (v * 2 ^ 24), bit_or_join 24 v (v * 65793) (omega arith)) in
    let fits : u32 (v * 2 ^ 24) ≡ v * 2 ^ 24 = omega arith in rw (two, three, fits, four)

-- A word of four equal bytes is four byte writes.
word_inside :
    (v : ℕ) (m : Memory) (d x : ℕ) → v < 256 → d ≤ x → x < d + 4 → store32 m d (spread v) x ≡ v
unfolding store32
word_inside v m d x small p q = rw (spread_lem v small) (ground arith)

words-IsFilling :
    (v n : ℕ) (m : Memory) (d : ℕ) → v < 256 → IsFilling v m d n (memset_words (spread v) m d n)
unfolding memset_words
words-IsFilling v zero m d small = start-IsFilling v m d 0
words-IsFilling v (suc zero) m d small = start-IsFilling v m d 1
words-IsFilling v (suc (suc zero)) m d small = start-IsFilling v m d 2
words-IsFilling v (suc (suc (suc zero))) m d small = start-IsFilling v m d 3
words-IsFilling v (suc (suc (suc (suc n)))) m d small =
    let rest = words-IsFilling v n (store32 m d (spread v)) (d + 4) small in
    record {
      moved = omega (arith, rest.moved);
      total = omega (arith, rest.total);
      inside = λ x p q. ground (arith, rest.inside x, rest.outside x, word_inside v m d x small);
      outside = λ x h. ground (arith, rest.outside x, rest.moved, store32-SameOff m d (spread v) x);
    }

-- `memset` stores the low byte of `val` in each of the `n` bytes from `d`, whatever the alignment,
-- and changes no other byte.
pub memset-IsFilled : (d val n : ℕ) (m : Memory) → IsFilled (u8 val) d n m (memset d val n m)
unfolding memset
memset-IsFilled d val n m =
    let v = u8 val in
    let head = head-IsFilling v n m d in
    let c = memset_head v m d n in
    let body = words-IsFilling v c.left c.mem c.dst (omega arith) in
    let b = memset_words (spread v) c.mem c.dst c.left in
    let end = tail-IsFilled v b.left b.mem b.dst in
    record {
      inside = λ x p q. ground (
        arith,
        end.inside x,
        end.outside x,
        body.inside x,
        body.outside x,
        head.inside x,
        head.moved,
        head.total,
        body.moved,
        body.total,
      );
      outside = λ x h. ground (
        arith,
        end.outside x,
        body.outside x,
        head.outside x,
        head.moved,
        head.total,
        body.moved,
        body.total,
      );
    }
