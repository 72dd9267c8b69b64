-- ===== src/Memory/Copy.antt =====
-- `memcpy` and `memmove`: the bytes that arrive, and the bytes left alone.
use obsidian_kernel.Base.{
  ℕ, zero, suc, ◌+◌, ◌-◌, ◌≤◌, ◌<◌, ◌≡◌, ◌⊎◌, inl, inr, ◌==◌, ltb, ◌||◌, arith, refl, bit_and,
  Bool-cases,
}
use obsidian_kernel.Memory.{
  Memory, CopyCursor, copy_cursor, store8, load32, store32, memcpy_head, memcpy_words, memcpy_tail,
  memcpy, memmove_down, memmove,
}
use obsidian_kernel.Memory.Access.{
  SameOff, store32-SameOff, IsBytes, store8-IsBytes, store32-IsBytes,
}

-- `w` is `m` with the `n` bytes from `s`, as they were in `m`, at `d`.
pub record IsCopied (d s n : ℕ) (m w : Memory) : Type 0 where
  pub inside : (k : ℕ) → k < n → w (d + k) ≡ m (s + k)
  pub outside : SameOff d n m w

-- An ascending copy reads each source byte before it writes over it.
abbrev pub Ascends : ℕ → ℕ → ℕ → Type 0
Ascends d s n = (d ≤ s) ⊎ (s + n ≤ d)

record IsCopying (m : Memory) (d s n : ℕ) (c : CopyCursor) : Type 0 where
  moved : d ≤ c.dst
  total : c.dst + c.left ≡ d + n
  in_step : c.src + d ≡ s + c.dst
  inside : (k : ℕ) → d + k < c.dst → c.mem (d + k) ≡ m (s + k)
  outside : (x : ℕ) → (x < d) ⊎ (c.dst ≤ x) → c.mem x ≡ m x
  bytes : IsBytes c.mem

start-IsCopying : (m : Memory) (d s n : ℕ) → IsBytes m → IsCopying m d s n (copy_cursor m d s n)
start-IsCopying m d s n b = record {
  moved = omega arith;
  total = refl;
  in_step = omega arith;
  inside = λ k p. absurd (omega arith);
  outside = λ x h. refl;
  bytes = b;
}

tail-IsCopied :
    (n : ℕ) (m : Memory) (d s : ℕ) → Ascends d s n → IsCopied d s n m (memcpy_tail m d s n)
unfolding memcpy_tail store8
tail-IsCopied zero m d s h = record { inside = λ k p. absurd (omega arith); outside = λ x p. refl }
tail-IsCopied (suc n) m d s h =
    let rest = tail-IsCopied n (store8 m d (m s)) (d + 1) (s + 1) (omega arith) in
    record {
      inside = λ k p. grind (arith, rest.inside (k - 1), rest.outside (d + k));
      outside = λ x p. ground (arith, rest.outside x);
    }

down-IsCopied : (n : ℕ) (m : Memory) (d s : ℕ) → s ≤ d → IsCopied d s n m (memmove_down m d s n)
unfolding memmove_down store8
down-IsCopied zero m d s h = record { inside = λ k p. absurd (omega arith); outside = λ x p. refl }
down-IsCopied (suc n) m d s h =
    let rest = down-IsCopied n (store8 m (d + n) (m (s + n))) d s h in
    record {
      inside = λ k p. grind (arith, rest.inside k, rest.outside (d + k));
      outside = λ x p. ground (arith, rest.outside x);
    }

head-IsCopying :
    (n : ℕ) (m : Memory) (d s : ℕ)
    → IsBytes m
    → Ascends d s n
    → IsCopying m d s n (memcpy_head m d s n)
unfolding memcpy_head store8
head-IsCopying zero m d s b h = start-IsCopying m d s 0 b
head-IsCopying (suc n) m d s b h = elim (Bool-cases (bit_and d 3 == 0)) [
  | inl aligned ↦ rw aligned (start-IsCopying m d s (suc n) b)
  | inr not ↦ rw not (
      let w = store8 m d (m s) in
      let rest =
        head-IsCopying n w (d + 1) (s + 1) (store8-IsBytes m d (m s) b (b s)) (omega arith) in
      record {
        moved = omega (arith, rest.moved);
        total = omega (arith, rest.total);
        in_step = omega (arith, rest.in_step);
        inside = λ k p. grind (arith, rest.inside (k - 1), rest.outside (d + k));
        outside = λ x p. ground (arith, rest.outside x, rest.moved);
        bytes = rest.bytes;
      })
]

-- A word load and store moves four bytes.
word_byte :
    (m : Memory) (d s k : ℕ) → IsBytes m → k < 4 → store32 m d (load32 m s) (d + k) ≡ m (s + k)
unfolding store32 load32
word_byte m d s k b h = ground (arith, b s, b (s + 1), b (s + 2), b (s + 3))

words-IsCopying :
    (n : ℕ) (m : Memory) (d s : ℕ)
    → IsBytes m
    → Ascends d s n
    → IsCopying m d s n (memcpy_words m d s n)
unfolding memcpy_words
words-IsCopying zero m d s b h = start-IsCopying m d s 0 b
words-IsCopying (suc zero) m d s b h = start-IsCopying m d s 1 b
words-IsCopying (suc (suc zero)) m d s b h = start-IsCopying m d s 2 b
words-IsCopying (suc (suc (suc zero))) m d s b h = start-IsCopying m d s 3 b
words-IsCopying (suc (suc (suc (suc n)))) m d s b h =
    let w = store32 m d (load32 m s) in
    let rest =
      words-IsCopying n w (d + 4) (s + 4) (store32-IsBytes m d (load32 m s) b) (omega arith) in
    record {
      moved = omega (arith, rest.moved);
      total = omega (arith, rest.total);
      in_step = omega (arith, rest.in_step);
      inside = λ k p. grind (
        arith,
        rest.inside (k - 4),
        rest.outside (d + k),
        word_byte m d s k b,
        store32-SameOff m d (load32 m s) (s + k),
      );
      outside =
          λ x p. ground (arith, rest.outside x, rest.moved, store32-SameOff m d (load32 m s) x);
      bytes = rest.bytes;
    }

-- A copy that a loop began and another code finishes.
finish-IsCopied :
    (m w : Memory) (d s n : ℕ) (c : CopyCursor)
    → Ascends d s n
    → IsCopying m d s n c
    → IsCopied c.dst c.src c.left c.mem w
    → IsCopied d s n m w
finish-IsCopied m w d s n c h begun rest = record {
  inside = λ k p. elim (Bool-cases (ltb (d + k) c.dst)) [
    | inl early ↦ ground (arith, rest.outside (d + k), begun.inside k)
    | inr late ↦
        grind
          (arith, rest.inside (d + k - c.dst), begun.outside (s + k), begun.total, begun.in_step)
  ];
  outside = λ x p. ground (arith, rest.outside x, begun.outside x, begun.moved, begun.total);
}

-- For an ascending pair of areas, which disjoint ones are, `memcpy` puts the `n` bytes that stood
-- at `s` at `d`, whatever the alignment, and changes no other byte.
pub memcpy-IsCopied :
    (d s n : ℕ) (m : Memory) → IsBytes m → Ascends d s n → IsCopied d s n m (memcpy d s n m)
unfolding memcpy
memcpy-IsCopied d s n m b h =
    let head = head-IsCopying n m d s b h in
    let c = memcpy_head m d s n in
    let still : Ascends c.dst c.src c.left = omega (arith, head.moved, head.total, head.in_step) in
    let body = words-IsCopying c.left c.mem c.dst c.src head.bytes still in
    let w = memcpy_words c.mem c.dst c.src c.left in
    let end =
      tail-IsCopied w.left w.mem w.dst w.src (
        omega
          (arith, head.moved, head.total, head.in_step, body.moved, body.total, body.in_step)) in
    let last = memcpy_tail w.mem w.dst w.src w.left in
    finish-IsCopied m last d s n c h head
      (finish-IsCopied c.mem last c.dst c.src c.left w still body end)

-- `memmove` puts the `n` bytes that stood at `s` at `d`, whether the areas overlap or not, and changes
-- no other byte.
pub memmove-IsCopied : (d s n : ℕ) (m : Memory) → IsCopied d s n m (memmove d s n m)
unfolding memmove
memmove-IsCopied d s n m = elim (Bool-cases (d == s || n == 0)) [
  | inl same ↦ rw same (record { inside = λ k p. ground arith; outside = λ x p. refl })
  | inr differ ↦ rw differ (elim (Bool-cases (ltb d s)) [
    | inl up ↦ rw up (tail-IsCopied n m d s (ground arith))
    | inr down ↦ rw down (down-IsCopied n m d s (ground arith))
  ])
]
