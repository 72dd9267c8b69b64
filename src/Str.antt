-- ===== src/Str.antt =====
-- The string functions of lib/string.c. A C string is the list of its characters before the NUL, so
-- no character of it is 0; a position in it is what is left of it, and NULL is `none`.
pub mod Compare
pub mod Search
pub mod Number
mod Tests
use Prim.{Unit}
use obsidian_kernel.Base.{
  ℕ, zero, suc, ◌+◌, ◌-◌, ◌*◌, ◌/◌, ◌%◌, ◌^◌, ◌<◌, ◌==◌, ltb, leb, ◌||◌, ◌&&◌, not, List, [], ◌∷◌,
  ◌++◌, Option, none, some, Bool, true, false, if◌then◌else◌, u8, u32, u64, get_or, length,
  replicate, ℤ, pos, negsuc, ◌-ℤ◌, ◌≢◌,
}

-- `*s`
abbrev pub char_at : List ℕ → ℕ
char_at s = get_or s 0 0

-- The characters of a C string: none is 0, and each is a byte.
abbrev pub IsString : List ℕ → Type 0
IsString [] = Unit
IsString (c ∷ s) = (c ≢ 0) × (c < 256) × IsString s

pub k_strlen : List ℕ → ℕ
k_strlen [] = 0
k_strlen (c ∷ s) = suc (k_strlen s)

pub k_strcmp : List ℕ → List ℕ → ℤ
k_strcmp [] b = 0 -ℤ char_at b
k_strcmp (x ∷ a) [] = x -ℤ 0
k_strcmp (x ∷ a) (y ∷ b) = let rest = k_strcmp a b in if x == y then rest else x -ℤ y

-- With `n` characters left.
pub k_strncmp : List ℕ → List ℕ → ℕ → ℤ
k_strncmp a b zero = pos 0
k_strncmp [] b (suc n) = if not (0 == char_at b) then 0 -ℤ char_at b else pos 0
k_strncmp (x ∷ a) [] (suc n) = x -ℤ 0
k_strncmp (x ∷ a) (y ∷ b) (suc n) =
    let rest = k_strncmp a b n in if not (x == y) then x -ℤ y else rest

pub k_strchr : List ℕ → ℕ → Option (List ℕ)
k_strchr [] c = if c == 0 then some [] else none
k_strchr (x ∷ s) c = let rest = k_strchr s c in if x == u8 c then some (x ∷ s) else rest

-- Whether an `int` result is 0.
abbrev pub is_zero : ℤ → Bool
is_zero (pos zero) = true
is_zero (pos (suc n)) = false
is_zero (negsuc n) = false

-- `nl` is the length of the needle.
pub strstr_loop : List ℕ → List ℕ → ℕ → Option (List ℕ)
strstr_loop [] needle nl = none
strstr_loop (x ∷ hay) needle nl =
    let rest = strstr_loop hay needle nl in
    if is_zero (k_strncmp (x ∷ hay) needle nl) then some (x ∷ hay) else rest

pub k_strstr : List ℕ → List ℕ → Option (List ℕ)
k_strstr hay needle = strstr_loop hay needle (k_strlen needle)

-- `(d < 10) ? '0' + d : 'a' + (d - 10)`
abbrev pub digit_char : ℕ → ℕ
digit_char d = if ltb d 10 then 48 + d else 97 + (d - 10)

-- `while (val)`: `tmp`, its last character first. A 64-bit value has 64 rounds at most.
pub itoa_loop : ℕ → ℕ → ℕ → List ℕ → List ℕ
itoa_loop zero val base tmp = tmp
itoa_loop (suc fuel) val base tmp =
    let rest = itoa_loop fuel (val / base) base (digit_char (val % base) ∷ tmp) in
    if val == 0 then tmp else rest

-- The string that `k_itoa64` leaves in `out`.
pub k_itoa64 : ℕ → ℕ → List ℕ
k_itoa64 val base =
    let base = if ltb base 2 || ltb 36 base then 10 else base in
    if val == 0 then 48 ∷ [] else itoa_loop 64 val base []

-- The digits read behind `n`. A step past the largest `int` overflows, which is undefined: `none`.
pub atoi_loop : ℕ → List ℕ → Option ℕ
atoi_loop n [] = some n
atoi_loop n (c ∷ s) =
    let next = n * 10 + (c - 48) in
    let rest = atoi_loop next s in
    if ltb c 48 || ltb 57 c then some n else if leb (2 ^ 31) next then none else rest

-- `neg ? -n : n`, which does not overflow.
abbrev pub signed : Bool → Option ℕ → Option ℤ
signed neg none = none
signed true (some n) = some (0 -ℤ n)
signed false (some n) = some (pos n)

-- `none` is undefined behaviour, for a number that does not fit.
pub k_atoi : List ℕ → Option ℤ
k_atoi [] = some (pos 0)
k_atoi (c ∷ s) = if c == 45 then signed true (atoi_loop 0 s) else signed false (atoi_loop 0 (c ∷ s))

-- `mem_cmp` on the `n` bytes of two areas.
pub mem_cmp : List ℕ → List ℕ → ℤ
mem_cmp [] b = pos 0
mem_cmp (x ∷ a) [] = pos 0
mem_cmp (x ∷ a) (y ∷ b) = let rest = mem_cmp a b in if not (x == y) then x -ℤ y else rest

-- The `n` bytes that `k_strncpy` stores.
unfoldable pub k_strncpy : List ℕ → ℕ → List ℕ
k_strncpy src zero = []
k_strncpy [] (suc n) = 0 ∷ k_strncpy [] n
k_strncpy (c ∷ src) (suc n) = c ∷ k_strncpy src n
