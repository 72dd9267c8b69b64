-- ===== src/Ramfs.antt =====
-- The RAM file system, fs/ramfs.c, over the strings. `kmalloc` returns a block or not as the
-- argument `room` says; what stands in the block of a file is its `content`. Names are not NULL.
pub mod Volume
pub mod Promise
pub mod Refines
mod Tests
use obsidian_kernel.Base.{
  ℕ, zero, suc, ◌+◌, ◌-◌, ◌^◌, ◌%◌, ◌==◌, ltb, leb, Bool, true, false, List, [], ◌∷◌, ◌++◌, Option,
  none, some, if◌then◌else◌, ◌&&◌, ◌||◌, not, replicate, take, drop, set, get_or, length, min, ℤ,
  pos, negsuc, u32, is_null,
}
use obsidian_kernel.Str.{k_strlen, k_strcmp, k_strncpy, is_zero}

abbrev pub ramfs_name_len : ℕ
ramfs_name_len = 32

abbrev pub ramfs_max_files : ℕ
ramfs_max_files = 32

pub record File : Type 0 where
  pub name : List ℕ
  pub content : Option (List ℕ)
  pub size : ℕ
  pub used : Bool

pub record Ramfs : Type 0 where
  pub files : List File
  pub ready : Bool

abbrev pub zero_file : File
zero_file = record { name = replicate ramfs_name_len 0; content = none; size = 0; used = false }

-- The characters of an array, up to the NUL.
pub chars : List ℕ → List ℕ
chars [] = []
chars (c ∷ s) = let rest = chars s in if c == 0 then [] else c ∷ rest

pub ramfs_init : Ramfs → Bool × Ramfs
ramfs_init s = (true, record { files = replicate ramfs_max_files zero_file; ready = true })

-- The number of a file, behind one more.
abbrev pub next : Option ℕ → Option ℕ
next none = none
next (some i) = some (suc i)

pub lookup_loop : List ℕ → List File → Option ℕ
lookup_loop want [] = none
lookup_loop want (f ∷ files) =
    let rest = next (lookup_loop want files) in
    if f.used && is_zero (k_strcmp (chars f.name) want) then some 0 else rest

pub lookup : List ℕ → Ramfs → Option ℕ
lookup want s = if s.ready then lookup_loop want s.files else none

-- The first file that is not in use.
pub free_slot : List File → Option ℕ
free_slot [] = none
free_slot (f ∷ files) = let rest = next (free_slot files) in if f.used then rest else some 0

-- `k_strncpy(files[i].name, name, RAMFS_NAME_LEN - 1)`, which keeps the last byte.
abbrev pub created : List ℕ → File → File
created want f = record {
  name = k_strncpy want (ramfs_name_len - 1) ++ drop (ramfs_name_len - 1) f.name;
  content = none;
  size = 0;
  used = true;
}

abbrev pub create_at : List ℕ → Option ℕ → Ramfs → ℤ × Ramfs
create_at want none s = (negsuc 0, s)
create_at want (some i) s =
    (pos i, record s { files = set s.files i (created want (get_or s.files i zero_file)) })

unfoldable pub ramfs_create : List ℕ → Ramfs → ℤ × Ramfs
ramfs_create want s =
    if not s.ready || leb ramfs_name_len (k_strlen want)
    then (negsuc 0, s)
    else if not (is_null (lookup want s))
    then (negsuc 0, s)
    else create_at want (free_slot s.files) s

abbrev pub write_at : Bool → List ℕ → Option ℕ → Ramfs → ℤ × Ramfs
write_at room bytes none s = (negsuc 0, s)
write_at room bytes (some i) s =
    let f = record (get_or s.files i zero_file) { content = some bytes; size = length bytes } in
    if room then (pos 0, record s { files = set s.files i f }) else (negsuc 0, s)

unfoldable pub ramfs_write : Bool → List ℕ → List ℕ → Ramfs → ℤ × Ramfs
ramfs_write room want bytes s = write_at room bytes (lookup want s) s

-- `(int)n`
abbrev pub to_int : ℕ → ℤ
to_int n = if ltb (u32 n) (2 ^ 31) then pos (u32 n) else negsuc (2 ^ 32 - 1 - u32 n)

-- What a file's block holds.
abbrev pub block_of : Option (List ℕ) → List ℕ
block_of none = []
block_of (some bytes) = bytes

-- The result, and the bytes that are copied.
abbrev pub read_at : ℕ → Option ℕ → Ramfs → ℤ × List ℕ
read_at max_len none s = (negsuc 0, [])
read_at max_len (some i) s =
    let f = get_or s.files i zero_file in
    let n = if ltb f.size max_len then f.size else max_len in
    (to_int n, take n (block_of f.content))

-- `out` is false for NULL.
unfoldable pub ramfs_read : Bool → List ℕ → ℕ → Ramfs → ℤ × List ℕ
ramfs_read out want max_len s = if out then read_at max_len (lookup want s) s else (negsuc 0, [])

abbrev pub size_at : Option ℕ → Ramfs → ℕ
size_at none s = 0
size_at (some i) s = (get_or s.files i zero_file).size

unfoldable pub ramfs_size : List ℕ → Ramfs → ℕ
ramfs_size want s = size_at (lookup want s) s

-- The names that are stored, at most so many, each in 31 bytes of its array.
pub list_loop : List File → ℕ → List (List ℕ)
list_loop [] room = []
list_loop (f ∷ files) zero = []
list_loop (f ∷ files) (suc room) =
    let skipped = list_loop files (suc room) in
    let rest = list_loop files room in
    if f.used then k_strncpy (chars f.name) (ramfs_name_len - 1) ∷ rest else skipped

unfoldable pub ramfs_list : ℕ → Ramfs → List (List ℕ)
ramfs_list max s = list_loop s.files max
