-- ===== src/Ramfs/Promise.antt =====
-- What the calls on the file system promise, of names with contents.
use obsidian_kernel.Base.{
  ℕ, zero, suc, ltb, leb, Bool, true, List, [], ◌∷◌, ◌++◌, Option, none, some, map, if◌then◌else◌,
  not, take, length, ℤ, pos, negsuc, is_null, ◌||◌,
}
use obsidian_kernel.Str.{IsString, k_strncpy}
use obsidian_kernel.Ramfs.{
  Ramfs, ramfs_create, ramfs_write, ramfs_read, ramfs_size, ramfs_list, to_int, block_of,
}
use obsidian_kernel.Ramfs.Volume.{Entry, slots, find, put}

-- Files in the order of creation, and room for so many more.
pub record Volume : Type 0 where
  pub room : ℕ
  pub entries : List Entry

abbrev pub store : Volume → Ramfs
store v = record { files = slots v.room v.entries; ready = true }

pub data Call : Type 0 where
  create_file : List ℕ → Call
  write_file : Bool → List ℕ → List ℕ → Call
  read_file : Bool → List ℕ → ℕ → Call
  file_size : List ℕ → Call
  list_files : ℕ → Call

pub data Reply : Type 0 where
  status : ℤ → Reply
  copied : ℤ × List ℕ → Reply
  size_of : ℕ → Reply
  names : List (List ℕ) → Reply

-- Names are strings.
abbrev pub IsCall : Call → Type 0
IsCall (create_file n) = IsString n
IsCall (write_file room n bytes) = IsString n
IsCall (read_file out n max) = IsString n
IsCall (file_size n) = IsString n
IsCall (list_files max) = Unit {0}

-- A call of the code.
abbrev pub call : Call → Ramfs → Reply × Ramfs
call (create_file n) s = let r = ramfs_create n s in (status r.0, r.1)
call (write_file room n bytes) s = let r = ramfs_write room n bytes s in (status r.0, r.1)
call (read_file out n max) s = (copied (ramfs_read out n max s), s)
call (file_size n) s = (size_of (ramfs_size n s), s)
call (list_files max) s = (names (ramfs_list max s), s)

-- A new file stands last, if there is room.
abbrev pub add : List ℕ → ℕ → List Entry → ℤ × Volume
add n zero a = (negsuc 0, record { room = 0; entries = a })
add n (suc room) a = (pos (length a), record { room = room; entries = a ++ (n, none) ∷ [] })

abbrev pub create_in : List ℕ → Volume → ℤ × Volume
create_in n v =
    if leb 32 (length n) || not (is_null (find n v.entries))
    then (negsuc 0, v)
    else add n v.room v.entries

abbrev pub write_in : Bool → List ℕ → List ℕ → Volume → ℤ × Volume
write_in room n bytes v =
    if is_null (find n v.entries) || not room
    then (negsuc 0, v)
    else (pos 0, record v { entries = put n bytes v.entries })

-- The first `max` bytes.
abbrev pub read_in : Option (Option (List ℕ)) → ℕ → ℤ × List ℕ
read_in none max = (negsuc 0, [])
read_in (some o) max =
    let b = block_of o in (to_int (if ltb (length b) max then length b else max), take max b)

abbrev pub size_in : Option (Option (List ℕ)) → ℕ
size_in none = 0
size_in (some o) = length (block_of o)

-- What a call promises.
abbrev pub promise : Call → Volume → Reply × Volume
promise (create_file n) v = let r = create_in n v in (status r.0, r.1)
promise (write_file room n bytes) v = let r = write_in room n bytes v in (status r.0, r.1)
promise (read_file out n max) v =
    (copied (if out then read_in (find n v.entries) max else (negsuc 0, [])), v)
promise (file_size n) v = (size_of (size_in (find n v.entries)), v)
promise (list_files max) v = (names (map (λ e. k_strncpy e.0 31) (take max v.entries)), v)

abbrev pub stored : {A : Type 0} → A × Volume → A × Ramfs
stored r = (r.0, store r.1)

-- The replies to a sequence of calls, by the code and as they are promised.
abbrev pub replies : List Call → Ramfs → List Reply
replies [] s = []
replies (c ∷ calls) s = let r = call c s in r.0 ∷ replies calls r.1

abbrev pub promised : List Call → Volume → List Reply
promised [] v = []
promised (c ∷ calls) v = let r = promise c v in r.0 ∷ promised calls r.1

abbrev pub AreCalls : List Call → Type 0
AreCalls [] = Unit {0}
AreCalls (c ∷ calls) = IsCall c × AreCalls calls
