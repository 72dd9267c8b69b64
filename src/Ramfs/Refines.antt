-- ===== src/Ramfs/Refines.antt =====
-- Every sequence of calls on the file system, against a list of names with contents.
use obsidian_kernel.Base.{
  if◌then◌else◌, negsuc, ℕ, zero, suc, ◌<◌, leb, Bool, true, false, List, [], ◌∷◌, ◌++◌, none, not,
  length, pos, is_null, Bool-cases, ◌||◌, ◌≡◌, inl, inr, refl, ap, arith,
}
use obsidian_kernel.Str.{IsString}
use obsidian_kernel.Str.Search.{k_strlen_lem}
use obsidian_kernel.Ramfs.{
  Ramfs, ramfs_init, ramfs_create, ramfs_write, ramfs_read, ramfs_size, ramfs_list, block_of,
  lookup, create_at, free_slot,
}
use obsidian_kernel.Ramfs.Volume.{
  Entry, IsEntry, AreEntries, slots, find, put, Found, absent, present, found, free_slot-full,
  free_slot-room, set-created, take_least, list_loop-slots, same,
}
use obsidian_kernel.Ramfs.Promise.{
  Volume, store, Call, create_file, write_file, read_file, file_size, list_files, status, copied,
  size_of, names, IsCall, AreCalls, call, add, create_in, write_in, read_in, size_in, promise,
  stored, replies, promised,
}

create_at-store :
    (n : List ℕ) (room : ℕ) (a : List Entry)
    → (let s : Ramfs = record { files = slots room a; ready = true } in
        create_at n (free_slot (slots room a)) s ≡ stored (add n room a))
create_at-store n zero a = rw (free_slot-full a) refl
create_at-store n (suc room) a =
    rw (free_slot-room room a) (
      ap (λ files. (pos (length a), record { files = files; ready = true })) (set-created n room a))

create-store :
    (n : List ℕ) (v : Volume)
    → AreEntries v.entries
    → IsString n
    → ramfs_create n (store v) ≡ stored (create_in n v)
unfolding ramfs_create lookup
create-store n v ok str = elim (Bool-cases (leb 32 (length n))) [
  | inl a ↦ rw (k_strlen_lem n, a) refl
  | inr a ↦ elim (found n v.room v.entries ok str) [
    | absent l f ↦ rw (k_strlen_lem n, a, l, f) (create_at-store n v.room v.entries)
    | present i o l f g s ↦ rw (k_strlen_lem n, a, l, f) refl
  ]
]

write-store :
    (room : Bool) (n bytes : List ℕ) (v : Volume)
    → AreEntries v.entries
    → IsString n
    → ramfs_write room n bytes (store v) ≡ stored (write_in room n bytes v)
unfolding ramfs_write lookup
write-store room n bytes v ok str = go (found n v.room v.entries ok str) room
  where
    go :
        Found n v.room v.entries
        → (room : Bool) → ramfs_write room n bytes (store v) ≡ stored (write_in room n bytes v)
    go (absent l f) room = rw (l, f) refl
    go (present i o l f g s) true = rw (l, f, g, s bytes) refl
    go (present i o l f g s) false = rw (l, f) refl

read-store :
    (out : Bool) (n : List ℕ) (max : ℕ) (v : Volume)
    → AreEntries v.entries
    → IsString n
    → ramfs_read out n max (store v)
      ≡ (if out then read_in (find n v.entries) max else (negsuc 0, []))
unfolding ramfs_read lookup
read-store false n max v ok str = refl
read-store true n max v ok str = elim (found n v.room v.entries ok str) [
  | absent l f ↦ rw (l, f) refl
  | present i o l f g s ↦ rw (l, f, g, take_least (block_of o) max) refl
]

size-store :
    (n : List ℕ) (v : Volume)
    → AreEntries v.entries
    → IsString n
    → ramfs_size n (store v) ≡ size_in (find n v.entries)
unfolding ramfs_size lookup
size-store n v ok str = elim (found n v.room v.entries ok str) [
  | absent l f ↦ rw (l, f) refl
  | present i o l f g s ↦ rw (l, f) (ap (λ file. file.size) g)
]

call-promise :
    (c : Call) (v : Volume)
    → AreEntries v.entries
    → IsCall c
    → call c (store v) ≡ stored (promise c v)
unfolding ramfs_list
call-promise (create_file n) v ok str = ap (λ r. (status r.0, r.1)) (create-store n v ok str)
call-promise (write_file room n bytes) v ok str =
    ap (λ r. (status r.0, r.1)) (write-store room n bytes v ok str)
call-promise (read_file out n max) v ok str =
    ap (λ r. (copied r, store v)) (read-store out n max v ok str)
call-promise (file_size n) v ok str = ap (λ r. (size_of r, store v)) (size-store n v ok str)
call-promise (list_files max) v ok str =
    ap (λ r. (names r, store v)) (list_loop-slots v.room v.entries max ok)

-- The entries stay names of fewer than 32 characters.
put-AreEntries :
    (want bytes : List ℕ) (a : List Entry) → AreEntries a → AreEntries (put want bytes a)
put-AreEntries want bytes [] ok = ok
put-AreEntries want bytes (e ∷ a) ok = elim (Bool-cases (same e.0 want)) [
  | inl h ↦ rw h ok
  | inr h ↦ rw h (ok.0, put-AreEntries want bytes a ok.1)
]

last-AreEntries : (e : Entry) (a : List Entry) → IsEntry e → AreEntries a → AreEntries (a ++ e ∷ [])
last-AreEntries e [] new ok = (new, tt)
last-AreEntries e (f ∷ a) new ok = (ok.0, last-AreEntries e a new ok.1)

add-AreEntries :
    (n : List ℕ) (room : ℕ) (a : List Entry)
    → IsEntry (n, none)
    → AreEntries a
    → AreEntries (add n room a).1.entries
add-AreEntries n zero a new ok = ok
add-AreEntries n (suc room) a new ok = last-AreEntries (n, none) a new ok

promise-AreEntries :
    (c : Call) (v : Volume) → AreEntries v.entries → IsCall c → AreEntries (promise c v).1.entries
promise-AreEntries (create_file n) v ok str = elim (Bool-cases (leb 32 (length n))) [
  | inl a ↦ rw a ok
  | inr a ↦ elim (Bool-cases (is_null (find n v.entries))) [
    | inl b ↦ rw (a, b) (add-AreEntries n v.room v.entries (str, ltb_of (length n) a) ok)
    | inr b ↦ rw (a, b) ok
  ]
]
  where
    ltb_of : (m : ℕ) → leb 32 m ≡ false → m < 32
    ltb_of m h = ground arith
promise-AreEntries (write_file room n bytes) v ok str =
    elim (Bool-cases (is_null (find n v.entries) || not room)) [
      | inl a ↦ rw a ok
      | inr a ↦ rw a (put-AreEntries n bytes v.entries ok)
    ]
promise-AreEntries (read_file out n max) v ok str = ok
promise-AreEntries (file_size n) v ok str = ok
promise-AreEntries (list_files max) v ok str = ok

replies-promised :
    (calls : List Call) (v : Volume)
    → AreEntries v.entries
    → AreCalls calls
    → replies calls (store v) ≡ promised calls v
replies-promised [] v ok strs = refl
replies-promised (c ∷ calls) v ok strs = rw (call-promise c v ok strs.0) (
    ap (λ rest. (promise c v).0 ∷ rest)
      (replies-promised calls (promise c v).1 (promise-AreEntries c v ok strs.0) strs.1))

-- For every sequence of calls with names that are C strings, and every outcome of the allocations,
-- the replies after `ramfs_init` are those of a list of at most 32 names with contents.
pub ramfs-Refines :
    (calls : List Call) (s : Ramfs)
    → AreCalls calls
    → replies calls (ramfs_init s).1 ≡ promised calls (record { room = 32; entries = [] })
unfolding ramfs_init
ramfs-Refines calls s strs = replies-promised calls (record { room = 32; entries = [] }) tt strs
