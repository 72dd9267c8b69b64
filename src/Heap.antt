-- ===== src/Heap.antt =====
-- mm/heap_c.c with the counters of mm/heap.h, and security/memguard.c, whose hooks it calls.
-- Headers live in memory beside the payload, and a pointer is a physical address (NULL is 0).
-- `size_t` has 64 bits here; a `u32` keeps its wrap. A loop takes fuel, and `none` says that the
-- fuel ran out.
pub mod Header
pub mod Layout
pub mod Link
pub mod Init
pub mod Alloc
pub mod Free
mod Tests
use obsidian_kernel.Base.{
  ℕ, zero, suc, ◌+◌, ◌-◌, ◌*◌, ◌/◌, ◌%◌, ◌^◌, ◌==◌, ltb, leb, ◌||◌, ◌&&◌, not, Bool, true, false,
  Option, none, some, ◌>>=◌, if◌then◌else◌, u32, bit_and,
}
use obsidian_kernel.Memory.{Memory, load32, store32, memset, memcpy}

abbrev pub hdr_size : ℕ
hdr_size = 16

abbrev pub align : ℕ
align = 16

abbrev pub magic_used : ℕ
magic_used = 0x0B51D1A0

abbrev pub magic_free : ℕ
magic_free = 0xF4EEB10C

abbrev pub end_of_list : ℕ
end_of_list = 0xFFFFFFFF

abbrev pub poison_byte : ℕ
poison_byte = 0xA5

-- `struct block_hdr` at an address: its four fields read, and written.
abbrev pub magic : Memory → ℕ → ℕ
magic m a = load32 m a

abbrev pub size : Memory → ℕ → ℕ
size m a = load32 m (a + 4)

abbrev pub next_off : Memory → ℕ → ℕ
next_off m a = load32 m (a + 8)

abbrev pub is_used : Memory → ℕ → ℕ
is_used m a = load32 m (a + 12)

abbrev pub set_magic : ℕ → ℕ → Memory → Memory
set_magic a v m = store32 m a v

abbrev pub set_size : ℕ → ℕ → Memory → Memory
set_size a v m = store32 m (a + 4) v

abbrev pub set_next_off : ℕ → ℕ → Memory → Memory
set_next_off a v m = store32 m (a + 8) v

abbrev pub set_used : ℕ → ℕ → Memory → Memory
set_used a v m = store32 m (a + 12) v

-- `struct heap_stats`
pub record HeapStats : Type 0 where
  pub total_bytes : ℕ
  pub used_bytes : ℕ
  pub free_bytes : ℕ
  pub high_water : ℕ
  pub alloc_count : ℕ
  pub free_count : ℕ
  pub errors : ℕ

-- The counters of memguard.c.
pub record Guard : Type 0 where
  pub poison_count : ℕ
  pub violation_count : ℕ

pub record Heap : Type 0 where
  pub mem : Memory
  pub hbase : ℕ
  pub hsize : ℕ
  pub free_head : ℕ
  pub st : HeapStats
  pub guard : Guard

pub align_up : ℕ → ℕ
align_up v = bit_and (u32 (v + 15)) 0xFFFFFFF0

-- `memguard_check_allocation`; its result is not used, only what it counts.
pub check_allocation : ℕ → ℕ → Guard → Guard
check_allocation ptr alignment g =
    let bad = record g { violation_count = u32 (g.violation_count + 1) } in
    if ptr == 0
    then g
    else if not (bit_and ptr (alignment - 1) == 0)
    then bad
    else if ltb (u32 ptr) 0x100000
    then bad
    else g

pub heap_init : ℕ → ℕ → Heap → Heap
heap_init base sz h =
    let hbase = align_up base in
    let hsize = align_up sz in
    let first = u32 (hsize + 2 ^ 32 - hdr_size) in
    let m = set_magic hbase magic_free h.mem in
    let m = set_used hbase 0 (set_next_off hbase end_of_list (set_size hbase first m)) in
    record h {
      mem = m;
      hbase = hbase;
      hsize = hsize;
      free_head = 0;
      st = record h.st { total_bytes = first; free_bytes = first };
    }

-- `hdr_at(off)`
abbrev pub hdr_at : Heap → ℕ → ℕ
hdr_at h off = h.hbase + off

-- "Split when the remainder can hold header+payload."
pub split_block : ℕ → ℕ → Heap → Heap
split_block off need h =
    let cur = hdr_at h off in
    let new_off = u32 (off + hdr_size + need) in
    let rest = hdr_at h new_off in
    let m = set_magic rest magic_free h.mem in
    let m = set_size rest (u32 (size m cur + 2 ^ 64 - need - hdr_size)) m in
    let m = set_used rest 0 (set_next_off rest (next_off m cur) m) in
    record h { mem = set_next_off cur new_off (set_size cur need m) }

-- What a list link is stored in: `free_head`, or the `next_off` of the previous free block.
pub set_link : ℕ → ℕ → Heap → Heap
set_link prev_off v h =
    if prev_off == end_of_list
    then record h { free_head = v }
    else record h { mem = set_next_off (hdr_at h prev_off) v h.mem }

pub mark_used : ℕ → Heap → Heap
mark_used off h = record h {
  mem = set_magic (hdr_at h off) magic_used (set_used (hdr_at h off) 1 h.mem);
}

-- The counters after an allocation of `n` bytes.
pub count_alloc : ℕ → HeapStats → HeapStats
count_alloc n st =
    let used = u32 (st.used_bytes + n) in
    record st {
      used_bytes = used;
      free_bytes = u32 (st.free_bytes + 2 ^ 32 - n);
      alloc_count = u32 (st.alloc_count + 1);
      high_water = if ltb st.high_water used then used else st.high_water;
    }

pub count_error : Heap → Heap
count_error h = record h { st = record h.st { errors = u32 (h.st.errors + 1) } }

-- From the unlinking of the block on.
pub hand_out : ℕ → ℕ → Heap → ℕ × Heap
hand_out prev_off cur_off h =
    let h2 = set_link prev_off (next_off h.mem (hdr_at h cur_off)) h in
    let h3 = mark_used cur_off h2 in
    let ptr = h3.hbase + cur_off + hdr_size in
    let n = size h3.mem (hdr_at h3 cur_off) in
    (ptr, record h3 { st = count_alloc n h3.st; guard = check_allocation ptr align h3.guard })

-- The body of the loop of `kmalloc` once a block is large enough.
pub take_block : ℕ → ℕ → ℕ → Heap → ℕ × Heap
take_block prev_off cur_off need h = hand_out prev_off cur_off (
    if leb (need + hdr_size + align) (size h.mem (hdr_at h cur_off))
    then split_block cur_off need h
    else h)

pub kmalloc_loop : ℕ → ℕ → ℕ → ℕ → Heap → Option (ℕ × Heap)
kmalloc_loop zero need prev_off cur_off h = none
kmalloc_loop (suc fuel) need prev_off cur_off h =
    let next = kmalloc_loop fuel need cur_off (next_off h.mem (hdr_at h cur_off)) h in
    if cur_off == end_of_list
    then some (0, count_error h)
    else if leb (need + hdr_size) (size h.mem (hdr_at h cur_off))
    then some (take_block prev_off cur_off need h)
    else next

-- Each round visits one more block, and a block takes sixteen bytes at least.
abbrev pub rounds : Heap → ℕ
rounds h = h.hsize / 16 + 1

pub kmalloc : ℕ → Heap → Option (ℕ × Heap)
kmalloc sz h =
    if sz == 0 || h.hbase == 0
    then some (0, h)
    else kmalloc_loop (rounds h) (align_up sz) end_of_list h.free_head h

pub kzalloc : ℕ → Heap → Option (ℕ × Heap)
kzalloc sz h = do
  (p, h) ← kmalloc sz h
  some (p, if p == 0 then h else record h { mem = memset p 0 sz h.mem })

-- `memguard_poison_free`
pub poison_free : ℕ → ℕ → Heap → Heap
poison_free ptr n h = record h {
  mem = memset ptr poison_byte n h.mem;
  guard = record h.guard { poison_count = u32 (h.guard.poison_count + 1) };
}

pub count_free : ℕ → HeapStats → HeapStats
count_free n st = record st {
  used_bytes = u32 (st.used_bytes + 2 ^ 32 - n);
  free_bytes = u32 (st.free_bytes + n);
  free_count = u32 (st.free_count + 1);
}

pub mark_free : ℕ → Heap → Heap
mark_free off h = record h {
  mem = set_used (hdr_at h off) 0 (set_magic (hdr_at h off) magic_free h.mem);
}

-- `while (walk != END_OF_LIST && walk < off)`: the free blocks on both sides of `off`.
pub kfree_walk : ℕ → ℕ → ℕ → ℕ → Heap → Option (ℕ × ℕ)
kfree_walk zero off prev_off walk h = none
kfree_walk (suc fuel) off prev_off walk h =
    let next = kfree_walk fuel off walk (next_off h.mem (hdr_at h walk)) h in
    if not (walk == end_of_list) && ltb walk off then next else some (prev_off, walk)

-- The merge with the previous block when it touches: the new state, and the offset of the block that
-- now holds the freed bytes.
pub merge_prev : ℕ → ℕ → Heap → ℕ × Heap
merge_prev off prev_off h =
    let prev = hdr_at h prev_off in
    let cur = hdr_at h off in
    if prev_off == end_of_list
    then (off, h)
    else if prev_off + hdr_size + size h.mem prev == off
    then (let m = set_size prev (u32 (size h.mem prev + hdr_size + size h.mem cur)) h.mem in
        (prev_off, record h { mem = set_next_off prev (next_off m cur) m }))
    else (off, h)

-- The link into the list, and that merge.
pub insert_free : ℕ → ℕ → ℕ → Heap → ℕ × Heap
insert_free off prev_off walk h =
    merge_prev off prev_off
      (set_link prev_off off (record h { mem = set_next_off (hdr_at h off) walk h.mem }))

-- The merge with the following block when it touches.
pub merge_next : ℕ → Heap → Heap
merge_next off h =
    let cur = hdr_at h off in
    let nxt = hdr_at h (next_off h.mem cur) in
    if off + hdr_size + size h.mem cur == next_off h.mem cur
      && not (next_off h.mem cur == end_of_list)
    then if magic h.mem nxt == magic_free && is_used h.mem nxt == 0
      then (let m = set_size cur (u32 (size h.mem cur + hdr_size + size h.mem nxt)) h.mem in
          record h { mem = set_next_off cur (next_off m nxt) m })
      else h
    else h

pub kfree : ℕ → Heap → Option Heap
kfree ptr h =
    let off = u32 (ptr + 2 ^ 64 - h.hbase - hdr_size) in
    let cur = hdr_at h off in
    let n = size h.mem cur in
    let h1 = poison_free ptr n h in
    let h2 = mark_free off (record h1 { st = count_free (size h1.mem cur) h1.st }) in
    if ptr == 0
    then some h
    else if leb (2 ^ 31) off || leb h.hsize off
    then some (count_error h)
    else if not (magic h.mem cur == magic_used) || is_used h.mem cur == 0
    then some (count_error h)
    else do
      (prev_off, walk) ← kfree_walk (rounds h2) off end_of_list h2.free_head h2
      let (at_off, h3) = insert_free off prev_off walk h2
      some (merge_next at_off h3)

pub krealloc : ℕ → ℕ → Heap → Option (ℕ × Heap)
krealloc ptr sz h =
    if ptr == 0 then kmalloc sz h else if sz == 0 then (do h ← kfree ptr h; some (0, h)) else do
      (fresh, h) ← kmalloc sz h
      if fresh == 0 then some (0, h) else do
        let old = size h.mem (ptr - hdr_size)
        let h = record h { mem = memcpy fresh ptr (if ltb old sz then old else sz) h.mem }
        h ← kfree ptr h
        some (fresh, h)
