-- ===== src/Heap/Tests.antt =====
-- The allocator on a heap of 128 bytes.
use obsidian_kernel.Base.{ℕ, ◌+◌, ◌≡◌, ◌≤◌, ◌%◌, ◌-◌, [], ◌∷◌, some, refl, arith}
use obsidian_kernel.Memory.{load32, store32}
use obsidian_kernel.Memory.Access.{IsBytes, store32-IsBytes}
use obsidian_kernel.Heap.{
  Heap, kmalloc_loop, take_block, split_block, hand_out, set_link, mark_used, HeapStats, heap_init,
  kmalloc, kfree, align_up, count_error, magic_used, magic_free, set_magic, set_size, set_next_off,
  set_used,
}
use obsidian_kernel.Heap.Layout.{free, used, IsLayout}
use obsidian_kernel.Heap.Init.{heap_init-IsLayout}
use obsidian_kernel.Heap.Alloc.Loop.{Search}
use obsidian_kernel.Heap.Alloc.Main.{kmalloc-Search, kmalloc_room}
use obsidian_kernel.Heap.Free.Main.{IsFreed, kfree-IsFreed, kfree-kfree}

abbrev no_stats : HeapStats
no_stats = record {
  total_bytes = 0;
  used_bytes = 0;
  free_bytes = 0;
  high_water = 0;
  alloc_count = 0;
  free_count = 0;
  errors = 0;
}

abbrev blank : Heap
blank = record {
  mem = λ a. 0;
  hbase = 0;
  hsize = 0;
  free_head = 0xFFFFFFFF;
  st = no_stats;
  guard = record { poison_count = 0; violation_count = 0 };
}

blank-IsBytes : IsBytes blank.mem
blank-IsBytes a = omega arith

abbrev fresh : Heap
fresh = heap_init 0x200000 128 blank

heap_init-IsLayout_example :
    IsLayout fresh [] (free (fresh.hsize - 16) ∷ []) × (fresh.st.free_bytes ≡ fresh.hsize - 16)
heap_init-IsLayout_example =
    heap_init-IsLayout 0x200000 128 blank blank-IsBytes (omega arith) (omega arith) (omega arith)
      (omega arith)

fresh-IsLayout : IsLayout fresh [] (free 112 ∷ [])
unfolding heap_init align_up
fresh-IsLayout = heap_init-IsLayout_example.0

kmalloc-Search_example : Search fresh (align_up 20) [] (free 112 ∷ []) (kmalloc 20 fresh)
kmalloc-Search_example = kmalloc-Search 20 fresh (free 112 ∷ []) fresh-IsLayout (omega arith)

-- What is left after 20 bytes, 32 with the rounding.
abbrev served : Heap
served = (hand_out 0xFFFFFFFF 0 (split_block 0 32 fresh)).1

kmalloc-served : kmalloc 20 fresh ≡ some (0x200010, served)
unfolding kmalloc kmalloc_loop take_block split_block hand_out set_link mark_used heap_init align_up
    load32 store32
kmalloc-served = refl

kmalloc_room_example :
    (fresh.hbase + 16 ≤ 0x200010)
    × (0x200010 + 20 ≤ fresh.hbase + fresh.hsize)
    × (0x200010 % 16 ≡ 0)
kmalloc_room_example =
    kmalloc_room 20 fresh served (free 112 ∷ []) 0x200010 fresh-IsLayout (omega arith) (omega arith)
      kmalloc-served (omega arith)

-- A block of 32 bytes in use, and a free one of 64.
abbrev busy : Heap
busy = record blank {
  mem = set_used 0x200030 0 (
      set_next_off 0x200030 0xFFFFFFFF (
        set_size 0x200030 64 (
          set_magic 0x200030 magic_free (
            set_used 0x200000 1
              (set_size 0x200000 32 (set_magic 0x200000 magic_used blank.mem))))));
  hbase = 0x200000;
  hsize = 128;
  free_head = 48;
}

busy-IsBytes : IsBytes busy.mem
busy-IsBytes = search (store32-IsBytes, blank-IsBytes) depth 10

abbrev zeros : ℕ → ℕ
zeros i = 0

busy-IsLayout : IsLayout busy [] (used 32 zeros ∷ free 64 ∷ [])
unfolding load32 store32
busy-IsLayout = record {
  before = tt;
  after = ((refl, refl, refl, refl, λ i p. ground arith), ((refl, refl, refl, refl, refl), tt));
  head = refl;
  extent = refl;
  bounded = omega arith;
  aligned = refl;
  present = omega arith;
  bytes = busy-IsBytes;
}

kfree-IsFreed_example :
    (w : Heap) × (kfree (busy.hbase + 0 + 16) busy ≡ some w) × IsFreed busy [] (free 64 ∷ []) 32 w
kfree-IsFreed_example = kfree-IsFreed busy [] (free 64 ∷ []) 32 zeros busy-IsLayout

kfree-kfree_example :
    (w : Heap) × (kfree (busy.hbase + 0 + 16) busy ≡ some w)
    × (kfree (busy.hbase + 0 + 16) w ≡ some (count_error w))
kfree-kfree_example = kfree-kfree busy [] (free 64 ∷ []) 32 zeros busy-IsLayout
