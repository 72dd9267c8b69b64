-- ===== src/Lib.antt =====
-- Obsidian kernel: a model of the kernel's hardware-independent code, and what holds of it.
--
-- Every function of C becomes a function that takes the state it reads and returns the state it
-- leaves. Numbers are natural numbers, with the wrap of each fixed width written out.
--
-- The parts. The heap serves every part that allocates, and calls the memory routines and the guard
-- hooks. The frame managers hand out the pages under it. File systems reach disks through the block
-- device layer, which calls the drivers. The keyboard's interrupt handler fills a ring that readers
-- drain.
--
-- Base.antt and its children: C comparisons, fixed-width words, the laws of `|` and `&` and of
-- single bits, integers, arrays as lists.
-- Memory.antt: physical memory as bytes at addresses, little-endian 32-bit accesses, and `memset`,
-- `memcpy` and `memmove` of lib/string.c with their byte and word loops.
-- Str.antt: the string functions of lib/string.c, on the characters before the NUL. `k_itoa64` has
-- 64 rounds of fuel: each round halves the value at least, and the value has 64 bits. `k_atoi` is
-- undefined where a signed `int` overflows.
-- Udivmod.antt: `__udivmoddi4` of lib/udivmod64.c.
-- Heap.antt: the allocator of mm/heap_c.c over Memory, with the hooks of security/memguard.c. Headers
-- stand in memory beside the payload. Heap/Layout reads memory as a row of blocks, Heap/Link is
-- the write of a list link, Heap/Alloc and Heap/Free are `kmalloc` and `kfree` on the row. Both
-- loops take `hsize / 16 + 1` rounds of fuel: each round visits a further block, and a block
-- takes 16 bytes at least, so on a laid-out heap the fuel does not run out.
-- Pmm.antt: the frame managers of arch/x86_64/pmm.c and arch/x86/pmm.c, at a word width that is 64
-- or 32. The reading of the boot information in `pmm_init` is not modelled.
-- Cmdline.antt: parsing, flags and values of init/cmdline.c, over Str. The loop takes a round of fuel for each
-- character of the line and one more: a round consumes a character.
-- Blkdev.antt: drivers/block/blkdev.c; the drivers' entry points are parameters.
-- Keyboard.antt: drivers/input/keyboard.c; the bytes at the controller's ports are inputs.
-- Net.antt: net/stack.c. Net is the state: the addresses, the one ARP entry, the TCP connection, and
-- the card. The card of drivers/net/e1000.c is an interface (Nic). A run ends with the state, in a
-- write past a buffer, or out of fuel. `net_poll` calls the handlers and the handlers call it, so the
-- handlers take it as a function, and `net_poll` has the frames it may take as fuel.
-- Ext4.antt: the volume core of fs/ext4_core.c over the block device layer, an interface (Disk). Ext4
-- is `struct ext4_fs` with the two scratch blocks; on-disk structures are bytes. Ext4/Csum is
-- fs/ext4_csum.c; Ext4/Group, Inode, Map and Alloc are the descriptors, the inodes, the mapping
-- of a file's blocks, and the bitmaps. The loops over groups, bits, entries and levels count down.
-- Over them stand fs/ext4_fsops.c in Ext4/Extents (the runs of a file and the tree that is built
-- of them), Ext4/Truncate and Ext4/Dir; fs/ext4_journal.c in Ext4/Journal; and fs/ext4_mount.c in
-- Ext4/Path, Ext4/Files and Ext4/Mount. Ext4/Io is the monad of steps that fail and keep the state.
-- Which allocations succeed is an argument `room`, the clock an argument `now`, the first block
-- device an argument `first`. A walk over the entries of a directory block has
-- `block_size / 4 + 1` rounds, since an entry takes four bytes at least; a path has a round
-- for each character and one more; the second pass of the journal has a round for each block.
-- Ramfs.antt: fs/ramfs.c, over Str. Ramfs/Promise is what its calls promise, Ramfs/Volume the array of
-- files as a list of names with contents.
-- Rsdp.antt: drivers/acpi/rsdp.c, over Str; memory is a byte at each address, and a scan has a round for
-- each 16 bytes of its area and one more.
-- Printk.antt: the output buffer and the number formatting of lib/printk.c. Printk/Format is `kvsnprintf`
-- with `long` of 64 bits; its loop has a round of fuel for each character of the format, and what is
-- undefined in C is a result of its own. Printk/Format/Pieces spells formats and their texts.
-- Timekeeping.antt: init/time.c; a wake-up of `cpu_halt` has seen a number of timer ticks.
--
-- Not modelled: assembly, port and register access, the processor tables, and the boot loader's
-- structures, which are hardware; the Rust backend of the heap; the drivers of disks, cards, buses and
-- consoles, and the boot flow that calls the parts in order.
pub mod Base
pub mod Heap
pub mod Keyboard
pub mod Memory
pub mod Timekeeping
pub mod Udivmod
pub mod Pmm
pub mod Str
pub mod Blkdev
pub mod Printk
pub mod Cmdline
pub mod Net
pub mod Ext4
pub mod Ramfs
pub mod Rsdp
