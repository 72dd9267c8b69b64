-- ===== src/Heap/Alloc.antt =====
-- `kmalloc` on the row of blocks.
pub mod Split
pub mod Take
pub mod Loop
pub mod Main
