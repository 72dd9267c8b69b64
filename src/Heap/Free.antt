-- ===== src/Heap/Free.antt =====
-- `kfree` on the row of blocks.
pub mod Walk
pub mod Join
pub mod Effects
pub mod Insert
pub mod Main
