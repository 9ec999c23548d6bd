-- ===== src/Kalloc.antt =====
-- `kalloc` and `kfree` of k-alloc.cc: the slabs in front, and the buddy allocator behind them.
pub mod State
pub mod Walk
pub mod Allocate
pub mod Release
mod Tests
