-- ===== src/Blocks.antt =====
-- The free-block bitmap of the file system (k-chkfs.cc) and the bit search under it (`bitset_view`, lib.hh).
pub mod Bits
pub mod Search
pub mod State
pub mod Extent
pub mod Allocate
mod Tests
