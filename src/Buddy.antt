-- ===== src/Buddy.antt =====
-- The buddy allocator of k-alloc.cc: blocks of pages, split when they are handed out and joined again
-- when they come back. An order counts from MIN_ORDER, at which a block is one page.
pub mod State
pub mod Lists
pub mod Blocks
pub mod Books
pub mod Split
pub mod Search
pub mod Alloc
pub mod Join
pub mod Free
pub mod RoundTrip
pub mod Order
pub mod Bits
pub mod CeilLog
pub mod Init
pub mod InitValid
pub mod InitRoots
pub mod InitRanges
pub mod Sample
mod Tests
