-- ===== src/MemRange.antt =====
-- `memrangeset` of k-memrange.hh: the types of ranges of addresses, in a sorted array.
pub mod State
pub mod Cover
pub mod Steps
pub mod Assign
pub mod Located
pub mod Set
mod Tests
