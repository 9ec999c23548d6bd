-- ===== src/Initfs.antt =====
-- `memfile::initfs_lookup` (k-devices.cc): the names of the files in memory.
pub mod State
pub mod Find
pub mod Lookup
mod Tests
