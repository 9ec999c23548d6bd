-- ===== src/RwLock.antt =====
-- The read/write lock of k-chkfs.cc: `rwlock`, and the lock of `chkfs::inode`, which it is copied from.
pub mod State
pub mod Counts
pub mod Exclusion
pub mod Progress
mod Tests
