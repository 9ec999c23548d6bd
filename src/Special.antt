-- ===== src/Special.antt =====
-- The special files of k-vfs.cc, `special_vnode`, and the random numbers of lib.cc that one of them reads.
pub mod Random
pub mod State
pub mod Reads
mod Tests
