-- ===== src/Memfile.antt =====
-- The files in memory: `memfile` (k-devices.cc, k-devices.hh) and `memfile_vnode` (k-vfs.cc).
pub mod Capacity
pub mod State
pub mod Contents
pub mod Write
mod Tests
