-- ===== src/Fds.antt =====
-- The descriptors of a thread group: the system calls dup2 and close of kernel.cc.
pub mod State
pub mod Counts
pub mod Owing
pub mod Refer
pub mod Dup
pub mod Close
mod Tests
