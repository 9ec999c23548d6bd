-- ===== src/Uds.antt =====
-- The Unix domain socket of k-vfs.cc: `uds`, over which a client hands one open file to a server.
-- `accept`, `connect`, `write` and `read` may sleep. Each is two definitions: what it does up to the
-- sleep, and what it does afterwards, on the state found then, knowing the ticks at the start and at
-- the last test of its condition (both the same where it did not sleep).
pub mod State
pub mod Reach
pub mod Transfer
pub mod Faults
mod Tests
