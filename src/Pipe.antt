-- ===== src/Pipe.antt =====
-- The pipe of k-vfs.cc: `pipe_bbuf`, a ring of BBUF_CAP bytes shared by two `pipe_vnode`s.
-- A sleep in `block_until` gives up the lock: `write_entry` and `read_entry` say whether the call
-- sleeps, and `write_after` and `read_after` are the rest of the call, on the state found at wake-up.
pub mod State
pub mod Window
pub mod Write
pub mod Read
pub mod History
mod Tests
