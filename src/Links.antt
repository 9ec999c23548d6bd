-- ===== src/Links.antt =====
-- The intrusive doubly linked list of k-list.hh.
pub mod State
pub mod Chain
pub mod Lists
pub mod Ties
pub mod Ring
pub mod Refine
mod Tests
