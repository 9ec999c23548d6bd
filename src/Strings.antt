-- ===== src/Strings.antt =====
-- The string routines of lib.cc. To compare, a C string is the list of its bytes before the NUL; to copy,
-- it lies in memory.
pub mod Order
pub mod Copy
pub mod Case
mod Tests
