-- ===== src/Memory.antt =====
-- The memory routines of lib.cc: memcpy, memmove, memset, memcmp, memchr. Memory is a function from
-- addresses to bytes; pointers do not wrap.
pub mod Copy
pub mod Compare
mod Tests
