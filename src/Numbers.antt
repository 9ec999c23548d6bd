-- ===== src/Numbers.antt =====
-- Numbers in text (lib.cc): `strtoul`, `strtol`, and `fill_numbuf`, the digits of `printer::vprintf`.
pub mod Parse
pub mod Print
pub mod RoundTrip
pub mod Loose
mod Tests
