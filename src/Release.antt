-- ===== src/Release.antt =====
-- The program tlpi/c7/7.1.c: blocks are allocated, and every so many of them are freed.
mod Defs
pub mod Theorems
mod Tests
unfoldable pub use Defs.*
