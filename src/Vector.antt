-- ===== src/Vector.antt =====
-- The program tlpi/c5/5_7.c: writev and readv, and what its main prints.
pub mod Defs
pub mod Gather
mod Main
mod Values
mod Tests
unfoldable pub use Defs.*
