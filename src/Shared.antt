-- ===== src/Shared.antt =====
-- The program tlpi/c5/5_5.c: two descriptors of one open file description.
pub mod Defs
pub mod Offsets
mod Tests
unfoldable pub use Defs.*
