-- ===== src/Seek.antt =====
-- The programs tlpi/c5/5_1.c and tlpi/c5/5_2.c: a write behind a seek, without O_APPEND and with it.
mod Defs
pub mod Theorems
mod Tests
unfoldable pub use Defs.*
