-- ===== src/Tee.antt =====
-- The program tlpi/c4/tee.c, `tee`: what is read goes to a file and to the standard output.
mod Defs
pub mod Turns
pub mod Theorems
mod Tests
unfoldable pub use Defs.*
