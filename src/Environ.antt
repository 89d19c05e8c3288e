-- ===== src/Environ.antt =====
-- The functions of tlpi/c6/6.3.c on the list of environment variables.
mod Defs
pub mod Entries
pub mod Theorems
pub mod Variables
pub mod Words
pub mod Demo
pub mod Run
mod Tests
unfoldable pub use Defs.*
