-- ===== src/Dup.antt =====
-- The program tlpi/c5/5_4.c: dup and dup2 by fcntl, and the functions that call them.
mod Defs
pub mod Table
mod Main
mod Runs
mod Least
mod Tests
unfoldable pub use Defs.*
