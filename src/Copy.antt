-- ===== src/Copy.antt =====
-- The programs that copy a file: tlpi/c13/13.1.c (`Copy`) and tlpi/c4/ccp.c (`Ccp`).
mod Defs
pub mod Loop
pub mod Theorems
mod Tests
unfoldable pub use Defs.*
