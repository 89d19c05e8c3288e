-- ===== src/Tail.antt =====
-- The program tlpi/c13/13.5.c, `tail`: the last lines of a file, found from its end in chunks of 10 bytes.
mod Defs
pub mod Stdio
pub mod Scan
pub mod Places
pub mod Search
pub mod Theorems
mod Tests
unfoldable pub use Defs.*
