-- ===== src/Writes.antt =====
-- The programs that write many times to one file: tlpi/c13/13.2.c and tlpi/c5/5_3.c.
mod Defs
pub mod Append
pub mod Fill
pub mod Mains
pub mod Arguments
mod Tests
unfoldable pub use Defs.*
