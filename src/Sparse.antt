-- ===== src/Sparse.antt =====
-- The sparse copy of tlpi/c4/cp.c.
mod Defs
pub mod Segments
pub mod Theorems
mod Tests
unfoldable pub use Defs.*
