-- ===== src/Mapping.antt =====
-- The program tlpi/c49/49.1.c, a copy by memory mappings.
mod Defs
pub mod Regions
pub mod Theorems
mod Tests
unfoldable pub use Defs.*
