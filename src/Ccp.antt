-- ===== src/Ccp.antt =====
-- The theorems on tlpi/c4/ccp.c, whose definitions stand with those of 13.1.c in Copy/Defs.
pub mod Chunks
pub mod Theorems
mod Tests
