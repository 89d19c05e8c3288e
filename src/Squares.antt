-- ===== src/Squares.antt =====
-- The program tlpi/c6/6.1.c: squares and cubes of an int.
pub mod Defs
pub mod Bounds
mod Tests
