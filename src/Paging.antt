-- ===== src/Paging.antt =====
-- Files seen through pages of memory: tlpi/c49/49.3.c and tlpi/c49/49.4.c.
pub mod Memory
pub mod Defs
pub mod Pages
pub mod Larger
mod Tests
