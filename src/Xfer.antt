-- ===== src/Xfer.antt =====
-- The stream socket client and server of tlpi/c57: us_xfr_cl.c and us_xfr_sv.c.
mod Defs
pub mod Transfer
pub mod Sessions
mod Tests
unfoldable pub use Defs.*
