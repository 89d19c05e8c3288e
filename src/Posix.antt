-- ===== src/Posix.antt =====
-- The system calls that the programs make, as parameters, and what the manual pages promise of them.
mod Calls
mod Files
mod Promises
pub mod Opening
pub mod Extended
pub mod Splice
pub mod Simple
unfoldable pub use Calls.*
unfoldable pub use Files.*
pub use Promises.*
