-- ===== src/Base.antt =====
-- The names that the other modules share: those of the libraries, passed on, and those of the
-- children: tests on numbers, lists measured by native numbers, integers, and runs of C programs.
mod Names
mod Tests
mod Lists
mod Process
pub mod Int
pub mod Returns
pub mod Ends
pub mod Text
pub use Names.*
pub use Tests.*
pub use Lists.*
pub use Process.*
