-- ===== src/Signals.antt =====
-- The programs of tlpi/c20: signals that are counted as they arrive, sets of signals, siginterrupt.
mod Defs
pub mod Invariant
mod Shown
pub mod Receiver
pub mod Display
pub mod Interrupt
pub mod Pause
pub mod Dispositions
pub mod Ignored
mod PauseTests
mod Tests
unfoldable pub use Defs.*
