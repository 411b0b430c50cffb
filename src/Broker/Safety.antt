-- ===== src/Broker/Safety.antt =====
-- The safety invariant of the engine: when it has a marker, and when it may be armed.
mod Invariant
mod Recovery
mod Recover
mod Transitions
mod Prepare
mod Reach
pub use Transitions.{match_current-Post, or_rollback-Post}
pub use Reach.*
pub use Invariant.*
