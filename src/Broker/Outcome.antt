-- ===== src/Broker/Outcome.antt =====
-- What each operation of the engine leaves, by how it ended.
mod Commit
mod Blocking
mod Forced
mod Recover
mod Progress
mod Prepare
pub use Commit.*
pub use Blocking.*
pub use Forced.*
pub use Recover.*
pub use Progress.*
pub use Prepare.*
