-- ===== src/Broker/Engine.antt =====
-- `BrokerEngine` (services/strict-broker/src/lib.rs). `State` has its record and its calls of the
-- host, `Recovery` the operations that every other one ends in, and the other children the rest.
mod State
mod Status
mod Recovery
mod Transitions
mod Ingress
pub mod Rules
pub use State.{Engine}
unfoldable pub use State.{Act, new}
unfoldable pub use Status.*
unfoldable pub use Recovery.*
unfoldable pub use Transitions.*
unfoldable pub use Ingress.*
