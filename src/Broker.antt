-- ===== src/Broker.antt =====
-- The privileged Broker (services/strict-broker/src): its transactional policy engine, the
-- interfaces that the engine is generic over, and the records that it keeps.
pub mod AppIds
pub mod Marker
pub mod Host
pub mod Engine
pub mod Safety
pub mod Outcome
