-- ===== src/Udp.antt =====
-- The UDP data channel (services/strict-broker/src/strict_udp_frame.rs).
pub mod Replay
pub mod Frame
