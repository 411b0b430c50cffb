-- ===== src/Contract.antt =====
-- The contract between Agent and Broker (services/strict-contract/src/lib.rs): the policy that is
-- enforced, the ingresses that carry it, the frames that cross the pipe and the rules of all
-- of them. A `String` is a text; a set of capabilities is its membership test.
pub mod Capability
pub mod Policy
pub mod Codec
pub mod Fields
pub mod Canonical
pub mod Validate
pub mod Intent
pub mod Migration
pub mod Ingress
pub mod Frames
