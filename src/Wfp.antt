-- ===== src/Wfp.antt =====
-- Filters for the Windows Filtering Platform: the plan of a policy, and the backend that carries
-- it out and checks what is enumerated.
pub mod Keys
pub mod Plan
pub mod Inventory
pub mod Backend
pub mod Enforcement
