-- ===== src/Tests.antt =====
-- Runs of the models on small inputs.
mod Disk
mod Enforcement
mod Socks
mod Dispatch
mod Package
mod Filters
mod Datagrams
mod RecoveryFile
mod Host
mod Witnesses
mod Progress
