-- ===== src/Cl/Revocation.antt =====
-- Revocation: accumulators, their deltas, tails and witnesses (ursa_Master/libursa/src/cl/mod.rs and
-- issuer.rs).
pub mod Delta
pub mod Merge
pub mod Tails
pub mod Collect
pub mod Issue
pub mod Witness
pub mod Sums
pub mod Registry
pub mod Start
pub mod Runs
pub mod Range
pub mod Update
