-- ===== src/Cl/Verifier.antt =====
-- `ProofVerifier` of ursa_Master/libursa/src/cl/verifier.rs.
pub mod State
pub mod Checks
pub mod Verify
pub mod Common
pub mod Accepted
pub mod Agreed
