-- ===== src/Cl/Builder.antt =====
-- The primary proof of a sub proof, the equality proof and the inequality proofs together
-- (`_init_primary_proof` and `_finalize_primary_proof` of ursa_Master/libursa/src/cl/prover.rs).
pub mod Primary
pub mod Session
pub mod Checked
pub mod Complete
pub mod Honest
pub mod Answers
pub mod Accepted
pub mod Failed
