-- ===== src/Cl/Inequality.antt =====
-- The inequality proof, that a hidden attribute satisfies a predicate (`_init_ne_proof` and
-- `_finalize_ne_proof` of ursa_Master/libursa/src/cl/prover.rs, `_verify_ne_predicate` of
-- libursa/src/cl/verifier.rs).
pub mod Init
pub mod Finalize
pub mod Verify
pub mod Honest
pub mod Algebra
pub mod Entries
pub mod Complete
