-- ===== src/Cl.antt =====
-- CL signatures and the proofs about them (ursa_Master/libursa/src/cl).
pub mod Types
pub mod Rand
pub mod Range
pub mod Keys
pub mod Blind
pub mod Sign
pub mod Issuance
pub mod Teq
pub mod Predicate
pub mod Tne
pub mod Inequality
pub mod Revocation
pub mod Verifier
pub mod Builder
pub mod FourSquares
pub mod Credential
pub mod Inputs
pub mod Equality
