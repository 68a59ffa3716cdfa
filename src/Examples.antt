-- ===== src/Examples.antt =====
-- Concrete inputs: modular arithmetic on small numbers for the parameters, and the theorems applied.
mod Zmod
mod Key
mod Exponents
mod IssueClaims
mod GeneratedClaims
mod Points
mod Claims
mod RevocationClaims
mod VerifierClaims
mod BuilderClaims
mod SessionClaims
mod KeyClaims
mod InputClaims
