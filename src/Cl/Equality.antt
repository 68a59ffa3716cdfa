-- ===== src/Cl/Equality.antt =====
-- The equality proof of a credential: that the prover holds a signature on the attributes, some of
-- which it reveals (ursa_Master/libursa/src/cl/prover.rs and verifier.rs).
mod Defs
mod Init
mod Unrevealed
mod Loops
mod Messages
mod Complete
unfoldable pub use Defs.*
unfoldable pub use Init.*
pub use Complete.*
