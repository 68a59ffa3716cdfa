-- ===== src/Bn.antt =====
-- `BigNumber` over the openssl crate (ursa_Master/libursa/src/bn/openssl.rs). A `BigNumber` is the
-- integer that it stands for. The crate's modular operations, its primality test, the byte strings
-- and the hash are parameters (`OpenSsl`); what the wrappers add is modelled here. The laws of the
-- modular operations on the residues that have an inverse are in `Residues`.
mod Defs
mod Laws
unfoldable pub use Defs.*
pub use Laws.*
