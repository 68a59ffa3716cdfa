-- ===== src/Cl/Teq.antt =====
-- `calc_teq` of ursa_Master/libursa/src/cl/helpers.rs: the product that an equality proof is about.
pub mod Laws
pub mod Algebra
use smartchaindb_experiment.Base.{String, List, [], ◌∷◌}
use smartchaindb_experiment.Base.Outcome.{
  UrsaCryptoErrorKind, invalid_structure, UrsaCryptoResult, ok, ok_or, ◌>>=◌,
}
use smartchaindb_experiment.Base.Maps.{Map, lookup}
use smartchaindb_experiment.Bn.{BigNumber, OpenSsl, mod_exp, mod_mul}
use smartchaindb_experiment.Cl.Types.{CredentialPrimaryPublicKey}

module _ (lib : OpenSsl) (pk : CredentialPrimaryPublicKey) where
  open pk use {n, s, r, rctxt}

  -- result * r_k^m_k for the attributes that are not revealed.
  unfoldable pub teq_loop : Map BigNumber → List String → BigNumber → UrsaCryptoResult BigNumber
  teq_loop m_tilde [] result = ok result
  teq_loop m_tilde (k ∷ ks) result = do
    cur_r ← ok_or (lookup k r) invalid_structure
    cur_m ← ok_or (lookup k m_tilde) invalid_structure
    power ← mod_exp lib cur_r cur_m n
    result' ← mod_mul lib power result n
    teq_loop m_tilde ks result'

  unfoldable pub calc_teq :
      BigNumber
      → BigNumber
      → BigNumber
      → Map BigNumber
      → BigNumber
      → List String
      → UrsaCryptoResult BigNumber
  calc_teq a_prime e v m_tilde m2tilde unrevealed_attrs = do
    start ← mod_exp lib a_prime e n
    result ← teq_loop m_tilde unrevealed_attrs start
    s_power ← mod_exp lib s v n
    result_s ← mod_mul lib s_power result n
    rctxt_power ← mod_exp lib rctxt m2tilde n
    mod_mul lib rctxt_power result_s n
