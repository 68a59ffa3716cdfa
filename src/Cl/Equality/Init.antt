-- ===== src/Cl/Equality/Init.antt =====
-- The first move of the equality proof: `ProofBuilder::_init_eq_proof` of
-- ursa_Master/libursa/src/cl/prover.rs.
use smartchaindb_experiment.Base.{Option, none, some}
use smartchaindb_experiment.Base.Int.{◌-ℤ◌, ◌*ℤ◌}
use smartchaindb_experiment.Base.Outcome.{ok}
use smartchaindb_experiment.Base.Maps.{Map}
use smartchaindb_experiment.Bn.{BigNumber, OpenSsl, mod_exp, mod_mul}
use smartchaindb_experiment.Cl.Types.{
  CredentialSchema, NonCredentialSchema, CredentialPrimaryPublicKey, PrimaryCredentialSignature,
  SubProofRequest, PrimaryEqualInitProof, large_e_start_value, large_mvect, large_vprime,
  large_etilde, large_vtilde,
}
use smartchaindb_experiment.Cl.Rand.{Rand, lift, bn_rand, get_mtilde, ◌>>=◌}
use smartchaindb_experiment.Cl.Teq.{calc_teq}
use smartchaindb_experiment.Cl.Equality.Defs.{unrevealed_by_prover}

-- `unwrap_or`
abbrev pub unwrap_or : Option BigNumber → BigNumber → BigNumber
unwrap_or none x = x
unwrap_or (some y) x = y

-- The mask of m2 is drawn also where one is given.
unfoldable pub init_eq_proof :
    OpenSsl
    → Map BigNumber
    → CredentialPrimaryPublicKey
    → PrimaryCredentialSignature
    → CredentialSchema
    → NonCredentialSchema
    → SubProofRequest
    → Option BigNumber
    → Rand PrimaryEqualInitProof
unfolding bn_rand
init_eq_proof lib common_attributes pk c1 cred_schema non_cred_schema request m2_t = do
  drawn ← bn_rand large_mvect
  let m2_tilde = unwrap_or m2_t drawn
  r ← bn_rand large_vprime
  e_tilde ← bn_rand large_etilde
  v_tilde ← bn_rand large_vtilde
  let unrevealed_attrs = unrevealed_by_prover non_cred_schema cred_schema request
  m_tilde ← get_mtilde unrevealed_attrs common_attributes
  s_power ← lift (mod_exp lib pk.s r pk.n)
  a_prime ← lift (mod_mul lib s_power c1.a pk.n)
  t ← lift (calc_teq lib pk a_prime e_tilde v_tilde m_tilde m2_tilde unrevealed_attrs)
  lift (
      ok (record {
        a_prime = a_prime;
        t = t;
        e_tilde = e_tilde;
        e_prime = c1.e -ℤ large_e_start_value;
        v_tilde = v_tilde;
        v_prime = c1.v -ℤ c1.e *ℤ r;
        m_tilde = m_tilde;
        m2_tilde = m2_tilde;
        m2 = c1.m_2;
      }))
