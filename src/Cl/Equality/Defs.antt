-- ===== src/Cl/Equality/Defs.antt =====
-- The equality proof: `ProofBuilder::_finalize_eq_proof` of
-- ursa_Master/libursa/src/cl/prover.rs, `ProofVerifier::_verify_equality` of
-- ursa_Master/libursa/src/cl/verifier.rs.
use smartchaindb_experiment.Base.{String, List, [], ◌∷◌}
use smartchaindb_experiment.Base.Int.{◌+ℤ◌, ◌*ℤ◌}
use smartchaindb_experiment.Base.Outcome.{
  invalid_structure, proof_rejected, UrsaCryptoResult, ok, ok_or, ◌>>=◌,
}
use smartchaindb_experiment.Base.Maps.{Map, lookup, insert}
use smartchaindb_experiment.Base.Sets.{union, difference}
use smartchaindb_experiment.Bn.{BigNumber, OpenSsl, mod_exp, mod_mul, mod_div, inverse}
use smartchaindb_experiment.Cl.Types.{
  CredentialSchema, NonCredentialSchema, CredentialValue, CredentialValues, value,
  CredentialPrimaryPublicKey, SubProofRequest, PrimaryEqualInitProof, PrimaryEqualProof,
  large_e_start_value,
}
use smartchaindb_experiment.Cl.Teq.{calc_teq}

-- The union of the two schemas less the attributes that are revealed, as the prover writes it.
unfoldable pub unrevealed_by_prover :
    NonCredentialSchema → CredentialSchema → SubProofRequest → List String
unrevealed_by_prover non_cred_schema cred_schema request =
    difference (union non_cred_schema.attrs cred_schema.attrs) request.revealed_attrs

-- The same set as the verifier writes it.
unfoldable pub unrevealed_by_verifier :
    NonCredentialSchema → CredentialSchema → SubProofRequest → List String
unrevealed_by_verifier non_cred_schema cred_schema request =
    difference (union cred_schema.attrs non_cred_schema.attrs) request.revealed_attrs

-- The map m_hat of `_finalize_eq_proof`: challenge * value + mask for each attribute.
unfoldable pub m_hat_loop :
    BigNumber
    → Map BigNumber
    → Map CredentialValue
    → List String
    → Map BigNumber
    → UrsaCryptoResult (Map BigNumber)
m_hat_loop challenge m_tilde values [] m_hat = ok m_hat
m_hat_loop challenge m_tilde values (k ∷ ks) m_hat = do
  cur_mtilde ← ok_or (lookup k m_tilde) invalid_structure
  cur_val ← ok_or (lookup k values) invalid_structure
  m_hat_loop challenge m_tilde values ks (insert k (challenge *ℤ value cur_val +ℤ cur_mtilde) m_hat)

-- The map of the values of the revealed attributes.
unfoldable pub revealed_loop :
    Map CredentialValue → List String → Map BigNumber → UrsaCryptoResult (Map BigNumber)
revealed_loop values [] revealed = ok revealed
revealed_loop values (k ∷ ks) revealed = do
  cur_val ← ok_or (lookup k values) invalid_structure
  revealed_loop values ks (insert k (value cur_val) revealed)

unfoldable pub finalize_eq_proof :
    PrimaryEqualInitProof
    → BigNumber
    → CredentialSchema
    → NonCredentialSchema
    → CredentialValues
    → SubProofRequest
    → UrsaCryptoResult PrimaryEqualProof
finalize_eq_proof init challenge cred_schema non_cred_schema cred_values request = do
  m_hat ←
      m_hat_loop challenge init.m_tilde cred_values.attrs_values
        (unrevealed_by_prover non_cred_schema cred_schema request) []
  revealed ← revealed_loop cred_values.attrs_values request.revealed_attrs []
  ok (record {
    revealed_attrs = revealed;
    a_prime = init.a_prime;
    e = challenge *ℤ init.e_prime +ℤ init.e_tilde;
    v = challenge *ℤ init.v_prime +ℤ init.v_tilde;
    m = m_hat;
    m2 = challenge *ℤ init.m2 +ℤ init.m2_tilde;
  })

module _ (lib : OpenSsl) where
  -- rar times r_attr^value for the revealed attributes.
  unfoldable pub rar_loop :
      CredentialPrimaryPublicKey → Map BigNumber → BigNumber → UrsaCryptoResult BigNumber
  rar_loop pk [] rar = ok rar
  rar_loop pk ((attr, encoded_value) ∷ revealed) rar = do
    cur_r ← ok_or (lookup attr pk.r) proof_rejected
    power ← mod_exp lib cur_r encoded_value pk.n
    rar' ← mod_mul lib power rar pk.n
    rar_loop pk revealed rar'

  unfoldable pub verify_equality :
      CredentialPrimaryPublicKey
      → PrimaryEqualProof
      → BigNumber
      → CredentialSchema
      → NonCredentialSchema
      → SubProofRequest
      → UrsaCryptoResult (List BigNumber)
  verify_equality pk proof c_hash cred_schema non_cred_schema request = do
    t1 ←
        calc_teq lib pk proof.a_prime proof.e proof.v proof.m proof.m2
          (unrevealed_by_verifier non_cred_schema cred_schema request)
    start ← mod_exp lib proof.a_prime large_e_start_value pk.n
    rar ← rar_loop pk proof.revealed_attrs start
    quotient ← mod_div lib pk.z rar pk.n
    inverted ← inverse lib quotient pk.n
    t2 ← mod_exp lib inverted c_hash pk.n
    t ← mod_mul lib t1 t2 pk.n
    ok (t ∷ [])
