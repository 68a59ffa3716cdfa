-- ===== src/Cl/Verifier/Verify.antt =====
-- `add_common_attribute`, `add_sub_proof_request`, `_verify_primary_proof` and `verify` of
-- ursa_Master/libursa/src/cl/verifier.rs.
use smartchaindb_experiment.Base.{
  Bool, true, false, List, [], ◌∷◌, ◌++◌, String, Option, none, some, map,
}
use smartchaindb_experiment.Base.Int.{◌==ℤ◌}
use smartchaindb_experiment.Base.Maps.{Map, keys, lookup, insert}
use smartchaindb_experiment.Base.Outcome.{UrsaCryptoResult, ok, err, panicked, proof_rejected}
use smartchaindb_experiment.Base.Outcome
use smartchaindb_experiment.Bn.{BigNumber, Bytes, OpenSsl, get_hash_as_int}
use smartchaindb_experiment.Cl.Types.{
  CredentialSchema, NonCredentialSchema, CredentialPrimaryPublicKey, SubProofRequest, PrimaryProof,
  PrimaryPredicateInequalityProof,
}
use smartchaindb_experiment.Cl.Equality.{verify_equality}
use smartchaindb_experiment.Cl.Inequality.Verify.{verify_ne_predicate}
use smartchaindb_experiment.Cl.Verifier.State.{Common, Stateful, keep, ◌>>=◌}
use smartchaindb_experiment.Cl.Verifier.Checks.{
  NonRevocation, CredentialPublicKey, VerifiableCredential, SubProof, Proof, check_request,
  check_proof,
}

module _ (lib : OpenSsl) where
  unfoldable pub verify_ne_loop :
      CredentialPrimaryPublicKey
      → BigNumber
      → List PrimaryPredicateInequalityProof
      → List BigNumber
      → UrsaCryptoResult (List BigNumber)
  verify_ne_loop pk c_hash [] t_hat = ok t_hat
  verify_ne_loop pk c_hash (ne_proof ∷ ne_proofs) t_hat =
      Outcome.◌>>=◌ (verify_ne_predicate lib pk ne_proof c_hash)
        (λ tau_list. verify_ne_loop pk c_hash ne_proofs (t_hat ++ tau_list))

  -- `_verify_primary_proof`
  unfoldable pub verify_primary_proof :
      CredentialPrimaryPublicKey
      → BigNumber
      → PrimaryProof
      → CredentialSchema
      → NonCredentialSchema
      → SubProofRequest
      → UrsaCryptoResult (List BigNumber)
  verify_primary_proof pk c_hash proof cred_schema non_cred_schema request =
      Outcome.◌>>=◌
        (verify_equality lib pk proof.eq_proof c_hash cred_schema non_cred_schema request)
        (λ t_hat. verify_ne_loop pk c_hash proof.ne_proofs t_hat)

-- The match on the entry of a common attribute.
unfoldable pub check_entry :
    String → BigNumber → Option (Option BigNumber) → Common → UrsaCryptoResult (Unit {0}) × Common
check_entry attr_name m_hat none common = (ok tt, common)
check_entry attr_name m_hat (some none) common = (ok tt, insert attr_name (some m_hat) common)
check_entry attr_name m_hat (some (some v)) common = elim (v ==ℤ m_hat) [
  | true ↦ (ok tt, common)
  | false ↦ (err proof_rejected, common)
]

-- One common attribute: its number in the sub proof, if there is one, is that of the sub proofs
-- before it.
unfoldable pub check_attribute : String → Option BigNumber → Stateful (Unit {0})
check_attribute attr_name none common = (err proof_rejected, common)
check_attribute attr_name (some m_hat) common =
    check_entry attr_name m_hat (lookup attr_name common) common

unfoldable pub check_common : List String → Map BigNumber → Stateful (Unit {0})
check_common [] m = keep (ok tt)
check_common (attr_name ∷ attr_names) m = do
  _ ← check_attribute attr_name (lookup attr_name m)
  check_common attr_names m

module _ (lib : OpenSsl) (types : NonRevocation) where
  open types use {
    NonRevocProof, CredentialRevocationPublicKey, RevocationRegistry, RevocationKeyPublic,
    verify_non_revocation_proof,
  }
  open lib use {to_bytes}

  pub record ProofVerifier : Type 0 where
    pub credentials : List (VerifiableCredential types)
    pub common_attributes : Common

  -- `Verifier::new_proof_verifier`
  unfoldable pub new_proof_verifier : ProofVerifier
  new_proof_verifier = record { credentials = []; common_attributes = [] }

  unfoldable pub add_common_attribute : ProofVerifier → String → ProofVerifier
  add_common_attribute verifier attr_name = record {
    credentials = verifier.credentials;
    common_attributes = insert attr_name none verifier.common_attributes;
  }

  unfoldable pub add_sub_proof_request :
      ProofVerifier
      → SubProofRequest
      → CredentialSchema
      → NonCredentialSchema
      → CredentialPublicKey types
      → Option RevocationKeyPublic
      → Option RevocationRegistry
      → UrsaCryptoResult ProofVerifier
  add_sub_proof_request verifier request cred_schema non_cred_schema pub_key rev_key_pub rev_reg =
      Outcome.◌>>=◌ (check_request request cred_schema) (λ _. ok (record {
        credentials =
            verifier.credentials
            ++ (record {
              pub_key = pub_key;
              sub_proof_request = request;
              credential_schema = cred_schema;
              non_credential_schema = non_cred_schema;
              rev_key_pub = rev_key_pub;
              rev_reg = rev_reg;
            }
                ∷ []);
        common_attributes = verifier.common_attributes;
      }))

  -- Where the proof and the credential have all that belongs to non-revocation.
  unfoldable pub non_revocation_taus :
      BigNumber
      → Option NonRevocProof
      → Option CredentialRevocationPublicKey
      → Option RevocationRegistry
      → Option RevocationKeyPublic
      → UrsaCryptoResult (List Bytes)
  non_revocation_taus c_hash (some proof) (some pub_key) (some rev_reg) (some rev_key_pub) =
      verify_non_revocation_proof pub_key rev_reg rev_key_pub c_hash proof
  non_revocation_taus c_hash _ _ _ _ = ok []

  -- The loop over the sub proofs.
  unfoldable pub verify_loop :
      BigNumber
      → List (SubProof types)
      → List (VerifiableCredential types)
      → List Bytes
      → Stateful (List Bytes)
  verify_loop c_hash [] credentials tau_list = keep (ok tau_list)
  verify_loop c_hash (proof_item ∷ proofs) [] tau_list = keep panicked
  verify_loop c_hash (proof_item ∷ proofs) (credential ∷ credentials) tau_list = do
    non_revoc ← keep (
        non_revocation_taus c_hash proof_item.non_revoc_proof credential.pub_key.r_key
          credential.rev_reg credential.rev_key_pub)
    _ ← (λ common. check_common (keys common) proof_item.primary_proof.eq_proof.m common)
    t_hat ← keep (
        verify_primary_proof lib credential.pub_key.p_key c_hash proof_item.primary_proof
          credential.credential_schema credential.non_credential_schema
          credential.sub_proof_request)
    verify_loop c_hash proofs credentials (tau_list ++ non_revoc ++ map to_bytes t_hat)

  -- The body of `verify`.
  unfoldable pub verify_steps :
      List (VerifiableCredential types) → Proof types → BigNumber → Stateful Bool
  verify_steps credentials proof nonce = do
    _ ← keep (check_proof types credentials proof)
    tau_list ← verify_loop proof.aggregated_proof.c_hash proof.proofs credentials []
    c_hver ←
        keep
          (get_hash_as_int lib (tau_list ++ proof.aggregated_proof.c_list ++ (to_bytes nonce ∷ [])))
    keep (ok (c_hver ==ℤ proof.aggregated_proof.c_hash))

  -- `verify`: the result and the verifier after the call.
  unfoldable pub verify :
      ProofVerifier → Proof types → BigNumber → UrsaCryptoResult Bool × ProofVerifier
  verify verifier proof nonce =
      let run = verify_steps verifier.credentials proof nonce verifier.common_attributes in
      (run.0, record { credentials = verifier.credentials; common_attributes = run.1 })
