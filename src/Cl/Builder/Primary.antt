-- ===== src/Cl/Builder/Primary.antt =====
-- `_check_add_sub_proof_request_params_consistency`, `_init_primary_proof` and
-- `_finalize_primary_proof` of ursa_Master/libursa/src/cl/prover.rs, and the lists of
-- `PrimaryInitProof` in libursa/src/cl/mod.rs.
use smartchaindb_experiment.Base.{String, Option, not, List, [], ◌∷◌, ◌++◌, map}
use smartchaindb_experiment.Base.Maps.{Map, keys}
use smartchaindb_experiment.Base.Sets.{union, subset, same_members}
use smartchaindb_experiment.Base.Outcome.{UrsaCryptoResult, ok, fail_if, invalid_structure}
use smartchaindb_experiment.Base.Outcome
use smartchaindb_experiment.Bn.{BigNumber, Bytes, OpenSsl}
use smartchaindb_experiment.Cl.Types.{
  CredentialSchema, NonCredentialSchema, CredentialValues, CredentialPrimaryPublicKey,
  PrimaryCredentialSignature, SubProofRequest, Predicate, PrimaryEqualInitProof, PrimaryEqualProof,
  PrimaryPredicateInequalityInitProof, PrimaryPredicateInequalityProof, PrimaryProof,
}
use smartchaindb_experiment.Cl.Rand.{Rand, lift, ◌>>=◌}
use smartchaindb_experiment.Cl.Equality.{init_eq_proof, finalize_eq_proof}
use smartchaindb_experiment.Cl.Inequality.Init.{init_ne_proof}
use smartchaindb_experiment.Cl.Inequality.Finalize.{finalize_ne_proof}

pub record PrimaryInitProof : Type 0 where
  pub eq_proof : PrimaryEqualInitProof
  pub ne_proofs : List PrimaryPredicateInequalityInitProof

unfoldable pub names_of : List Predicate → List String
names_of [] = []
names_of (p ∷ ps) = p.attr_name ∷ names_of ps

-- `_check_add_sub_proof_request_params_consistency` of the builder.
unfoldable pub check_credential :
    CredentialValues
    → SubProofRequest
    → CredentialSchema
    → NonCredentialSchema
    → UrsaCryptoResult (Unit {0})
check_credential cred_values request cred_schema non_cred_schema =
    let schema_attrs = union non_cred_schema.attrs cred_schema.attrs in
    let cred_attrs = keys cred_values.attrs_values in
    Outcome.◌>>◌ (fail_if (not (same_members schema_attrs cred_attrs)) invalid_structure) (
      Outcome.◌>>◌ (fail_if (not (subset request.revealed_attrs cred_attrs)) invalid_structure)
        (fail_if (not (subset (names_of request.predicates) cred_attrs)) invalid_structure))

module _ (lib : OpenSsl) where
  unfoldable pub init_ne_loop :
      CredentialPrimaryPublicKey
      → Map BigNumber
      → CredentialValues
      → List Predicate
      → Rand (List PrimaryPredicateInequalityInitProof)
  init_ne_loop pk m_tilde cred_values [] = lift (ok [])
  init_ne_loop pk m_tilde cred_values (predicate ∷ predicates) = do
    ne_proof ← init_ne_proof lib pk m_tilde cred_values predicate
    ne_proofs ← init_ne_loop pk m_tilde cred_values predicates
    lift (ok (ne_proof ∷ ne_proofs))

  -- `_init_primary_proof`
  unfoldable pub init_primary_proof :
      Map BigNumber
      → CredentialPrimaryPublicKey
      → PrimaryCredentialSignature
      → CredentialValues
      → CredentialSchema
      → NonCredentialSchema
      → SubProofRequest
      → Option BigNumber
      → Rand PrimaryInitProof
  init_primary_proof common pk c1 cred_values cred_schema non_cred_schema request m2_t = do
    eq_proof ← init_eq_proof lib common pk c1 cred_schema non_cred_schema request m2_t
    ne_proofs ← init_ne_loop pk eq_proof.m_tilde cred_values request.predicates
    lift (ok (record { eq_proof = eq_proof; ne_proofs = ne_proofs }))

  -- `as_c_list` and `as_tau_list`
  unfoldable pub ne_c_lists : List PrimaryPredicateInequalityInitProof → List Bytes
  ne_c_lists [] = []
  ne_c_lists (ne_proof ∷ ne_proofs) = map lib.to_bytes ne_proof.c_list ++ ne_c_lists ne_proofs

  unfoldable pub as_c_list : PrimaryInitProof → List Bytes
  as_c_list init = lib.to_bytes init.eq_proof.a_prime ∷ ne_c_lists init.ne_proofs

  unfoldable pub ne_tau_lists : List PrimaryPredicateInequalityInitProof → List Bytes
  ne_tau_lists [] = []
  ne_tau_lists (ne_proof ∷ ne_proofs) = map lib.to_bytes ne_proof.tau_list ++ ne_tau_lists ne_proofs

  unfoldable pub as_tau_list : PrimaryInitProof → List Bytes
  as_tau_list init = lib.to_bytes init.eq_proof.t ∷ ne_tau_lists init.ne_proofs

unfoldable pub finalize_ne_loop :
    BigNumber
    → PrimaryEqualProof
    → List PrimaryPredicateInequalityInitProof
    → UrsaCryptoResult (List PrimaryPredicateInequalityProof)
finalize_ne_loop challenge eq_proof [] = ok []
finalize_ne_loop challenge eq_proof (init ∷ inits) =
    Outcome.◌>>=◌ (finalize_ne_proof challenge init eq_proof) (λ ne_proof.
      Outcome.◌>>=◌ (finalize_ne_loop challenge eq_proof inits)
        (λ ne_proofs. ok (ne_proof ∷ ne_proofs)))

-- `_finalize_primary_proof`
unfoldable pub finalize_primary_proof :
    PrimaryInitProof
    → BigNumber
    → CredentialSchema
    → NonCredentialSchema
    → CredentialValues
    → SubProofRequest
    → UrsaCryptoResult PrimaryProof
finalize_primary_proof init challenge cred_schema non_cred_schema cred_values request =
    Outcome.◌>>=◌
      (finalize_eq_proof init.eq_proof challenge cred_schema non_cred_schema cred_values request)
      (λ eq_proof.
        Outcome.◌>>=◌ (finalize_ne_loop challenge eq_proof init.ne_proofs)
          (λ ne_proofs. ok (record { eq_proof = eq_proof; ne_proofs = ne_proofs })))
