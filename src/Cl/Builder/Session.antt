-- ===== src/Cl/Builder/Session.antt =====
-- `ProofBuilder` of ursa_Master/libursa/src/cl/prover.rs: `add_common_attribute`,
-- `add_sub_proof_request` and `finalize`. What belongs to the non-revocation proofs is a parameter.
-- A call that returns an error keeps what it has changed of the builder.
use smartchaindb_experiment.Base.{String, Option, none, some, List, [], ◌∷◌, ◌++◌}
use smartchaindb_experiment.Base.Maps.{Map, insert}
use smartchaindb_experiment.Base.Outcome.{UrsaCryptoResult, ok, err, panicked}
use smartchaindb_experiment.Base.Outcome
use smartchaindb_experiment.Bn.{BigNumber, Bytes, OpenSsl, get_hash_as_int}
use smartchaindb_experiment.Cl.Types.{
  CredentialSchema, NonCredentialSchema, CredentialValues, PrimaryCredentialSignature,
  SubProofRequest, large_mvect,
}
use smartchaindb_experiment.Cl.Rand.{Draws, Rand, lift, bn_rand, ◌>>=◌}
use smartchaindb_experiment.Cl.Verifier.Checks.{NonRevocation, CredentialPublicKey, SubProof, Proof}
use smartchaindb_experiment.Cl.Builder.Primary.{
  PrimaryInitProof, check_credential, init_primary_proof, as_c_list, as_tau_list,
  finalize_primary_proof,
}

-- The prover's part of the non-revocation proofs: `_init_non_revocation_proof`, the two lists, the
-- number of the mask of m2 and `_finalize_non_revocation_proof`.
pub record NonRevocationProver (types : NonRevocation) : Type 1 where
  pub NonRevocationCredentialSignature : Type 0
  pub Witness : Type 0
  pub NonRevocInitProof : Type 0
  pub init_non_revocation_proof :
      NonRevocationCredentialSignature
      → types.RevocationRegistry
      → types.CredentialRevocationPublicKey
      → Witness
      → Rand NonRevocInitProof
  pub non_revoc_c_list : NonRevocInitProof → UrsaCryptoResult (List Bytes)
  pub non_revoc_tau_list : NonRevocInitProof → UrsaCryptoResult (List Bytes)
  pub m2_number : NonRevocInitProof → UrsaCryptoResult BigNumber
  pub finalize_non_revocation_proof :
      NonRevocInitProof → BigNumber → UrsaCryptoResult types.NonRevocProof

module _ (lib : OpenSsl) (types : NonRevocation) (prover : NonRevocationProver types) where
  open types use {NonRevocProof, CredentialRevocationPublicKey, RevocationRegistry}
  open prover use {
    NonRevocationCredentialSignature, Witness, NonRevocInitProof, init_non_revocation_proof,
    non_revoc_c_list, non_revoc_tau_list, m2_number, finalize_non_revocation_proof,
  }
  open lib use {to_bytes}

  pub record CredentialSignature : Type 0 where
    pub p_credential : PrimaryCredentialSignature
    pub r_credential : Option NonRevocationCredentialSignature

  pub record InitProof : Type 0 where
    pub primary_init_proof : PrimaryInitProof
    pub non_revoc_init_proof : Option NonRevocInitProof
    pub credential_values : CredentialValues
    pub sub_proof_request : SubProofRequest
    pub credential_schema : CredentialSchema
    pub non_credential_schema : NonCredentialSchema

  pub record ProofBuilder : Type 0 where
    pub common_attributes : Map BigNumber
    pub init_proofs : List InitProof
    pub c_list : List Bytes
    pub tau_list : List Bytes

  -- `Prover::new_proof_builder`
  unfoldable pub new_proof_builder : ProofBuilder
  new_proof_builder = record {
    common_attributes = [];
    init_proofs = [];
    c_list = [];
    tau_list = [];
  }

  unfoldable pub add_common_attribute : ProofBuilder → String → Rand ProofBuilder
  unfolding bn_rand
  add_common_attribute builder attr_name = do
    x ← bn_rand large_mvect
    lift (ok (record builder { common_attributes = insert attr_name x builder.common_attributes }))

  -- The result of a call and the builder after it.
  abbrev pub Call {ℓ} : Type ℓ → Type ℓ
  Call A = UrsaCryptoResult A × ProofBuilder

  -- The rest of a call, unless it was left with an error.
  abbrev pub continue {ℓ κ} :
      {A : Type ℓ} {B : Type κ} → UrsaCryptoResult A → ProofBuilder → (A → Call B) → Call B
  continue (ok a) builder rest = rest a
  continue (err kind) builder rest = (err kind, builder)
  continue panicked builder rest = (panicked, builder)

  -- `self.c_list.extend_from_slice(c); self.tau_list.extend_from_slice(tau)`, where the second list
  -- may not be there.
  unfoldable pub extend_lists :
      ProofBuilder → UrsaCryptoResult (List Bytes) → UrsaCryptoResult (List Bytes) → Call (Unit {0})
  extend_lists builder c tau = continue c builder λ c_list.
      let extended = record builder { c_list = builder.c_list ++ c_list } in
      continue tau extended
        λ tau_list. (ok tt, record extended { tau_list = builder.tau_list ++ tau_list })

  -- The first message of a non-revocation proof, and the mask of m2 that it has.
  unfoldable pub add_non_revocation :
      ProofBuilder
      → Option NonRevocationCredentialSignature
      → Option RevocationRegistry
      → Option CredentialRevocationPublicKey
      → Option Witness
      → Draws
      → Call ((Option NonRevocInitProof × Option BigNumber) × Draws)
  add_non_revocation builder (some r_cred) (some r_reg) (some r_pub_key) (some witness) d =
      continue (init_non_revocation_proof r_cred r_reg r_pub_key witness d) builder λ run.
        let proof = run.0 in
        let extended = extend_lists builder (non_revoc_c_list proof) (non_revoc_tau_list proof) in
        continue extended.0 extended.1 λ _.
          continue (m2_number proof) extended.1
            λ m2_tilde. (ok ((some proof, some m2_tilde), run.1), extended.1)
  add_non_revocation builder _ _ _ _ d = (ok ((none, none), d), builder)

  -- The primary proof's first message, its lists, and the entry of the sub proof. The masks of the
  -- common attributes are those of the builder.
  unfoldable pub add_primary :
      ProofBuilder
      → SubProofRequest
      → CredentialSchema
      → NonCredentialSchema
      → CredentialSignature
      → CredentialValues
      → CredentialPublicKey types
      → (Option NonRevocInitProof × Option BigNumber) × Draws
      → Call Draws
  add_primary builder request cred_schema non_cred_schema signature values pub_key (non_revoc, d) =
      continue
        (init_primary_proof lib builder.common_attributes pub_key.p_key signature.p_credential
          values cred_schema non_cred_schema request non_revoc.1 d)
        builder
        λ run.
          let extended =
            extend_lists builder (ok (as_c_list lib run.0)) (ok (as_tau_list lib run.0)) in
          continue extended.0 extended.1 λ _. (
            ok run.1,
            record extended.1 {
              init_proofs =
                  builder.init_proofs
                  ++ (record {
                    primary_init_proof = run.0;
                    non_revoc_init_proof = non_revoc.0;
                    credential_values = values;
                    sub_proof_request = request;
                    credential_schema = cred_schema;
                    non_credential_schema = non_cred_schema;
                  }
                      ∷ []);
            },
          )

  unfoldable pub add_sub_proof_request :
      ProofBuilder
      → SubProofRequest
      → CredentialSchema
      → NonCredentialSchema
      → CredentialSignature
      → CredentialValues
      → CredentialPublicKey types
      → Option RevocationRegistry
      → Option Witness
      → Draws
      → Call Draws
  add_sub_proof_request builder request cred_schema non_cred_schema signature values pub_key rev_reg
        witness d =
      continue (check_credential values request cred_schema non_cred_schema) builder λ _.
        let first =
          add_non_revocation builder signature.r_credential rev_reg pub_key.r_key witness d in
        continue first.0 first.1
          (add_primary first.1 request cred_schema non_cred_schema signature values pub_key)

  unfoldable pub finalize_non_revocation :
      Option NonRevocInitProof → BigNumber → UrsaCryptoResult (Option NonRevocProof)
  finalize_non_revocation none challenge = ok none
  finalize_non_revocation (some init) challenge =
      Outcome.◌>>=◌ (finalize_non_revocation_proof init challenge) (λ proof. ok (some proof))

  -- The loop over the first messages.
  unfoldable pub finalize_loop :
      BigNumber → List InitProof → UrsaCryptoResult (List (SubProof types))
  finalize_loop challenge [] = ok []
  finalize_loop challenge (init ∷ inits) =
      Outcome.◌>>=◌ (finalize_non_revocation init.non_revoc_init_proof challenge)
        (λ non_revoc_proof.
          Outcome.◌>>=◌
            (finalize_primary_proof init.primary_init_proof challenge init.credential_schema
              init.non_credential_schema init.credential_values init.sub_proof_request)
            (λ primary_proof. Outcome.◌>>=◌ (finalize_loop challenge inits) (λ proofs. ok (
              record { primary_proof = primary_proof; non_revoc_proof = non_revoc_proof }
              ∷ proofs))))

  unfoldable pub finalize : ProofBuilder → BigNumber → UrsaCryptoResult (Proof types)
  finalize builder nonce =
      Outcome.◌>>=◌
        (get_hash_as_int lib (builder.tau_list ++ builder.c_list ++ (to_bytes nonce ∷ [])))
        (λ challenge. Outcome.◌>>=◌ (finalize_loop challenge builder.init_proofs) (λ proofs.
          ok (record {
            proofs = proofs;
            aggregated_proof = record { c_hash = challenge; c_list = builder.c_list };
          })))
