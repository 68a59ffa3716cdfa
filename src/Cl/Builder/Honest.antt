-- ===== src/Cl/Builder/Honest.antt =====
-- What an honest prover holds for a sub proof, and what adding it to a builder leaves: the lists grow
-- by the first message, which can then be answered.
use smartchaindb_experiment.Base.{ℕ, String, true, none, List, [], ◌∷◌, ◌++◌, map, ◌≡◌, refl}
use smartchaindb_experiment.Base.Int.{ℤ, pos, ◌≤ℤ◌}
use smartchaindb_experiment.Base.Sets.{contains, union}
use smartchaindb_experiment.Base.Outcome.{ok}
use smartchaindb_experiment.Bn.{BigNumber, OpenSsl, Residues}
use smartchaindb_experiment.Cl.Types.{
  CredentialSchema, NonCredentialSchema, CredentialValues, SubProofRequest, PrimaryProof,
}
use smartchaindb_experiment.Cl.Rand.{Draws}
use smartchaindb_experiment.Cl.Credential.{value_at, IsSigned, IsConsistent}
use smartchaindb_experiment.Cl.Teq.Laws.{KeyRep}
use smartchaindb_experiment.Cl.Equality.{unrevealed_by_prover}
use smartchaindb_experiment.Cl.Verifier.Checks.{
  NonRevocation, CredentialPublicKey, VerifiableCredential,
}
use smartchaindb_experiment.Cl.Verifier.Verify.{verify_primary_proof}
use smartchaindb_experiment.Cl.Builder.Primary.{
  PrimaryInitProof, check_credential, finalize_primary_proof, as_c_list, as_tau_list,
}
use smartchaindb_experiment.Cl.Builder.Complete.{
  AllProvable, IsAnswer, verify_primary-finalize-init,
}
use smartchaindb_experiment.Cl.Builder.Session.{
  NonRevocationProver, CredentialSignature, InitProof, ProofBuilder, Call, continue, extend_lists,
  add_non_revocation, add_primary, add_sub_proof_request,
}

module _ (lib : OpenSsl) (types : NonRevocation) (prover : NonRevocationProver types) where
  pub record Holding : Type 0 where
    pub request : SubProofRequest
    pub cred_schema : CredentialSchema
    pub non_cred_schema : NonCredentialSchema
    pub signature : CredentialSignature lib types prover
    pub values : CredentialValues
    pub pub_key : CredentialPublicKey types

  abbrev pub hidden_of : Holding → List String
  hidden_of h = unrevealed_by_prover h.non_cred_schema h.cred_schema h.request

  -- A primary signature on the values, no revocation part, a request that the values satisfy, and
  -- common attributes that stay hidden and have the values of the prover's other credentials.
  pub record IsHonest (shared : List String) (secret : String → BigNumber) (h : Holding)
      : Type 1 where
    pub residues : Residues lib h.pub_key.p_key.n
    pub key : KeyRep lib h.pub_key.p_key residues
    pub checked : check_credential h.values h.request h.cred_schema h.non_cred_schema ≡ ok tt
    pub consistent :
        IsConsistent h.pub_key.p_key h.cred_schema h.non_cred_schema h.values.attrs_values h.request
    pub signed :
        IsSigned lib h.pub_key.p_key residues key h.signature.p_credential h.values.attrs_values
          (union h.cred_schema.attrs h.non_cred_schema.attrs)
    pub provable : AllProvable h.values.attrs_values (hidden_of h) h.request.predicates
    pub no_revocation : h.signature.r_credential ≡ none
    pub hides : (j : String) → contains j shared ≡ true → contains j (hidden_of h) ≡ true
    pub same_secret :
        (j : String) → contains j shared ≡ true → value_at h.values.attrs_values j ≡ secret j

  -- The caller's sequence of calls, left at the first error.
  unfoldable pub add_all :
      ProofBuilder lib types prover → List Holding → Draws → Call lib types prover Draws
  add_all builder [] d = (ok d, builder)
  add_all builder (h ∷ hs) d =
      let added =
        add_sub_proof_request lib types prover builder h.request h.cred_schema h.non_cred_schema
          h.signature h.values h.pub_key none none d in
      continue lib types prover added.0 added.1 (λ d'. add_all added.1 hs d')

  -- What the verifier is told of it.
  unfoldable pub credential_of : Holding → VerifiableCredential types
  credential_of h = record {
    pub_key = h.pub_key;
    sub_proof_request = h.request;
    credential_schema = h.cred_schema;
    non_credential_schema = h.non_cred_schema;
    rev_key_pub = none;
    rev_reg = none;
  }

  unfoldable pub credentials_of : List Holding → List (VerifiableCredential types)
  credentials_of [] = []
  credentials_of (h ∷ hs) = credential_of h ∷ credentials_of hs

  -- The entry of the builder for a first message.
  abbrev pub entry_of : Holding → PrimaryInitProof → InitProof lib types prover
  entry_of h init = record {
    primary_init_proof = init;
    non_revoc_init_proof = none;
    credential_values = h.values;
    sub_proof_request = h.request;
    credential_schema = h.cred_schema;
    non_credential_schema = h.non_cred_schema;
  }

  -- The builder with one first message more.
  abbrev pub extended :
      ProofBuilder lib types prover → Holding → PrimaryInitProof → ProofBuilder lib types prover
  extended builder h init = record {
    common_attributes = builder.common_attributes;
    init_proofs = builder.init_proofs ++ (entry_of h init ∷ []);
    c_list = builder.c_list ++ as_c_list lib init;
    tau_list = builder.tau_list ++ as_tau_list lib init;
  }

  pub add_sub_proof_request-extended :
      (builder : ProofBuilder lib types prover) (shared : List String)
      → (secret : String → BigNumber) (h : Holding) → IsHonest shared secret h
      → (d : Draws) → ((i size : ℕ) → pos 0 ≤ℤ d i size)
      → (init : PrimaryInitProof) × (d' : Draws) × (add_sub_proof_request lib types prover builder
            h.request h.cred_schema h.non_cred_schema h.signature h.values h.pub_key none none d
          ≡ (ok d', extended builder h init))
        × ((i size : ℕ) → pos 0 ≤ℤ d' i size)
        × ((c : ℤ)
            → pos 0 ≤ℤ c
            → (proof : PrimaryProof) × (taus : List BigNumber) × (finalize_primary_proof init c
                  h.cred_schema h.non_cred_schema h.values h.request
                ≡ ok proof)
              × IsAnswer h.values.attrs_values
                  (hidden_of h)
                  h.request
                  builder.common_attributes
                  c
                  proof
              × (verify_primary_proof lib h.pub_key.p_key c proof h.cred_schema h.non_cred_schema
                    h.request
                  ≡ ok taus)
              × (map lib.to_bytes taus ≡ as_tau_list lib init))
  unfolding add_sub_proof_request add_primary add_non_revocation extend_lists
  add_sub_proof_request-extended builder shared secret h honest d nonneg =
      let (init, d', ran, nonneg', answers) =
        verify_primary-finalize-init lib h.pub_key.p_key honest.residues honest.key
          h.signature.p_credential h.cred_schema h.non_cred_schema h.values h.request
          honest.consistent honest.signed honest.provable builder.common_attributes none d nonneg in
      (
        init,
        d',
        rw (honest.checked, honest.no_revocation, add_non_revocation, ran) refl,
        nonneg',
        answers,
      )
