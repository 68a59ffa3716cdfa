-- ===== src/Cl/Builder/Failed.antt =====
-- What `ProofBuilder::add_sub_proof_request` leaves behind when it returns an error.
use mathlib.Core.Path.{subst}
use smartchaindb_experiment.Base.{
  Option, none, some, Option-cases, inl, inr, ◌⊎◌, List, ◌≡◌, refl, sym, ap, ◌∙◌,
}
use smartchaindb_experiment.Base.Outcome.{UrsaCryptoResult, ok, err, panicked}
use smartchaindb_experiment.Bn.{BigNumber, Bytes, OpenSsl}
use smartchaindb_experiment.Cl.Types.{
  CredentialSchema, NonCredentialSchema, CredentialValues, SubProofRequest,
}
use smartchaindb_experiment.Cl.Rand.{Draws}
use smartchaindb_experiment.Cl.Verifier.Checks.{NonRevocation, CredentialPublicKey}
use smartchaindb_experiment.Cl.Builder.Primary.{check_credential, init_primary_proof}
use smartchaindb_experiment.Cl.Builder.Session.{
  NonRevocationProver, CredentialSignature, ProofBuilder, Call, continue, extend_lists,
  add_non_revocation, add_primary, add_sub_proof_request,
}

-- A call that was left with an error or a panic.
abbrev pub IsFailed {ℓ} : {A : Type ℓ} → UrsaCryptoResult A → Type 0
IsFailed (ok a) = ⊥
IsFailed (err kind) = Unit
IsFailed panicked = Unit

module _ (lib : OpenSsl) (types : NonRevocation) (prover : NonRevocationProver types) where
  open types use {CredentialRevocationPublicKey, RevocationRegistry}
  open prover use {
    NonRevocationCredentialSignature, Witness, NonRevocInitProof, init_non_revocation_proof,
    non_revoc_c_list, non_revoc_tau_list, m2_number,
  }

  -- The sub proofs and the common attributes are those of before.
  pub record IsKept (before after : ProofBuilder lib types prover) : Type 0 where
    pub same_common : after.common_attributes ≡ before.common_attributes
    pub same_init_proofs : after.init_proofs ≡ before.init_proofs

  kept : (builder : ProofBuilder lib types prover) → IsKept builder builder
  kept builder = record { same_common = refl; same_init_proofs = refl }

  -- A property of the builder at the error of a step or of what comes after it.
  continue-IsFailed {ℓ κ} :
      {A : Type ℓ} {B : Type κ} (P : ProofBuilder lib types prover → Type 0)
      → (result : UrsaCryptoResult A) (builder : ProofBuilder lib types prover)
      → (rest : A → Call lib types prover B) → P builder
      → ((a : A) → IsFailed (rest a).0 → P (rest a).1)
      → IsFailed (continue lib types prover result builder rest).0
      → P (continue lib types prover result builder rest).1
  continue-IsFailed P (ok a) builder rest here later failed = later a failed
  continue-IsFailed P (err kind) builder rest here later failed = here
  continue-IsFailed P panicked builder rest here later failed = here

  -- A property of the builder after a call, whatever its result.
  continue-after {ℓ κ} :
      {A : Type ℓ} {B : Type κ} (P : ProofBuilder lib types prover → Type 0)
      → (result : UrsaCryptoResult A) (builder : ProofBuilder lib types prover)
      → (rest : A → Call lib types prover B) → P builder
      → ((a : A) → P (rest a).1)
      → P (continue lib types prover result builder rest).1
  continue-after P (ok a) builder rest here later = later a
  continue-after P (err kind) builder rest here later = here
  continue-after P panicked builder rest here later = here

  extend_lists-IsKept :
      (builder before : ProofBuilder lib types prover) (c tau : UrsaCryptoResult (List Bytes))
      → IsKept before builder
      → IsKept before (extend_lists lib types prover builder c tau).1
  unfolding extend_lists
  extend_lists-IsKept builder before c tau h =
      continue-after (IsKept before) c builder _ h (λ c_list.
        continue-after (IsKept before) tau _ _
          (record { same_common = h.same_common; same_init_proofs = h.same_init_proofs })
          (λ tau_list. record {
            same_common = h.same_common;
            same_init_proofs = h.same_init_proofs;
          }))

  add_non_revocation-IsKept :
      (builder : ProofBuilder lib types prover)
      → (r_cred : Option NonRevocationCredentialSignature)
      → (r_reg : Option RevocationRegistry) (r_key : Option CredentialRevocationPublicKey)
      → (witness : Option Witness) (d : Draws)
      → IsKept builder (add_non_revocation lib types prover builder r_cred r_reg r_key witness d).1
  unfolding add_non_revocation
  add_non_revocation-IsKept builder (some r_cred) (some r_reg) (some r_key) (some witness) d =
      continue-after (IsKept builder) (init_non_revocation_proof r_cred r_reg r_key witness d)
        builder _ (kept builder)
        (λ run.
          let extended =
            extend_lists-IsKept builder builder (non_revoc_c_list run.0) (non_revoc_tau_list run.0)
              (kept builder) in
          continue-after (IsKept builder) _ _ _ extended
            (λ _. continue-after (IsKept builder) (m2_number run.0) _ _ extended (λ _. extended)))
  add_non_revocation-IsKept builder none r_reg r_key witness d = kept builder
  add_non_revocation-IsKept builder (some r_cred) none r_key witness d = kept builder
  add_non_revocation-IsKept builder (some r_cred) (some r_reg) none witness d = kept builder
  add_non_revocation-IsKept builder (some r_cred) (some r_reg) (some r_key) none d = kept builder

  add_non_revocation-none :
      (builder : ProofBuilder lib types prover)
      → (r_reg : Option RevocationRegistry) (r_key : Option CredentialRevocationPublicKey)
      → (witness : Option Witness) (d : Draws)
      → add_non_revocation lib types prover builder none r_reg r_key witness d
        ≡ (ok ((none, none), d), builder)
  unfolding add_non_revocation
  add_non_revocation-none builder r_reg r_key witness d = refl

  module _ (request : SubProofRequest) (cred_schema : CredentialSchema)
      (non_cred_schema : NonCredentialSchema) (signature : CredentialSignature lib types prover)
      (values : CredentialValues) (pub_key : CredentialPublicKey types) where
    -- The primary part changes nothing before it has succeeded.
    add_primary-IsFailed :
        (builder : ProofBuilder lib types prover)
        → (begun : (Option NonRevocInitProof × Option BigNumber) × Draws)
        → IsFailed
            (add_primary lib types prover builder request cred_schema non_cred_schema signature
              values pub_key begun).0
        → (add_primary lib types prover builder request cred_schema non_cred_schema signature values
            pub_key begun).1
          ≡ builder
    unfolding add_primary extend_lists
    add_primary-IsFailed builder (non_revoc, d) failed =
        continue-IsFailed (λ b. b ≡ builder)
          (init_primary_proof lib builder.common_attributes pub_key.p_key signature.p_credential
            values cred_schema non_cred_schema request non_revoc.1 d)
          builder _ refl (λ run h. absurd h) failed

    -- When `add_sub_proof_request` fails, whichever of its steps has failed, the builder has the sub
    -- proofs and the common attributes of before, and it also has the lists of before, unless the
    -- signature has a revocation part.
    pub add_sub_proof_request-IsFailed :
        (builder : ProofBuilder lib types prover) (rev_reg : Option RevocationRegistry)
        → (witness : Option Witness) (d : Draws)
        → IsFailed
            (add_sub_proof_request lib types prover builder request cred_schema non_cred_schema
              signature values pub_key rev_reg witness d).0
        → IsKept builder
            (add_sub_proof_request lib types prover builder request cred_schema non_cred_schema
              signature values pub_key rev_reg witness d).1
          × (((add_sub_proof_request lib types prover builder request cred_schema non_cred_schema
                  signature values pub_key rev_reg witness d).1
                ≡ builder)
              ⊎ ((r_cred : NonRevocationCredentialSignature) × (signature.r_credential
                    ≡ some r_cred)))
    unfolding add_sub_proof_request
    add_sub_proof_request-IsFailed builder rev_reg witness d failed =
        let first =
          add_non_revocation lib types prover builder signature.r_credential rev_reg pub_key.r_key
            witness d in
        let start = check_credential values request cred_schema non_cred_schema in
        let primary =
          add_primary lib types prover first.1 request cred_schema non_cred_schema signature values
            pub_key in
        let first-IsKept =
          add_non_revocation-IsKept builder signature.r_credential rev_reg pub_key.r_key witness
            d in
        (
          continue-IsFailed (IsKept builder) start builder
              (λ _. continue lib types prover first.0 first.1 primary) (kept builder)
              (λ _.
                continue-IsFailed (IsKept builder) first.0 first.1 primary first-IsKept (λ begun h.
                  subst (IsKept builder) (sym (add_primary-IsFailed first.1 begun h)) first-IsKept))
              failed,
          elim (Option-cases signature.r_credential) [
            | inr revocable ↦ inr revocable
            | inl e ↦ inl (
                let unchanged : first.1 ≡ builder =
                  ap
                    (λ r.
                      (add_non_revocation lib types prover builder r rev_reg pub_key.r_key witness
                        d).1)
                    e
                  ∙ ap (λ r. r.1)
                      (add_non_revocation-none builder rev_reg pub_key.r_key witness d) in
                continue-IsFailed (λ b. b ≡ builder) start builder
                  (λ _. continue lib types prover first.0 first.1 primary) refl
                  (λ _.
                    continue-IsFailed (λ b. b ≡ builder) first.0 first.1 primary unchanged
                      (λ begun h. add_primary-IsFailed first.1 begun h ∙ unchanged))
                  failed)
          ],
        )
