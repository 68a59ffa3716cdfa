-- ===== src/Cl/Verifier/Checks.antt =====
-- The verifier's data and its checks of the parameters:
-- `_check_add_sub_proof_request_params_consistency` and `_check_verify_params_consistency` of
-- ursa_Master/libursa/src/cl/verifier.rs. What belongs to the non-revocation proofs is a parameter.
use smartchaindb_experiment.Base.{
  ℕ, suc, ◌==◌, Bool, true, false, ◌&&◌, not, List, [], ◌∷◌, String, Option,
}
use text.Mathlib.Text
use smartchaindb_experiment.Base.Int.{◌==ℤ◌}
use smartchaindb_experiment.Base.Sets.{subset, same_members}
use smartchaindb_experiment.Base.Maps.{keys}
use smartchaindb_experiment.Base.Outcome.{
  UrsaCryptoResult, ok, fail_if, invalid_structure, proof_rejected, ◌>>=◌,
}
use smartchaindb_experiment.Bn.{BigNumber, Bytes}
use smartchaindb_experiment.Cl.Types.{
  CredentialSchema, NonCredentialSchema, CredentialPrimaryPublicKey, SubProofRequest, Predicate,
  PredicateType, PrimaryProof, AggregatedProof, PrimaryPredicateInequalityProof,
}

-- The types of the non-revocation proofs, and the check of one, which returns the bytes to hash.
pub record NonRevocation : Type 1 where
  pub NonRevocProof : Type 0
  pub CredentialRevocationPublicKey : Type 0
  pub RevocationRegistry : Type 0
  pub RevocationKeyPublic : Type 0
  pub verify_non_revocation_proof :
      CredentialRevocationPublicKey
      → RevocationRegistry
      → RevocationKeyPublic
      → BigNumber
      → NonRevocProof
      → UrsaCryptoResult (List Bytes)

-- `==` of two conditions.
unfoldable pub same_type : PredicateType → PredicateType → Bool
same_type PredicateType.ge PredicateType.ge = true
same_type PredicateType.le PredicateType.le = true
same_type PredicateType.gt PredicateType.gt = true
same_type PredicateType.lt PredicateType.lt = true
same_type _ _ = false

unfoldable pub same_predicate : Predicate → Predicate → Bool
same_predicate p q =
    Text.◌==◌ p.attr_name q.attr_name && same_type p.p_type q.p_type && p.bound ==ℤ q.bound

unfoldable pub has_predicate : Predicate → List Predicate → Bool
has_predicate p [] = false
has_predicate p (q ∷ qs) = elim (same_predicate q p) [ true ↦ true | false ↦ has_predicate p qs ]

unfoldable pub all_in : List Predicate → List Predicate → Bool
all_in [] qs = true
all_in (p ∷ ps) qs = has_predicate p qs && all_in ps qs

-- `==` of two sets of predicates.
unfoldable pub same_predicates : List Predicate → List Predicate → Bool
same_predicates ps qs = all_in ps qs && all_in qs ps

unfoldable pub predicates_attrs : List Predicate → List String
predicates_attrs [] = []
predicates_attrs (p ∷ ps) = p.attr_name ∷ predicates_attrs ps

-- `_check_add_sub_proof_request_params_consistency`
unfoldable pub check_request : SubProofRequest → CredentialSchema → UrsaCryptoResult (Unit {0})
check_request request cred_schema = do
  _ ← fail_if (not (subset request.revealed_attrs cred_schema.attrs)) invalid_structure
  fail_if (not (subset (predicates_attrs request.predicates) cred_schema.attrs)) invalid_structure

unfoldable pub proof_predicates : List PrimaryPredicateInequalityProof → List Predicate
proof_predicates [] = []
proof_predicates (ne_proof ∷ ne_proofs) = ne_proof.predicate ∷ proof_predicates ne_proofs

abbrev pub length {ℓ} : {A : Type ℓ} → List A → ℕ
length [] = 0
length (x ∷ xs) = suc (length xs)

module _ (types : NonRevocation) where
  open types use {
    NonRevocProof, CredentialRevocationPublicKey, RevocationRegistry, RevocationKeyPublic,
  }

  pub record CredentialPublicKey : Type 0 where
    pub p_key : CredentialPrimaryPublicKey
    pub r_key : Option CredentialRevocationPublicKey

  pub record VerifiableCredential : Type 0 where
    pub pub_key : CredentialPublicKey
    pub sub_proof_request : SubProofRequest
    pub credential_schema : CredentialSchema
    pub non_credential_schema : NonCredentialSchema
    pub rev_key_pub : Option RevocationKeyPublic
    pub rev_reg : Option RevocationRegistry

  pub record SubProof : Type 0 where
    pub primary_proof : PrimaryProof
    pub non_revoc_proof : Option NonRevocProof

  pub record Proof : Type 0 where
    pub proofs : List SubProof
    pub aggregated_proof : AggregatedProof

  -- The loop over the pairs of sub proofs and credentials.
  unfoldable pub check_pairs :
      List SubProof → List VerifiableCredential → UrsaCryptoResult (Unit {0})
  check_pairs [] credentials = ok tt
  check_pairs (proof ∷ proofs) [] = ok tt
  check_pairs (proof ∷ proofs) (credential ∷ credentials) = do
    _ ←
        fail_if
          (not (
            same_members (keys proof.primary_proof.eq_proof.revealed_attrs)
              credential.sub_proof_request.revealed_attrs))
          proof_rejected
    _ ←
        fail_if
          (not (
            same_predicates (proof_predicates proof.primary_proof.ne_proofs)
              credential.sub_proof_request.predicates))
          proof_rejected
    check_pairs proofs credentials

  -- `_check_verify_params_consistency`
  unfoldable pub check_proof : List VerifiableCredential → Proof → UrsaCryptoResult (Unit {0})
  check_proof credentials proof = do
    _ ← fail_if (not (length proof.proofs == length credentials)) proof_rejected
    check_pairs proof.proofs credentials
