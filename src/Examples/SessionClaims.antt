-- ===== src/Examples/SessionClaims.antt =====
-- The theorem on whole proofs applied to two sub proofs of one credential with a common secret.
use text.Mathlib.TextEquality.{eq_iff}
use smartchaindb_experiment.Base.{
  [], ◌∷◌, String, List, ◌≡◌, refl, true, some, none, Option, ◌⊎◌, arith,
}
use smartchaindb_experiment.Base.Int.{pos}
use smartchaindb_experiment.Base.Maps.{Map}
use smartchaindb_experiment.Base.Sets.{contains}
use smartchaindb_experiment.Base.Outcome.{ok}
use smartchaindb_experiment.Bn.{BigNumber}
use smartchaindb_experiment.Cl.Types.{SubProofRequest}
use smartchaindb_experiment.Cl.Rand.{Draws, lift}
use smartchaindb_experiment.Cl.Credential.{value_at}
use smartchaindb_experiment.Cl.Equality.{unrevealed_by_prover}
use smartchaindb_experiment.Cl.Verifier.Checks.{Proof}
use smartchaindb_experiment.Cl.Verifier.Verify.{ProofVerifier, verify}
use smartchaindb_experiment.Cl.Builder.Session.{
  NonRevocationProver, ProofBuilder, add_sub_proof_request, finalize,
}
use smartchaindb_experiment.Cl.Builder.Primary.{check_credential, names_of}
use smartchaindb_experiment.Cl.Builder.Failed.{IsKept, add_sub_proof_request-IsFailed}
use smartchaindb_experiment.Cl.Builder.Honest.{
  Holding, IsHonest, hidden_of, add_all, credentials_of,
}
use smartchaindb_experiment.Cl.Builder.Accepted.{builder_with, verify-finalize}
use smartchaindb_experiment.Examples.Zmod.{zmod}
use smartchaindb_experiment.Examples.Key.{
  pk, residues, key, signature, signed, schema, non_schema, values, request, consistent,
}
use smartchaindb_experiment.Examples.BuilderClaims.{numbers, adult-IsProvable, checked}
use smartchaindb_experiment.Examples.VerifierClaims.{no_revocation}

abbrev no_prover : NonRevocationProver no_revocation
no_prover = record {
  NonRevocationCredentialSignature = Unit;
  Witness = Unit;
  NonRevocInitProof = Unit;
  init_non_revocation_proof = λ c reg key witness. lift (ok tt);
  non_revoc_c_list = λ init. ok [];
  non_revoc_tau_list = λ init. ok [];
  m2_number = λ init. ok (pos 0);
  finalize_non_revocation_proof = λ init c. ok tt;
}

abbrev holding : Holding zmod no_revocation no_prover
holding = record {
  request = request;
  cred_schema = schema;
  non_cred_schema = non_schema;
  signature = record { p_credential = signature; r_credential = none };
  values = values;
  pub_key = record { p_key = pk; r_key = none };
}

abbrev shared : List String
shared = "master_secret" ∷ []

abbrev common : Map BigNumber
common = ("master_secret", pos 9) ∷ []

secret_hides :
    (j : String)
    → contains j shared ≡ true
    → contains j (hidden_of zmod no_revocation no_prover holding) ≡ true
unfolding unrevealed_by_prover
secret_hides j h = ground (arith, eq_iff "age" j)

holding-IsHonest :
    IsHonest zmod no_revocation no_prover shared (value_at values.attrs_values) holding
holding-IsHonest = record {
  residues = residues;
  key = key;
  checked = checked;
  consistent = consistent;
  signed = signed;
  provable = (adult-IsProvable, tt);
  no_revocation = refl;
  hides = secret_hides;
  same_secret = λ j h. refl;
}

abbrev told : ProofVerifier zmod no_revocation
told = record {
  credentials = credentials_of zmod no_revocation no_prover (holding ∷ holding ∷ []);
  common_attributes = ("master_secret", none) ∷ [];
}

verify-finalize_example :
    (builder : ProofBuilder zmod no_revocation no_prover) × (d' : Draws) × (proof : Proof
      no_revocation)
    × (add_all zmod no_revocation no_prover
          (builder_with zmod no_revocation no_prover common)
          (holding ∷ holding ∷ [])
          numbers
        ≡ (ok d', builder))
    × (finalize zmod no_revocation no_prover builder (pos 7) ≡ ok proof)
    × ((verify zmod no_revocation told proof (pos 7)).0 ≡ ok true)
verify-finalize_example =
    verify-finalize zmod no_revocation no_prover shared (value_at values.attrs_values)
      (holding ∷ holding ∷ []) (holding-IsHonest, (holding-IsHonest, tt)) common (λ j h. h) numbers
      (λ i size. omega arith) (λ bytes. omega arith) told refl (λ j h. h)
      (λ j entry h. ground arith) (pos 7)

abbrev unknown : SubProofRequest
unknown = record { revealed_attrs = "height" ∷ []; predicates = [] }

abbrev begun : ProofBuilder zmod no_revocation no_prover
begun = builder_with zmod no_revocation no_prover common

add_sub_proof_request-IsFailed_example :
    IsKept zmod no_revocation no_prover begun
      (add_sub_proof_request zmod no_revocation no_prover begun unknown schema non_schema
        holding.signature values holding.pub_key none none numbers).1
    × (((add_sub_proof_request zmod no_revocation no_prover begun unknown schema non_schema
            holding.signature values holding.pub_key none none numbers).1
          ≡ begun)
        ⊎ ((r_cred : Unit {0}) × (◌≡◌ {A = Option (Unit {0})} none (some r_cred))))
unfolding add_sub_proof_request check_credential names_of
add_sub_proof_request-IsFailed_example =
    add_sub_proof_request-IsFailed zmod no_revocation no_prover unknown schema non_schema
      holding.signature values holding.pub_key begun none none numbers tt
