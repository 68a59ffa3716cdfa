-- ===== src/Cl/Builder/Accepted.antt =====
-- An honest builder's proof is accepted by the verifier.
use smartchaindb_experiment.Base.{
  ℕ, String, true, ◌==◌, Option, none, some, List, [], ◌∷◌, ◌++◌, ◌≡◌, refl, ap, arith,
}
use smartchaindb_experiment.Base.Int.{pos, ◌≤ℤ◌, ==ℤ_refl}
use smartchaindb_experiment.Base.Maps.{Map, lookup, contains_key}
use smartchaindb_experiment.Base.Sets.{contains}
use smartchaindb_experiment.Base.Outcome.{ok}
use smartchaindb_experiment.Bn.{BigNumber, Bytes, OpenSsl, get_hash_as_int}
use smartchaindb_experiment.Cl.Rand.{Draws}
use smartchaindb_experiment.Cl.Verifier.Checks.{
  NonRevocation, Proof, check_pairs, check_proof, length,
}
use smartchaindb_experiment.Cl.Verifier.Verify.{ProofVerifier, verify_steps, verify}
use smartchaindb_experiment.Cl.Builder.Session.{NonRevocationProver, ProofBuilder, finalize}
use smartchaindb_experiment.Cl.Builder.Honest.{Holding, add_all, credentials_of}
use smartchaindb_experiment.Cl.Builder.Answers.{AllHonest, grown, response, add_all-verify_loop}

module _ (lib : OpenSsl) (types : NonRevocation) (prover : NonRevocationProver types) where
  -- A builder to which nothing but common attributes was added.
  abbrev pub builder_with : Map BigNumber → ProofBuilder lib types prover
  builder_with common = record {
    common_attributes = common;
    init_proofs = [];
    c_list = [];
    tau_list = [];
  }

  same_number : (k : ℕ) → (k == k) ≡ true
  same_number k = ground arith

  check_proof-pairs :
      (hs : List (Holding lib types prover)) (proof : Proof types)
      → length proof.proofs ≡ length (credentials_of lib types prover hs)
      → check_pairs types proof.proofs (credentials_of lib types prover hs) ≡ ok tt
      → check_proof types (credentials_of lib types prover hs) proof ≡ ok tt
  unfolding check_proof
  check_proof-pairs hs proof same checked =
      rw (same, same_number (length (credentials_of lib types prover hs))) checked

  no_value :
      (A : Type 0)
      → (v : BigNumber) → ◌≡◌ {A = Option (Option BigNumber)} (some (some v)) (some none)
      → A
  no_value A v p = cc

  -- Completeness of the protocol. Let a prover hold, for each sub proof, a primary signature on
  -- values that satisfy the request, let the common attributes stay hidden and have in all the
  -- credentials the same values, and let neither the random numbers nor the hashes be negative.
  -- Then each `add_sub_proof_request` succeeds, so does `finalize`, and `verify`, by a verifier that
  -- has been told of the same credentials in the same order and of common attributes that the
  -- builder has, none of them checked before, returns that the proof is right.
  pub verify-finalize :
      (shared : List String) (secret : String → BigNumber) (hs : List (Holding lib types prover))
      → AllHonest lib types prover shared secret hs
      → (common : Map BigNumber)
      → ((j : String) → contains j shared ≡ true → contains_key j common ≡ true)
      → (d : Draws) → ((i size : ℕ) → pos 0 ≤ℤ d i size)
      → ((bytes : List Bytes) → pos 0 ≤ℤ lib.from_digest bytes)
      → (verifier : ProofVerifier lib types)
      → verifier.credentials ≡ credentials_of lib types prover hs
      → ((j : String) → contains_key j verifier.common_attributes ≡ true → contains j shared ≡ true)
      → ((j : String) (entry : Option BigNumber)
          → lookup j verifier.common_attributes ≡ some entry
          → entry ≡ none)
      → (nonce : BigNumber)
      → (builder : ProofBuilder lib types prover) × (d' : Draws) × (proof : Proof types) × (add_all
            lib types prover
            (builder_with common)
            hs
            d
          ≡ (ok d', builder))
        × (finalize lib types prover builder nonce ≡ ok proof)
        × ((verify lib types verifier proof nonce).0 ≡ ok true)
  unfolding finalize verify verify_steps check_proof get_hash_as_int
  verify-finalize shared secret hs honest common known d nonneg digests verifier told in_shared
        unset nonce =
      let (inits, cs, ts, d', ran, answers) =
        add_all-verify_loop lib types prover shared secret hs honest (builder_with common) known d
          nonneg in
      let c = lib.from_digest (ts ++ cs ++ (lib.to_bytes nonce ∷ [])) in
      let (proofs, finalized, same, checked, gathered) = answers c (digests _) in
      let (after, looped) = gathered [] verifier.common_attributes in_shared (λ j v h.
        no_value (v ≡ response lib types prover secret common c j) v
          (ap some (unset j (some v) h))) in
      (
        grown lib types prover (builder_with common) inits cs ts,
        d',
        record { proofs = proofs; aggregated_proof = record { c_hash = c; c_list = cs } },
        ran,
        rw finalized refl,
        rw
            (
              told,
              check_proof-pairs hs
                  (record {
                    proofs = proofs;
                    aggregated_proof = record { c_hash = c; c_list = cs };
                  })
                  same checked,
              looped,
              ==ℤ_refl c,
            )
            refl,
      )
