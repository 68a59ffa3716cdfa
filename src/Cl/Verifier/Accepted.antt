-- ===== src/Cl/Verifier/Accepted.antt =====
-- What is known of a proof for which `verify` returns.
use mathlib.Core.Path.{subst}
use smartchaindb_experiment.Base.{
  Bool, true, false, not, List, [], ◌∷◌, ◌++◌, String, Option, some, ◌≡◌, refl, sym, ap, ◌∙◌, arith,
}
use smartchaindb_experiment.Base.Maps.{keys, lookup, contains_key}
use smartchaindb_experiment.Base.Sets.{same_members}
use smartchaindb_experiment.Base.Outcome.{UrsaCryptoResult, ok, panicked}
use smartchaindb_experiment.Bn.{BigNumber, Bytes, OpenSsl, get_hash_as_int}
use smartchaindb_experiment.Cl.Verifier.State.{Common, bind-ok, keep-ok}
use smartchaindb_experiment.Cl.Verifier.Checks.{
  NonRevocation, VerifiableCredential, SubProof, Proof, check_pairs, check_proof, length,
  same_predicates, proof_predicates,
}
use smartchaindb_experiment.Cl.Verifier.Verify.{
  ProofVerifier, verify, verify_steps, verify_loop, check_common, verify_primary_proof,
  non_revocation_taus,
}
use smartchaindb_experiment.Cl.Verifier.Common.{
  Extends, Extends-refl, Extends-trans, check_common-ok,
}

module _ (lib : OpenSsl) (types : NonRevocation) where
  -- Each sub proof reveals the attributes and proves the predicates that are asked for.
  abbrev pub Corresponds : List (SubProof types) → List (VerifiableCredential types) → Type 0
  Corresponds [] credentials = Unit
  Corresponds (proof ∷ proofs) [] = Unit
  Corresponds (proof ∷ proofs) (credential ∷ credentials) =
      (same_members (keys proof.primary_proof.eq_proof.revealed_attrs)
          credential.sub_proof_request.revealed_attrs
        ≡ true)
      × (same_predicates (proof_predicates proof.primary_proof.ne_proofs)
            credential.sub_proof_request.predicates
          ≡ true)
      × Corresponds proofs credentials

  not-false : (b : Bool) → not b ≡ false → b ≡ true
  not-false true h = refl
  not-false false h = ground arith

  check_pairs-Corresponds :
      (proofs : List (SubProof types)) (credentials : List (VerifiableCredential types))
      → check_pairs types proofs credentials ≡ ok tt
      → Corresponds proofs credentials
  unfolding check_pairs
  check_pairs-Corresponds [] credentials h = tt
  check_pairs-Corresponds (proof ∷ proofs) [] h = tt
  check_pairs-Corresponds (proof ∷ proofs) (credential ∷ credentials) h =
      ground (arith, check_pairs-Corresponds proofs credentials)

  check_proof-Corresponds :
      (credentials : List (VerifiableCredential types)) (proof : Proof types)
      → check_proof types credentials proof ≡ ok tt
      → (length proof.proofs ≡ length credentials) × Corresponds proof.proofs credentials
  unfolding check_proof
  check_proof-Corresponds credentials proof h =
      ground (arith, check_pairs-Corresponds proof.proofs credentials)

  -- Every sub proof has, for a common attribute, the number that the map ends with.
  abbrev pub AllHave : String → Option (Option BigNumber) → List (SubProof types) → Type 0
  AllHave attr_name entry [] = Unit
  AllHave attr_name entry (proof ∷ proofs) =
      ((m_hat : BigNumber) × (lookup attr_name proof.primary_proof.eq_proof.m ≡ some m_hat)
        × (entry ≡ some (some m_hat)))
      × AllHave attr_name entry proofs

  panic_differs :
      (taus : List Bytes) → ¬ (◌≡◌ {A = UrsaCryptoResult (List Bytes)} panicked (ok taus))
  panic_differs taus p = cc

  verify_loop-AllHave :
      (c_hash : BigNumber) (proofs : List (SubProof types))
      → (credentials : List (VerifiableCredential types)) (tau_list taus : List Bytes)
      → (common after : Common)
      → verify_loop lib types c_hash proofs credentials tau_list common ≡ (ok taus, after)
      → Extends common after
        × ((j : String) → contains_key j common ≡ true → AllHave j (lookup j after) proofs)
  unfolding verify_loop
  verify_loop-AllHave c_hash [] credentials tau_list taus common after h =
      (subst (Extends common) (ap (λ r. r.1) h) (Extends-refl common), λ j k. tt)
  verify_loop-AllHave c_hash (proof ∷ proofs) [] tau_list taus common after h =
      absurd (panic_differs taus (ap (λ r. r.0) h))
  verify_loop-AllHave c_hash (proof ∷ proofs) (credential ∷ credentials) tau_list taus common after
        h =
      let (non_revoc, _, h1) =
        keep-ok
          (non_revocation_taus lib types c_hash proof.non_revoc_proof credential.pub_key.r_key
            credential.rev_reg credential.rev_key_pub)
          _ common after taus h in
      let (_, between, checked, h2) =
        bind-ok (λ s. check_common (keys s) proof.primary_proof.eq_proof.m s) _ common after taus
          h1 in
      let (t_hat, _, h3) =
        keep-ok
          (verify_primary_proof lib credential.pub_key.p_key c_hash proof.primary_proof
            credential.credential_schema credential.non_credential_schema
            credential.sub_proof_request)
          _ between after taus h2 in
      let (extends, agrees) =
        check_common-ok (keys common) proof.primary_proof.eq_proof.m common between checked in
      let (extends', others) =
        verify_loop-AllHave c_hash proofs credentials _ taus between after h3 in
      (
        Extends-trans common between after extends extends',
        λ j k.
            let k' = extends.same_keys j ∙ k in
            let (m_hat, found, entry) = agrees j k k' in
            ((m_hat, found, extends'.keeps j m_hat entry), others j k'),
      )

  -- When `verify` returns, and does not fail, the proof has as many sub proofs as there are
  -- credentials, each reveals the attributes and proves the predicates that were asked of its
  -- credential, and every common attribute has one and the same blinded value in all of them, which
  -- is what the verifier's map holds afterwards; the numbers that it held before are still there.
  pub verify-AllHave :
      (verifier after : ProofVerifier lib types) (proof : Proof types) (nonce : BigNumber)
      → (accepted : Bool) → verify lib types verifier proof nonce ≡ (ok accepted, after)
      → (length proof.proofs ≡ length verifier.credentials)
        × Corresponds proof.proofs verifier.credentials
        × Extends verifier.common_attributes after.common_attributes
        × ((attr_name : String)
            → contains_key attr_name verifier.common_attributes ≡ true
            → AllHave attr_name (lookup attr_name after.common_attributes) proof.proofs)
  unfolding verify verify_steps
  verify-AllHave verifier after proof nonce accepted h =
      let steps : verify_steps lib types verifier.credentials proof nonce verifier.common_attributes
          ≡ (ok accepted, after.common_attributes) =
        ap (λ r. (r.0, r.1.common_attributes)) h in
      let (_, checked, h1) =
        keep-ok (check_proof types verifier.credentials proof) _ verifier.common_attributes
          after.common_attributes accepted steps in
      let (taus, between, looped, h2) =
        bind-ok
          (verify_loop lib types proof.aggregated_proof.c_hash proof.proofs verifier.credentials [])
          _ verifier.common_attributes after.common_attributes accepted h1 in
      let (_, _, h3) =
        keep-ok
          (get_hash_as_int lib (taus ++ proof.aggregated_proof.c_list ++ (lib.to_bytes nonce ∷ [])))
          _ between after.common_attributes accepted h2 in
      let (extends, all) =
        verify_loop-AllHave proof.aggregated_proof.c_hash proof.proofs verifier.credentials [] taus
          verifier.common_attributes between looped in
      let corresponds = check_proof-Corresponds verifier.credentials proof checked in
      let last : between ≡ after.common_attributes = ap (λ r. r.1) h3 in
      (
        corresponds.0,
        corresponds.1,
        subst (Extends verifier.common_attributes) last extends,
        λ j k. subst (λ s. AllHave j (lookup j s) proof.proofs) last (all j k),
      )

  -- A verifier that is used a second time returns, without an error, only for a proof with the
  -- blinded values of the first: for each common attribute, where both proofs have a sub proof, the
  -- first sub proof of the one has the number of the first sub proof of the other.
  pub verify_twice :
      (verifier after after' : ProofVerifier lib types) (proof proof' : Proof types)
      → (nonce nonce' : BigNumber) (accepted accepted' : Bool)
      → verify lib types verifier proof nonce ≡ (ok accepted, after)
      → verify lib types after proof' nonce' ≡ (ok accepted', after')
      → (attr_name : String) → contains_key attr_name verifier.common_attributes ≡ true
      → (first first' : SubProof types) (rest rest' : List (SubProof types))
      → proof.proofs ≡ first ∷ rest
      → proof'.proofs ≡ first' ∷ rest'
      → lookup attr_name first.primary_proof.eq_proof.m
        ≡ lookup attr_name first'.primary_proof.eq_proof.m
  verify_twice verifier after after' proof proof' nonce nonce' accepted accepted' h h' attr_name k
        first first' rest rest' e e' =
      let (_, _, extends, all) = verify-AllHave verifier after proof nonce accepted h in
      let (_, _, extends', all') = verify-AllHave after after' proof' nonce' accepted' h' in
      let ((m_hat, found, entry), _) =
        subst (AllHave attr_name (lookup attr_name after.common_attributes)) e (all attr_name k) in
      let ((m_hat', found', entry'), _) =
        subst (AllHave attr_name (lookup attr_name after'.common_attributes)) e'
          (all' attr_name (extends.same_keys attr_name ∙ k)) in
      let kept = extends'.keeps attr_name m_hat entry in
      found ∙ same_entry m_hat m_hat' (sym kept ∙ entry') ∙ sym found'
    where
      same_entry :
          (m_hat m_hat' : BigNumber)
          → ◌≡◌ {A = Option (Option BigNumber)} (some (some m_hat)) (some (some m_hat'))
          → ◌≡◌ {A = Option BigNumber} (some m_hat) (some m_hat')
      same_entry m_hat m_hat' p = cc
