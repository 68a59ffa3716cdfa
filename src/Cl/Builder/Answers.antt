-- ===== src/Cl/Builder/Answers.antt =====
-- An honest builder's first messages can be answered, and the verifier's loop accepts the answers.
use smartchaindb_experiment.Base.{
  ℕ, suc, String, true, none, some, List, [], ◌∷◌, ◌++◌, map, ◌≡◌, refl, sym, ap, ◌∙◌,
}
use smartchaindb_experiment.Base.Lists.{append_assoc, append_none}
use smartchaindb_experiment.Base.Int.{ℤ, pos, ◌≤ℤ◌, ◌+ℤ◌, ◌*ℤ◌}
use smartchaindb_experiment.Base.Maps.{Map, keys, lookup, contains_key}
use smartchaindb_experiment.Base.Sets.{contains, same_members}
use smartchaindb_experiment.Base.Outcome.{ok}
use smartchaindb_experiment.Bn.{BigNumber, Bytes, OpenSsl}
use smartchaindb_experiment.Cl.Types.{PrimaryProof}
use smartchaindb_experiment.Cl.Rand.{Draws}
use smartchaindb_experiment.Cl.Credential.{number_at, lookup-number_at}
use smartchaindb_experiment.Cl.Verifier.State.{Common}
use smartchaindb_experiment.Cl.Verifier.Checks.{NonRevocation, SubProof, check_pairs, length}
use smartchaindb_experiment.Cl.Verifier.Verify.{
  check_common, verify_primary_proof, non_revocation_taus, verify_loop,
}
use smartchaindb_experiment.Cl.Verifier.Common.{check_common-ok}
use smartchaindb_experiment.Cl.Verifier.Agreed.{same_predicates_refl, Fits, check_common-Fits}
use smartchaindb_experiment.Cl.Builder.Checked.{subset_of_contains}
use smartchaindb_experiment.Cl.Builder.Primary.{PrimaryInitProof, as_c_list, as_tau_list}
use smartchaindb_experiment.Cl.Builder.Complete.{IsAnswer}
use smartchaindb_experiment.Cl.Builder.Session.{
  NonRevocationProver, InitProof, ProofBuilder, finalize_non_revocation, finalize_loop,
}
use smartchaindb_experiment.Cl.Builder.Honest.{
  Holding, IsHonest, hidden_of, add_all, credential_of, credentials_of, extended, entry_of,
  add_sub_proof_request-extended,
}

module _ (lib : OpenSsl) (types : NonRevocation) (prover : NonRevocationProver types) where
  abbrev pub AllHonest :
      List String → (String → BigNumber) → List (Holding lib types prover) → Type 1
  AllHonest shared secret [] = Unit
  AllHonest shared secret (h ∷ hs) =
      IsHonest lib types prover shared secret h × AllHonest shared secret hs

  -- The builder with first messages more, and what they have added to the lists.
  abbrev pub grown :
      ProofBuilder lib types prover
      → List (InitProof lib types prover)
      → List Bytes
      → List Bytes
      → ProofBuilder lib types prover
  grown builder inits cs ts = record {
    common_attributes = builder.common_attributes;
    init_proofs = builder.init_proofs ++ inits;
    c_list = builder.c_list ++ cs;
    tau_list = builder.tau_list ++ ts;
  }

  same_builder :
      (common : Map BigNumber) {inits inits' : List (InitProof lib types prover)}
      → {cs cs' ts ts' : List Bytes} → inits ≡ inits'
      → cs ≡ cs'
      → ts ≡ ts'
      → ◌≡◌ {A = ProofBuilder lib types prover}
          (record { common_attributes = common; init_proofs = inits; c_list = cs; tau_list = ts })
          (record {
            common_attributes = common;
            init_proofs = inits';
            c_list = cs';
            tau_list = ts';
          })
  same_builder common p q r =
      λ i. record { common_attributes = common; init_proofs = p i; c_list = q i; tau_list = r i }

  grown-extended :
      (builder : ProofBuilder lib types prover) (h : Holding lib types prover)
      → (init : PrimaryInitProof) (inits : List (InitProof lib types prover)) → (cs ts : List Bytes)
      → grown (extended lib types prover builder h init) inits cs ts
        ≡ grown builder
            (entry_of lib types prover h init ∷ inits)
            (as_c_list lib init ++ cs)
            (as_tau_list lib init ++ ts)
  grown-extended builder h init inits cs ts =
      same_builder builder.common_attributes
        (append_assoc builder.init_proofs (entry_of lib types prover h init ∷ []) inits)
        (append_assoc builder.c_list (as_c_list lib init) cs)
        (append_assoc builder.tau_list (as_tau_list lib init) ts)

  -- The response for a common attribute.
  abbrev pub response : (String → BigNumber) → Map BigNumber → ℤ → String → BigNumber
  response secret common c j = c *ℤ secret j +ℤ number_at common j

  -- A sub proof of an answer passes the check of its credential.
  check_pairs-cons :
      (h : Holding lib types prover) (common : Map BigNumber) (c : ℤ) (proof : PrimaryProof)
      → IsAnswer h.values.attrs_values (hidden_of lib types prover h) h.request common c proof
      → (proofs : List (SubProof types)) (hs : List (Holding lib types prover))
      → check_pairs types proofs (credentials_of lib types prover hs) ≡ ok tt
      → check_pairs types
          (record { primary_proof = proof; non_revoc_proof = none } ∷ proofs)
          (credentials_of lib types prover (h ∷ hs))
        ≡ ok tt
  unfolding check_pairs credentials_of credential_of
  check_pairs-cons h common c proof answer proofs hs later =
      let members : same_members (keys proof.eq_proof.revealed_attrs) h.request.revealed_attrs
          ≡ true =
        rw
          (
            subset_of_contains (keys proof.eq_proof.revealed_attrs) h.request.revealed_attrs
                (λ j e. sym (answer.revealed j) ∙ e),
            subset_of_contains h.request.revealed_attrs (keys proof.eq_proof.revealed_attrs)
                (λ j e. answer.revealed j ∙ e),
          )
          refl in
      rw (members, answer.predicates, same_predicates_refl h.request.predicates) later

  -- The responses of an answer pass the check of the common attributes.
  answer-Fits :
      (shared : List String) (secret : String → BigNumber) (h : Holding lib types prover)
      → IsHonest lib types prover shared secret h
      → (common : Map BigNumber)
      → ((j : String) → contains j shared ≡ true → contains_key j common ≡ true)
      → (c : ℤ) (proof : PrimaryProof)
      → IsAnswer h.values.attrs_values (hidden_of lib types prover h) h.request common c proof
      → (j : String) → contains j shared ≡ true
      → lookup j proof.eq_proof.m ≡ some (response secret common c j)
  answer-Fits shared secret h honest common known c proof answer j m =
      answer.responses j (number_at common j) (honest.hides j m)
        (lookup-number_at common j (known j m))
      ∙ ap (λ x. some (c *ℤ x +ℤ number_at common j)) (honest.same_secret j m)

  -- One round of the verifier's loop.
  verify_loop-cons :
      (c : ℤ) (h : Holding lib types prover) (proof : PrimaryProof) (numbers : List BigNumber)
      → (gathered : List Bytes) (common between : Common)
      → check_common (keys common) proof.eq_proof.m common ≡ (ok tt, between)
      → verify_primary_proof lib h.pub_key.p_key c proof h.cred_schema h.non_cred_schema h.request
        ≡ ok numbers
      → map lib.to_bytes numbers ≡ gathered
      → (proofs : List (SubProof types)) (hs : List (Holding lib types prover)) (taus : List Bytes)
      → verify_loop lib types c
          (record { primary_proof = proof; non_revoc_proof = none } ∷ proofs)
          (credentials_of lib types prover (h ∷ hs))
          taus
          common
        ≡ verify_loop lib types c proofs
            (credentials_of lib types prover hs)
            (taus ++ gathered)
            between
  unfolding verify_loop credentials_of credential_of non_revocation_taus
  verify_loop-cons c h proof numbers gathered common between agreed verified hashed proofs hs taus =
      rw (agreed, verified, hashed)
        (ap
          (λ t.
            verify_loop lib types c proofs (credentials_of lib types prover hs) (t ++ gathered)
              between)
          (append_none taus))

  -- For every challenge, the builder's first messages can be answered, and the verifier gathers from
  -- the answers what the builder has gathered.
  pub add_all-verify_loop :
      (shared : List String) (secret : String → BigNumber) (hs : List (Holding lib types prover))
      → AllHonest shared secret hs
      → (builder : ProofBuilder lib types prover)
      → ((j : String) → contains j shared ≡ true → contains_key j builder.common_attributes ≡ true)
      → (d : Draws) → ((i size : ℕ) → pos 0 ≤ℤ d i size)
      → (inits : List (InitProof lib types prover)) × (cs : List Bytes) × (ts : List Bytes)
        × (d' : Draws) × (add_all lib types prover builder hs d
            ≡ (ok d', grown builder inits cs ts))
        × ((c : ℤ)
            → pos 0 ≤ℤ c
            → (proofs : List (SubProof types)) × (finalize_loop lib types prover c inits
                ≡ ok proofs)
              × (length proofs ≡ length (credentials_of lib types prover hs))
              × (check_pairs types proofs (credentials_of lib types prover hs) ≡ ok tt)
              × ((taus : List Bytes) (common : Common)
                  → ((j : String) → contains_key j common ≡ true → contains j shared ≡ true)
                  → Fits (response secret builder.common_attributes c) common
                  → (after : Common) × (verify_loop lib types c proofs
                        (credentials_of lib types prover hs)
                        taus
                        common
                      ≡ (ok (taus ++ ts), after))))
  unfolding add_all finalize_loop finalize_non_revocation check_pairs verify_loop credentials_of
      credential_of non_revocation_taus
  add_all-verify_loop shared secret [] honest builder known d nonneg = (
    [],
    [],
    [],
    d,
    ap (λ b. (ok d, b))
        (same_builder builder.common_attributes (sym (append_none builder.init_proofs))
          (sym (append_none builder.c_list)) (sym (append_none builder.tau_list))),
    λ c hc. (
      [],
      refl,
      refl,
      refl,
      λ taus common in_shared fits. (common, ap (λ t. (ok t, common)) (sym (append_none taus))),
    ),
  )
  add_all-verify_loop shared secret (h ∷ hs) (honest, honests) builder known d nonneg =
      let (init, d1, ran, nonneg', answer) =
        add_sub_proof_request-extended lib types prover builder shared secret h honest d nonneg in
      let (inits, cs, ts, d2, ran', answers) =
        add_all-verify_loop shared secret hs honests (extended lib types prover builder h init)
          known d1 nonneg' in
      (
        entry_of lib types prover h init ∷ inits,
        as_c_list lib init ++ cs,
        as_tau_list lib init ++ ts,
        d2,
        rw (ran, ran') (ap (λ b. (ok d2, b)) (grown-extended builder h init inits cs ts)),
        λ c hc.
            let (proof, numbers, finalized, answered, verified, hashed) = answer c hc in
            let (proofs, finalized', same, checked, gathered) = answers c hc in
            (
              record { primary_proof = proof; non_revoc_proof = none } ∷ proofs,
              rw (finalized, finalized') refl,
              ap suc same,
              check_pairs-cons h builder.common_attributes c proof answered proofs hs checked,
              λ taus common in_shared fits.
                  let (between, agreed, fits') =
                    check_common-Fits (response secret builder.common_attributes c) (keys common)
                      proof.eq_proof.m common
                      (λ j k.
                        answer-Fits shared secret h honest builder.common_attributes known c proof
                          answered j (in_shared j k))
                      fits in
                  let (extends, _) =
                    check_common-ok (keys common) proof.eq_proof.m common between agreed in
                  let (after, rest) =
                    gathered (taus ++ as_tau_list lib init) between
                      (λ j k. in_shared j (sym (extends.same_keys j) ∙ k)) fits' in
                  (
                    after,
                    verify_loop-cons c h proof numbers (as_tau_list lib init) common between agreed
                          verified hashed proofs hs taus
                        ∙ (rest
                            ∙ ap (λ t. (ok t, after))
                                (append_assoc taus (as_tau_list lib init) ts)),
                  ),
            ),
      )
