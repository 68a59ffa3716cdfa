-- ===== src/Cl/Builder/Complete.antt =====
-- Completeness of the primary proof: the verifier hashes what the prover has hashed.
use smartchaindb_experiment.Base.{
  ℕ, ◌+◌, ◌≤◌, String, true, ◌&&◌, not, Bool-cases, inl, inr, Option, some, List, [], ◌∷◌, ◌++◌,
  map, ◌≡◌, refl, sym, ap, ap₂, ◌∙◌,
}
use smartchaindb_experiment.Base.Int.{ℤ, pos, negsuc, ltb_ℤ, ◌≤ℤ◌, ◌+ℤ◌, ◌*ℤ◌}
use smartchaindb_experiment.Base.Maps.{Map, lookup, keys}
use smartchaindb_experiment.Base.Sets.{contains, union}
use smartchaindb_experiment.Base.Lists.{append_assoc, append_none, map-append}
use smartchaindb_experiment.Base.Outcome.{ok, err, UrsaCryptoResult, invalid_structure}
use smartchaindb_experiment.Bn.{BigNumber, OpenSsl, Residues}
use smartchaindb_experiment.Cl.Types.{
  CredentialSchema, NonCredentialSchema, CredentialValues, CredentialValue, value,
  CredentialPrimaryPublicKey, PrimaryCredentialSignature, SubProofRequest, Predicate,
  PrimaryEqualProof, PrimaryPredicateInequalityInitProof, PrimaryPredicateInequalityProof,
  PrimaryProof,
}
use smartchaindb_experiment.Cl.Rand.{Draws}
use smartchaindb_experiment.Cl.Credential.{
  number_at, number_at-lookup, value_at, value_at-lookup, IsSigned, IsConsistent,
}
use smartchaindb_experiment.Cl.Teq.Laws.{KeyRep}
use smartchaindb_experiment.Cl.Predicate.{IsI32, parse_i32, i32_half}
use smartchaindb_experiment.Cl.Predicate.Delta.{exact_delta}
use smartchaindb_experiment.Cl.FourSquares.{sq}
use smartchaindb_experiment.Cl.Equality.{unrevealed_by_prover, verify-finalize-init}
use smartchaindb_experiment.Cl.Inequality.Complete.{verify_ne-finalize-init}
use smartchaindb_experiment.Cl.Verifier.Checks.{proof_predicates}
use smartchaindb_experiment.Cl.Verifier.Verify.{verify_ne_loop, verify_primary_proof}
use smartchaindb_experiment.Cl.Builder.Primary.{
  PrimaryInitProof, init_ne_loop, init_primary_proof, ne_tau_lists, as_tau_list, finalize_ne_loop,
  finalize_primary_proof,
}

-- A predicate that an honest prover can prove: it holds of the value of an attribute that is not
-- revealed, its numbers fit an `i32`, and the difference is a sum of four squares.
pub record IsProvable (values : Map CredentialValue) (hidden : List String) (predicate : Predicate)
    : Type 0 where
  pub entry : CredentialValue
  pub x : ℤ
  pub found : lookup predicate.attr_name values ≡ some entry
  pub parsed : parse_i32 (value entry) ≡ ok x
  pub stays_hidden : contains predicate.attr_name hidden ≡ true
  pub bound_fits : IsI32 predicate.bound
  pub x_fits : IsI32 x
  pub delta_fits : IsI32 (exact_delta predicate x)
  pub a : ℕ
  pub b : ℕ
  pub b' : ℕ
  pub b'' : ℕ
  pub ba : b ≤ a
  pub b'b : b' ≤ b
  pub b''b' : b'' ≤ b'
  pub split : exact_delta predicate x ≡ pos (sq a + sq b + sq b' + sq b'')

-- What a proof answers a challenge with: it is of the predicates of the request, reveals its
-- attributes, and has for each hidden attribute that is common to several proofs the response
-- challenge * value + mask.
pub record IsAnswer (values : Map CredentialValue) (hidden : List String)
    (request : SubProofRequest) (common : Map BigNumber) (c : BigNumber) (proof : PrimaryProof)
    : Type 0 where
  pub predicates : proof_predicates proof.ne_proofs ≡ request.predicates
  pub revealed :
      (j : String)
      → contains j (keys proof.eq_proof.revealed_attrs) ≡ contains j request.revealed_attrs
  pub responses :
      (j : String) (x : BigNumber)
      → contains j hidden ≡ true
      → lookup j common ≡ some x
      → lookup j proof.eq_proof.m ≡ some (c *ℤ value_at values j +ℤ x)

abbrev pub AllProvable : Map CredentialValue → List String → List Predicate → Type 0
AllProvable values hidden [] = Unit
AllProvable values hidden (p ∷ ps) = IsProvable values hidden p × AllProvable values hidden ps

ok_differs : (x : ℤ) → ¬ (◌≡◌ {A = UrsaCryptoResult ℤ} (err invalid_structure) (ok x))
ok_differs x p = cc

ok_injective : (v x : ℤ) → ◌≡◌ {A = UrsaCryptoResult ℤ} (ok v) (ok x) → v ≡ x
ok_injective v x p = cc

parse_i32-eq : (v x : ℤ) → parse_i32 v ≡ ok x → v ≡ x
unfolding parse_i32
parse_i32-eq v x h =
    elim (Bool-cases (not (ltb_ℤ v (negsuc 2147483647)) && ltb_ℤ v (pos i32_half))) [
      | inl e ↦ ok_injective v x (rw (e, parse_i32) at h)
      | inr e ↦ absurd (ok_differs x (rw (e, parse_i32) at h))
    ]

-- The numbers of the lists of the inequality proofs.
abbrev ne_taus : List PrimaryPredicateInequalityInitProof → List BigNumber
ne_taus [] = []
ne_taus (init ∷ inits) = init.tau_list ++ ne_taus inits

module _ (lib : OpenSsl) (pk : CredentialPrimaryPublicKey) (residues : Residues lib pk.n)
    (key : KeyRep lib pk residues) where
  ne_taus-ne_tau_lists :
      (inits : List PrimaryPredicateInequalityInitProof)
      → map lib.to_bytes (ne_taus inits) ≡ ne_tau_lists lib inits
  unfolding ne_tau_lists
  ne_taus-ne_tau_lists [] = refl
  ne_taus-ne_tau_lists (init ∷ inits) =
      map-append lib.to_bytes init.tau_list (ne_taus inits)
      ∙ ap (λ t. map lib.to_bytes init.tau_list ++ t) (ne_taus-ne_tau_lists inits)

  verify_ne_loop-total :
      (values : CredentialValues) (hidden : List String) (m_tilde : Map BigNumber)
      → ((j : String) → contains j hidden ≡ true → lookup j m_tilde ≡ some (number_at m_tilde j))
      → (ps : List Predicate) → AllProvable values.attrs_values hidden ps
      → (d : Draws) → ((i size : ℕ) → pos 0 ≤ℤ d i size)
      → (inits : List PrimaryPredicateInequalityInitProof) × (d' : Draws) × (init_ne_loop lib pk
            m_tilde values ps d
          ≡ ok (inits, d'))
        × ((i size : ℕ) → pos 0 ≤ℤ d' i size)
        × ((c : ℤ)
            → pos 0 ≤ℤ c
            → (eq_proof : PrimaryEqualProof)
            → ((j : String)
                → contains j hidden ≡ true
                → lookup j eq_proof.m
                  ≡ some (c *ℤ value_at values.attrs_values j +ℤ number_at m_tilde j))
            → (proofs : List PrimaryPredicateInequalityProof) × (finalize_ne_loop c eq_proof inits
                ≡ ok proofs)
              × (proof_predicates proofs ≡ ps)
              × ((t_hat : List BigNumber)
                  → verify_ne_loop lib pk c proofs t_hat ≡ ok (t_hat ++ ne_taus inits)))
  unfolding init_ne_loop finalize_ne_loop verify_ne_loop proof_predicates
  verify_ne_loop-total values hidden m_tilde masks [] provable d nonneg = (
    [],
    d,
    refl,
    nonneg,
    λ c hc eq_proof responses. ([], refl, refl, λ t_hat. ap ok (sym (append_none t_hat))),
  )
  verify_ne_loop-total values hidden m_tilde masks (p ∷ ps) (can, provable) d nonneg =
      let name = p.attr_name in
      let (init, d1, ran, among, answer) =
        verify_ne-finalize-init lib pk residues key values p can.entry can.x can.found can.parsed
          can.bound_fits can.x_fits can.delta_fits can.a can.b can.b' can.b'' can.ba can.b'b
          can.b''b' can.split d nonneg m_tilde (number_at m_tilde name)
          (masks name can.stays_hidden) in
      let (inits, d2, ran', nonneg', answers) =
        verify_ne_loop-total values hidden m_tilde masks ps provable d1
          (λ i size. let (k, e) = among i size in rw e (nonneg k size)) in
      let is_x : value_at values.attrs_values name ≡ can.x =
        sym (value_at-lookup values.attrs_values name can.entry can.found)
        ∙ parse_i32-eq (value can.entry) can.x can.parsed in
      (
        init ∷ inits,
        d2,
        rw (ran, ran') refl,
        nonneg',
        λ c hc eq_proof responses.
            let (proof, finalized, about, verified) = answer c hc eq_proof (
              responses name can.stays_hidden
              ∙ ap (λ y. some (c *ℤ y +ℤ number_at m_tilde name)) is_x) in
            let (proofs, finalized', about', verified') = answers c hc eq_proof responses in
            (
              proof ∷ proofs,
              rw (finalized, finalized') refl,
              ap₂ (λ q qs. q ∷ qs) about about',
              λ t_hat. rw verified (
                  verified' (t_hat ++ init.tau_list)
                  ∙ ap ok (append_assoc t_hat init.tau_list (ne_taus inits))),
            ),
      )

  -- Completeness of the primary proof. For a signature on the values of the schemas' names, a request
  -- that is consistent with them and of which every predicate is provable, and random numbers that
  -- are not negative: `_init_primary_proof` returns, and for every challenge that is not negative
  -- `_finalize_primary_proof` returns a proof that answers what was asked for, from which
  -- `_verify_primary_proof` returns numbers whose bytes are those of the prover's `as_tau_list`,
  -- which the challenge has hashed.
  pub verify_primary-finalize-init :
      (sig : PrimaryCredentialSignature) (cred_schema : CredentialSchema)
      → (non_cred_schema : NonCredentialSchema) (values : CredentialValues)
      → (request : SubProofRequest)
      → IsConsistent pk cred_schema non_cred_schema values.attrs_values request
      → IsSigned lib pk residues key sig values.attrs_values
          (union cred_schema.attrs non_cred_schema.attrs)
      → AllProvable values.attrs_values
          (unrevealed_by_prover non_cred_schema cred_schema request)
          request.predicates
      → (common : Map BigNumber) (m2_t : Option BigNumber) (d : Draws)
      → ((i size : ℕ) → pos 0 ≤ℤ d i size)
      → (init : PrimaryInitProof) × (d' : Draws) × (init_primary_proof lib common pk sig values
            cred_schema non_cred_schema request m2_t d
          ≡ ok (init, d'))
        × ((i size : ℕ) → pos 0 ≤ℤ d' i size)
        × ((c : ℤ)
            → pos 0 ≤ℤ c
            → (proof : PrimaryProof) × (taus : List BigNumber) × (finalize_primary_proof init c
                  cred_schema non_cred_schema values request
                ≡ ok proof)
              × IsAnswer values.attrs_values
                  (unrevealed_by_prover non_cred_schema cred_schema request)
                  request
                  common
                  c
                  proof
              × (verify_primary_proof lib pk c proof cred_schema non_cred_schema request ≡ ok taus)
              × (map lib.to_bytes taus ≡ as_tau_list lib init))
  unfolding init_primary_proof finalize_primary_proof verify_primary_proof as_tau_list
  verify_primary-finalize-init sig cred_schema non_cred_schema values request consistent signed
        provable common m2_t d nonneg =
      let (eq_init, d1, ran, among, kept, masks, answer) =
        verify-finalize-init lib pk residues key sig cred_schema non_cred_schema values request
          consistent signed common m2_t d in
      let (ne_inits, d2, ran', nonneg', answers) =
        verify_ne_loop-total values (unrevealed_by_prover non_cred_schema cred_schema request)
          eq_init.m_tilde masks request.predicates provable d1
          (λ i size. let (k, e) = among i size in rw e (nonneg k size)) in
      (
        record { eq_proof = eq_init; ne_proofs = ne_inits },
        d2,
        rw (ran, ran') refl,
        nonneg',
        λ c hc.
            let (eq_proof, finalized, verified, responses, revealed) = answer c in
            let (ne_proofs, finalized', about, verified') = answers c hc eq_proof responses in
            (
              record { eq_proof = eq_proof; ne_proofs = ne_proofs },
              eq_init.t ∷ ne_taus ne_inits,
              rw (finalized, finalized') refl,
              record {
                predicates = about;
                revealed = revealed;
                responses = λ j x h e.
                    let mask : number_at eq_init.m_tilde j ≡ x =
                      number_at-lookup eq_init.m_tilde j x (kept j x e) in
                    responses j h ∙ ap (λ y. some (c *ℤ value_at values.attrs_values j +ℤ y)) mask;
              },
              rw verified (verified' (eq_init.t ∷ [])),
              ap (λ t. lib.to_bytes eq_init.t ∷ t) (ne_taus-ne_tau_lists ne_inits),
            ),
      )
