-- ===== src/Cl/Inequality/Complete.antt =====
-- Completeness of the inequality proof: the verifier recomputes the prover's list.
use smartchaindb_experiment.Base.{
  ℕ, ◌+◌, ◌≤◌, String, List, [], ◌∷◌, ◌++◌, map, ◌≡◌, refl, ap, ap₂, ◌∙◌, some, arith, Bool,
}
use smartchaindb_experiment.Base.Int.{ℤ, pos, ◌≤ℤ◌, ◌+ℤ◌, ◌-ℤ◌, ◌*ℤ◌}
use smartchaindb_experiment.Base.Outcome.{ok}
use smartchaindb_experiment.Base.Maps.{Map, lookup}
use smartchaindb_experiment.Group.{zpow}
use smartchaindb_experiment.Bn.{BigNumber, OpenSsl, Residues}
use smartchaindb_experiment.Cl.Types.{
  CredentialValues, CredentialValue, value, CredentialPrimaryPublicKey, Predicate,
  PrimaryPredicateInequalityInitProof, PrimaryPredicateInequalityProof, PrimaryEqualProof,
  large_vprime, large_rtilde, large_alphatilde,
}
use smartchaindb_experiment.Cl.Rand.{Draws, Among}
use smartchaindb_experiment.Cl.Credential.{number_at}
use smartchaindb_experiment.Cl.Teq.Laws.{KeyRep}
use smartchaindb_experiment.Cl.Predicate.{IsI32, parse_i32, get_delta_prime, is_less}
use smartchaindb_experiment.Cl.Predicate.Delta.{Holds, exact_delta, get_delta-Holds}
use smartchaindb_experiment.Cl.FourSquares.{Roots, roots_map, sq}
use smartchaindb_experiment.Cl.FourSquares.Search.{four_squares-sum, sum_of_squares}
use smartchaindb_experiment.Cl.Tne.{iterations, calc_tne}
use smartchaindb_experiment.Cl.Tne.Laws.{commit, tne_list, calc_tne-list}
use smartchaindb_experiment.Cl.Inequality.Init.{init_ne_proof}
use smartchaindb_experiment.Cl.Inequality.Finalize.{respond_loop, finalize_ne_proof}
use smartchaindb_experiment.Cl.Inequality.Verify.{verify_ne_predicate}
use smartchaindb_experiment.Cl.Inequality.Algebra.{commitment_cancel, squares_cancel, ur_sum}
use smartchaindb_experiment.Cl.Inequality.Honest.{
  drawn_r, drawn_u_tilde, drawn_r_tilde, after_init, signed_by, commitment_of, commitment_to_delta,
  commitments, masks_list, honest_init, init_ne_proof-honest_init,
}
use smartchaindb_experiment.Cl.Inequality.Entries.{
  Recovers, get_delta_prime-Recovers, sq_sum-roots_map, divide_loop-Rep, divide_delta-Rep,
  signed_cancel,
}

-- The numbers that the prover sends, for the challenge c.
abbrev u_hat : ℤ → Roots → Draws → String → ℤ
u_hat c roots d k = c *ℤ number_at (roots_map roots) k +ℤ number_at (drawn_u_tilde d) k

abbrev r_hat : ℤ → Draws → String → ℤ
r_hat c d k = c *ℤ number_at (drawn_r d) k +ℤ number_at (drawn_r_tilde d) k

abbrev alpha_hat : ℤ → Roots → Draws → ℤ
alpha_hat c roots d =
    (d 4 large_vprime
        -ℤ ur_sum (number_at (roots_map roots)) (number_at (drawn_r d)) iterations (pos 0))
      *ℤ c
    +ℤ d 14 large_alphatilde

module _ (lib : OpenSsl) (pk : CredentialPrimaryPublicKey) (residues : Residues lib pk.n)
    (key : KeyRep lib pk residues) where
  open residues use {group, val, Rep, val-Rep, mul-Rep}
  open group use {Carrier, ◌⊙◌, inv}

  infixl 60 ◌⊙◌
  abbrev honest_proof : ℤ → Roots → Predicate → ℤ → ℤ → Draws → PrimaryPredicateInequalityProof
  honest_proof c roots predicate delta mj_hat d = record {
    u =
        ("0", u_hat c roots d "0")
        ∷ ("1", u_hat c roots d "1")
        ∷ ("2", u_hat c roots d "2")
        ∷ ("3", u_hat c roots d "3")
        ∷ [];
    r =
        ("0", r_hat c d "0")
        ∷ ("DELTA", r_hat c d "DELTA")
        ∷ ("1", r_hat c d "1")
        ∷ ("2", r_hat c d "2")
        ∷ ("3", r_hat c d "3")
        ∷ [];
    mj = mj_hat;
    alpha = alpha_hat c roots d;
    t = commitments lib pk residues key roots delta d;
    predicate = predicate;
  }

  finalize_ne_proof-honest_proof :
      (c : ℤ) (roots : Roots) (predicate : Predicate) (delta mj mj_hat : ℤ) (d : Draws)
      → (eq_proof : PrimaryEqualProof) → lookup predicate.attr_name eq_proof.m ≡ some mj_hat
      → finalize_ne_proof c (honest_init lib pk residues key roots predicate delta mj d) eq_proof
        ≡ ok (honest_proof c roots predicate delta mj_hat d)
  unfolding finalize_ne_proof respond_loop roots_map
  finalize_ne_proof-honest_proof c roots predicate delta mj mj_hat d eq_proof found = rw found refl

  calc_tne-honest_proof :
      (c : ℤ) (roots : Roots) (predicate : Predicate) (delta mj_hat : ℤ) (less : Bool) (d : Draws)
      → (let proof = honest_proof c roots predicate delta mj_hat d in
          calc_tne lib pk proof.u proof.r proof.mj proof.alpha proof.t less)
        ≡ ok (
            tne_list lib pk residues key
              (u_hat c roots d)
              (r_hat c d)
              mj_hat
              (signed_by less (r_hat c d "DELTA"))
              (alpha_hat c roots d)
              (commitment_of lib pk residues key roots d))
  calc_tne-honest_proof c roots predicate delta mj_hat less d =
      let proof = honest_proof c roots predicate delta mj_hat d in
      calc_tne-list lib pk residues key proof.u proof.r proof.t (u_hat c roots d) (r_hat c d)
        (commitment_of lib pk residues key roots d) mj_hat (alpha_hat c roots d) (r_hat c d "DELTA")
        less (refl, (refl, (refl, (refl, tt)))) (refl, (refl, (refl, (refl, tt))))
        (refl, (refl, (refl, (refl, tt)))) refl

  -- Every entry is that of the masks.
  verify_ne_predicate-masks_list :
      (c : ℤ) (roots : Roots) (predicate : Predicate) (delta x mj : ℤ) (d : Draws)
      → Recovers (is_less predicate) (get_delta_prime predicate) delta x
      → pos (sum_of_squares roots) ≡ delta
      → pos 0 ≤ℤ c
      → pos 0 ≤ℤ d 4 large_vprime
      → pos 0 ≤ℤ d 13 large_rtilde
      → verify_ne_predicate lib pk (honest_proof c roots predicate delta (c *ℤ x +ℤ mj) d) c
        ≡ ok (masks_list lib pk residues key roots (is_less predicate) mj d)
  unfolding verify_ne_predicate
  verify_ne_predicate-masks_list c roots predicate delta x mj d recovers squares hc hr hr' =
      rw (calc_tne-honest_proof c roots predicate delta (c *ℤ x +ℤ mj) (is_less predicate) d) (
        divide_loop-Rep lib pk residues key proof c t
          (λ k. commit lib pk residues key (u_hat c roots d k) (r_hat c d k)) iterations _ _
          (refl, (refl, (refl, (refl, tt))))
          (divide_delta-Rep lib pk residues key proof c
            (commitment_to_delta lib pk residues key delta d) _ _ refl)
        ∙ ap ok (
            ap₂ ◌++◌ (map_congr iterations) (
              ap₂ (λ y z. val y ∷ val z ∷ [])
                (signed_cancel lib pk residues key (is_less predicate) c x mj (d 4 large_vprime)
                  (d 13 large_rtilde) delta (get_delta_prime predicate) recovers hc hr hr')
                (squares_cancel group key.z key.s c (number_at (roots_map roots))
                  (number_at (drawn_u_tilde d)) (number_at (drawn_r d)) iterations
                  (d 4 large_vprime) (d 14 large_alphatilde) delta
                  (sq_sum-roots_map roots ∙ squares)))))
    where
      proof : PrimaryPredicateInequalityProof
      proof = honest_proof c roots predicate delta (c *ℤ x +ℤ mj) d

      t : String → Carrier
      t = commitment_of lib pk residues key roots d

      map_congr :
          (ks : List String)
          → map
              (λ k. val (
                inv (zpow group (t k) c)
                ⊙ commit lib pk residues key (u_hat c roots d k) (r_hat c d k)))
              ks
            ≡ map
                (λ k. val (
                  commit lib pk residues key
                    (number_at (drawn_u_tilde d) k)
                    (number_at (drawn_r_tilde d) k)))
                ks
      map_congr [] = refl
      map_congr (k ∷ ks) =
          ap₂ (λ y ys. val y ∷ ys)
            (commitment_cancel group key.z key.s c (number_at (roots_map roots) k)
              (number_at (drawn_u_tilde d) k) (number_at (drawn_r d) k)
              (number_at (drawn_r_tilde d) k))
            (map_congr ks)

  module _ (values : CredentialValues) (predicate : Predicate) (entry : CredentialValue) (x : ℤ)
      (found : lookup predicate.attr_name values.attrs_values ≡ some entry)
      (parsed : parse_i32 (value entry) ≡ ok x) (bound_fits : IsI32 predicate.bound)
      (x_fits : IsI32 x) (delta_fits : IsI32 (exact_delta predicate x)) where
    -- An honest prover of a predicate that holds of the attribute's value convinces the verifier.
    -- The value, the bound and their difference fit an `i32`; the difference is a sum of four
    -- squares, written with the largest first; the random numbers are not negative; and there is a
    -- mask mj for the attribute. Then `_init_ne_proof` returns, no random numbers are left but those
    -- that were there, and for every challenge that is not negative and every equality proof with
    -- the response c * x + mj of the attribute, `_finalize_ne_proof` returns a proof of the predicate
    -- from which `_verify_ne_predicate` returns the list that the prover's first message holds.
    pub verify_ne-finalize-init :
        (a b b' b'' : ℕ)
        → b ≤ a
        → b' ≤ b
        → b'' ≤ b'
        → exact_delta predicate x ≡ pos (sq a + sq b + sq b' + sq b'')
        → (d : Draws) → ((i size : ℕ) → pos 0 ≤ℤ d i size)
        → (m_tilde : Map BigNumber) (mj : ℤ) → lookup predicate.attr_name m_tilde ≡ some mj
        → (init : PrimaryPredicateInequalityInitProof) × (d' : Draws) × (init_ne_proof lib pk
              m_tilde values predicate d
            ≡ ok (init, d'))
          × Among d d'
          × ((c : ℤ)
              → pos 0 ≤ℤ c
              → (eq_proof : PrimaryEqualProof)
              → lookup predicate.attr_name eq_proof.m ≡ some (c *ℤ x +ℤ mj)
              → (proof : PrimaryPredicateInequalityProof) × (finalize_ne_proof c init eq_proof
                  ≡ ok proof)
                × (proof.predicate ≡ predicate)
                × (verify_ne_predicate lib pk proof c ≡ ok init.tau_list))
    verify_ne-finalize-init a b b' b'' ba b'b b''b' split d d_nonneg m_tilde mj masked =
        let (roots, four, squares) = four_squares-sum a b b' b'' ba b'b b''b' in
        let delta = pos (sq a + sq b + sq b' + sq b'') in
        let (exact, sign) = get_delta-Holds predicate x bound_fits x_fits delta_fits in
        let holds : Holds predicate x = sign.0 (rw (exact, split) (omega arith)) in
        (
          honest_init lib pk residues key roots predicate delta mj d,
          after_init d,
          init_ne_proof-honest_init lib pk residues key m_tilde values predicate entry x delta mj
              roots d found parsed (exact ∙ split) (ground arith) four masked,
          λ i size. (_, refl),
          λ c hc eq_proof responded. (
            honest_proof c roots predicate delta (c *ℤ x +ℤ mj) d,
            finalize_ne_proof-honest_proof c roots predicate delta mj (c *ℤ x +ℤ mj) d eq_proof
                responded,
            refl,
            verify_ne_predicate-masks_list c roots predicate delta x mj d
                (rw split at (get_delta_prime-Recovers predicate x bound_fits x_fits holds))
                (ap pos squares) hc (d_nonneg 4 large_vprime) (d_nonneg 13 large_rtilde),
          ),
        )
