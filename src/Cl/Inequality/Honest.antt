-- ===== src/Cl/Inequality/Honest.antt =====
-- What `_init_ne_proof` returns to an honest prover: the maps that its loops fill, number by number.
use smartchaindb_experiment.Base.{
  String, List, [], ◌∷◌, ◌≡◌, refl, some, true, false, Bool, if◌then◌else◌,
}
use smartchaindb_experiment.Base.Int.{ℤ, pos, ltb_ℤ}
use smartchaindb_experiment.Base.Outcome.{ok}
use smartchaindb_experiment.Base.Maps.{Map, lookup}
use smartchaindb_experiment.Bn.{
  BigNumber, OpenSsl, Residues, get_pedersen_commitment, get_pedersen_commitment-Rep, set_negative,
}
use smartchaindb_experiment.Cl.Types.{
  CredentialValues, CredentialValue, value, CredentialPrimaryPublicKey, Predicate,
  PrimaryPredicateInequalityInitProof, large_vprime, large_utilde, large_rtilde, large_alphatilde,
}
use smartchaindb_experiment.Cl.Rand.{Draws, bn_rand, later}
use smartchaindb_experiment.Cl.Credential.{number_at}
use smartchaindb_experiment.Cl.Teq.Laws.{KeyRep}
use smartchaindb_experiment.Cl.Predicate.{parse_i32, get_delta, is_less}
use smartchaindb_experiment.Cl.FourSquares.{Roots, roots_map, four_squares}
use smartchaindb_experiment.Cl.Tne.{iterations, calc_tne}
use smartchaindb_experiment.Cl.Tne.Laws.{commit, tne_list, calc_tne-list}
use smartchaindb_experiment.Cl.Inequality.Init.{commit_loop, mask_loop, init_ne_proof}

-- The randomness of the commitments, and the masks, in the order in which they are drawn.
abbrev pub drawn_r : Draws → Map BigNumber
drawn_r d =
    ("0", d 0 large_vprime)
    ∷ ("1", d 1 large_vprime)
    ∷ ("2", d 2 large_vprime)
    ∷ ("3", d 3 large_vprime)
    ∷ ("DELTA", d 4 large_vprime)
    ∷ []

abbrev pub drawn_u_tilde : Draws → Map BigNumber
drawn_u_tilde d =
    ("0", d 5 large_utilde)
    ∷ ("1", d 7 large_utilde)
    ∷ ("2", d 9 large_utilde)
    ∷ ("3", d 11 large_utilde)
    ∷ []

abbrev pub drawn_r_tilde : Draws → Map BigNumber
drawn_r_tilde d =
    ("0", d 6 large_rtilde)
    ∷ ("1", d 8 large_rtilde)
    ∷ ("2", d 10 large_rtilde)
    ∷ ("3", d 12 large_rtilde)
    ∷ ("DELTA", d 13 large_rtilde)
    ∷ []

abbrev pub after_commitments : Draws → Draws
after_commitments d = later (later (later (later d)))

abbrev pub after_masks : Draws → Draws
after_masks d = after_commitments (after_commitments (later (after_commitments d)))

abbrev pub after_init : Draws → Draws
after_init d = later (later (after_masks d))

-- The exponent that `calc_tne` uses for "DELTA".
abbrev pub signed_by : Bool → ℤ → ℤ
signed_by less x = if less then set_negative true x else x

module _ (lib : OpenSsl) (pk : CredentialPrimaryPublicKey) (residues : Residues lib pk.n)
    (key : KeyRep lib pk residues) where
  open residues use {group, val, val-Rep}
  open group use {Carrier, ◌⊙◌}

  infixl 60 ◌⊙◌
  -- The commitment to a root.
  abbrev pub commitment_of : Roots → Draws → String → Carrier
  commitment_of roots d k =
      commit lib pk residues key (number_at (roots_map roots) k) (number_at (drawn_r d) k)

  abbrev pub commitment_to_delta : ℤ → Draws → Carrier
  commitment_to_delta delta d = commit lib pk residues key delta (d 4 large_vprime)

  abbrev pub commitments : Roots → ℤ → Draws → Map BigNumber
  commitments roots delta d =
      ("0", val (commitment_of roots d "0"))
      ∷ ("1", val (commitment_of roots d "1"))
      ∷ ("2", val (commitment_of roots d "2"))
      ∷ ("3", val (commitment_of roots d "3"))
      ∷ ("DELTA", val (commitment_to_delta delta d))
      ∷ []

  -- The list that the prover hashes.
  abbrev pub masks_list : Roots → Bool → ℤ → Draws → List BigNumber
  masks_list roots less mj d =
      tne_list lib pk residues key (number_at (drawn_u_tilde d)) (number_at (drawn_r_tilde d)) mj
        (signed_by less (d 13 large_rtilde)) (d 14 large_alphatilde) (commitment_of roots d)

  abbrev pub honest_init : Roots → Predicate → ℤ → ℤ → Draws → PrimaryPredicateInequalityInitProof
  honest_init roots predicate delta mj d = record {
    c_list =
        val (commitment_of roots d "0")
        ∷ val (commitment_of roots d "1")
        ∷ val (commitment_of roots d "2")
        ∷ val (commitment_of roots d "3")
        ∷ val (commitment_to_delta delta d)
        ∷ [];
    tau_list = masks_list roots (is_less predicate) mj d;
    u = roots_map roots;
    u_tilde = drawn_u_tilde d;
    r = drawn_r d;
    r_tilde = drawn_r_tilde d;
    alpha_tilde = d 14 large_alphatilde;
    predicate = predicate;
    t = commitments roots delta d;
  }

  commit_is :
      (u r : ℤ)
      → get_pedersen_commitment lib pk.z u pk.s r pk.n ≡ ok (val (commit lib pk residues key u r))
  commit_is u r =
      get_pedersen_commitment-Rep lib pk.n residues pk.z pk.s key.z key.s u r key.z-Rep key.s-Rep

  commit_loop-iterations :
      (roots : Roots) (d : Draws)
      → commit_loop lib pk (roots_map roots) iterations (record { r = []; t = []; c_list = [] }) d
        ≡ ok (
          record {
            r =
                ("0", d 0 large_vprime)
                ∷ ("1", d 1 large_vprime)
                ∷ ("2", d 2 large_vprime)
                ∷ ("3", d 3 large_vprime)
                ∷ [];
            t =
                ("0", val (commitment_of roots d "0"))
                ∷ ("1", val (commitment_of roots d "1"))
                ∷ ("2", val (commitment_of roots d "2"))
                ∷ ("3", val (commitment_of roots d "3"))
                ∷ [];
            c_list =
                val (commitment_of roots d "0")
                ∷ val (commitment_of roots d "1")
                ∷ val (commitment_of roots d "2")
                ∷ val (commitment_of roots d "3")
                ∷ [];
          },
          after_commitments d,
        )
  unfolding commit_loop roots_map bn_rand
  commit_loop-iterations roots d =
      rw
        (
          commit_is (pos roots.root_0) (d 0 large_vprime),
          commit_is (pos roots.root_1) (d 1 large_vprime),
          commit_is (pos roots.root_2) (d 2 large_vprime),
          commit_is (pos roots.root_3) (d 3 large_vprime),
        )
        refl

  mask_loop-iterations :
      (d : Draws)
      → mask_loop iterations [] [] (later (after_commitments d))
        ≡ ok (
          (
            drawn_u_tilde d,
            ("0", d 6 large_rtilde)
                ∷ ("1", d 8 large_rtilde)
                ∷ ("2", d 10 large_rtilde)
                ∷ ("3", d 12 large_rtilde)
                ∷ [],
          ),
          after_masks d,
        )
  unfolding mask_loop bn_rand
  mask_loop-iterations d = refl

  calc_tne-masks :
      (roots : Roots) (delta mj : ℤ) (less : Bool) (d : Draws)
      → calc_tne lib pk
          (drawn_u_tilde d)
          (drawn_r_tilde d)
          mj
          (d 14 large_alphatilde)
          (commitments roots delta d)
          less
        ≡ ok (masks_list roots less mj d)
  calc_tne-masks roots delta mj less d =
      calc_tne-list lib pk residues key (drawn_u_tilde d) (drawn_r_tilde d)
        (commitments roots delta d) (number_at (drawn_u_tilde d)) (number_at (drawn_r_tilde d))
        (commitment_of roots d) mj (d 14 large_alphatilde) (d 13 large_rtilde) less
        (refl, (refl, (refl, (refl, tt)))) (refl, (refl, (refl, (refl, tt))))
        (refl, (refl, (refl, (refl, tt)))) refl

  -- Where the attribute has a value that is an `i32`, the predicate's difference is not negative and
  -- four squares are found, and there is a mask for the attribute, that is the first message.
  pub init_ne_proof-honest_init :
      (m_tilde : Map BigNumber) (values : CredentialValues) (predicate : Predicate)
      → (entry : CredentialValue) (x delta mj : ℤ) (roots : Roots) (d : Draws)
      → lookup predicate.attr_name values.attrs_values ≡ some entry
      → parse_i32 (value entry) ≡ ok x
      → get_delta predicate x ≡ delta
      → ltb_ℤ delta (pos 0) ≡ false
      → four_squares delta ≡ ok (roots_map roots)
      → lookup predicate.attr_name m_tilde ≡ some mj
      → init_ne_proof lib pk m_tilde values predicate d
        ≡ ok (honest_init roots predicate delta mj d, after_init d)
  unfolding init_ne_proof bn_rand
  init_ne_proof-honest_init m_tilde values predicate entry x delta mj roots d found parsed diff
        positive split masked =
      rw
        (
          found,
          parsed,
          diff,
          positive,
          split,
          commit_loop-iterations roots d,
          commit_is delta (d 4 large_vprime),
          mask_loop-iterations d,
          masked,
          calc_tne-masks roots delta mj (is_less predicate) d,
        )
        refl
