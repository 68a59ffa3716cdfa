-- ===== src/Cl/Blind/Complete.antt =====
-- The issuer accepts an honest prover's blinded secrets.
use mathlib.Core.Path.{subst}
use smartchaindb_experiment.Base.{[], ◌∷◌, ◌++◌, ◌≡◌, refl, sym, ap, ◌∙◌}
use smartchaindb_experiment.Base.Int.{◌+ℤ◌, ◌*ℤ◌}
use smartchaindb_experiment.Base.Maps.{keys}
use smartchaindb_experiment.Base.Sets.{contains, Distinct}
use smartchaindb_experiment.Base.Outcome.{ok}
use smartchaindb_experiment.Group.{zpow}
use smartchaindb_experiment.Bn.{
  BigNumber, OpenSsl, Residues, mod_exp-Rep, get_hash_as_int, concat_bytes,
}
use smartchaindb_experiment.Cl.Types.{CredentialValues, CredentialPrimaryPublicKey, large_vprime}
use smartchaindb_experiment.Cl.Rand.{Draws, bn_rand, later}
use smartchaindb_experiment.Cl.Credential.{Within}
use smartchaindb_experiment.Cl.Teq.Laws.{KeyRep}
use smartchaindb_experiment.Cl.Blind.{
  PrimaryBlindedCredentialSecretsFactors, BlindedCredentialSecretsCorrectnessProof, hidden_names,
  generate_blinded_primary_credential_secrets_factors,
  new_blinded_credential_secrets_correctness_proof,
  check_blinded_credential_secrets_correctness_proof, large_vprime_tilde,
}
use smartchaindb_experiment.Cl.Blind.Names.{committed_names}
use smartchaindb_experiment.Cl.Blind.Masks.{tilde_loop_total}
use smartchaindb_experiment.Cl.Blind.Honest.{secrets_product, generate_blinded-product}
use smartchaindb_experiment.Cl.Blind.Check.{before_masks, responded, check_blinded-responses}

module _ (lib : OpenSsl) (pk : CredentialPrimaryPublicKey) (residues : Residues lib pk.n)
    (key : KeyRep lib pk residues) (values : CredentialValues)
    (distinct : Distinct (keys values.attrs_values))
    (in_key : Within pk.r (hidden_names values.attrs_values))
    (in_key' : Within pk.r (committed_names values.attrs_values)) where
  open residues use {group, val, Rep, val-Rep}
  open group use {Carrier, ◌⊙◌, inv}

  infixl 60 ◌⊙◌
  -- Completeness of the proof on blinded secrets. Let no name stand twice among the values, and let
  -- the key have a number for each that is hidden or committed. Whatever is drawn and whatever the
  -- nonce, the prover's factors and its proof are made, and the issuer's check of u, the hidden and
  -- the committed attributes against the proof and the nonce returns without an error.
  pub check_blinded-new :
      (d : Draws)
      → (factors : PrimaryBlindedCredentialSecretsFactors)
        × (generate_blinded_primary_credential_secrets_factors lib pk values d
            ≡ ok (factors, later d))
        × (factors.v_prime ≡ d 0 large_vprime)
        × (factors.u
            ≡ val (
                secrets_product lib pk residues key values distinct in_key in_key'
                  (d 0 large_vprime)))
        × ((nonce : BigNumber) (d1 : Draws)
            → (proof : BlindedCredentialSecretsCorrectnessProof) × (d2 : Draws)
              × (new_blinded_credential_secrets_correctness_proof lib pk factors nonce values d1
                  ≡ ok (proof, d2))
              × (check_blinded_credential_secrets_correctness_proof lib factors.u
                    factors.hidden_attributes factors.committed_attributes proof nonce pk
                  ≡ ok tt))
  unfolding new_blinded_credential_secrets_correctness_proof bn_rand get_hash_as_int
  check_blinded-new d =
      let m = values.attrs_values in
      let (factors, ran, v_is, u_is, hidden_is, names, entries) =
        generate_blinded-product lib pk residues key values distinct in_key in_key' d in
      let v_prime = d 0 large_vprime in
      let committed = factors.committed_attributes in
      let has : Within committed (committed_names m) = λ j h. ap (contains j) names ∙ h in
      (
        factors,
        ran,
        v_is,
        u_is,
        λ nonce d1.
            let v_tilde = d1 0 large_vprime_tilde in
            let start = zpow group key.s v_tilde in
            let (t, d2, looped, masked) =
              tilde_loop_total lib pk residues key committed m
                (before_masks lib pk residues key values distinct in_key in_key' v_tilde) start
                (later d1) distinct in_key in_key' has refl in
            let c =
              lib.from_digest
                (concat_bytes lib (t.values ++ (factors.u ∷ t.u_tilde ∷ nonce ∷ [])) ∷ []) in
            let (caps, capped, m_has, has') =
              responded lib pk residues key values distinct in_key in_key' committed names entries
                v_tilde t masked c in
            (
              record {
                c = c;
                v_dash_cap = c *ℤ v_prime +ℤ v_tilde;
                m_caps = caps.m_caps;
                r_caps = caps.r_caps;
              },
              d2,
              rw (mod_exp-Rep lib pk.n residues pk.s key.s v_tilde key.s-Rep, looped, capped, v_is)
                  refl,
              check_blinded-responses lib pk residues key values distinct in_key in_key' committed
                  names entries v_tilde t masked c factors.u v_prime nonce factors.hidden_attributes
                  (subst
                    (λ x.
                      Rep x (
                        secrets_product lib pk residues key values distinct in_key in_key' v_prime))
                    (sym u_is)
                    (val-Rep
                      (secrets_product lib pk residues key values distinct in_key in_key' v_prime)))
                  hidden_is caps.m_caps caps.r_caps m_has has' refl,
            ),
      )
