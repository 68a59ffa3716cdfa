-- ===== src/Cl/Blind/Honest.antt =====
-- What an honest prover's blinded secrets are, and the product that the issuer computes back.
use smartchaindb_experiment.Base.{
  String, List, [], ◌≡◌, refl, sym, ap, ap₂, ◌∙◌, Option, none, some,
}
use smartchaindb_experiment.Base.Int.{ℤ, pos, ◌+ℤ◌, ◌*ℤ◌, int_laws}
use smartchaindb_experiment.Base.Maps.{Map, lookup, keys}
use smartchaindb_experiment.Base.Entries.{Entries, Entries-of_lookup}
use smartchaindb_experiment.Base.Sets.{Distinct}
use smartchaindb_experiment.Base.Outcome.{ok}
use smartchaindb_experiment.Group.{
  zpow, prod, prod_response, zpow_response, zpow-inv, zpow-mul_distrib, interchange,
  mul_cancel_left,
}
use smartchaindb_experiment.Bn.{BigNumber, OpenSsl, Residues, mod_exp-Rep}
use smartchaindb_experiment.Cl.Types.{
  CredentialValue, CredentialValues, value, CredentialPrimaryPublicKey, large_vprime,
}
use smartchaindb_experiment.Cl.Rand.{Draws, bn_rand, later}
use smartchaindb_experiment.Cl.Credential.{value_at, Within}
use smartchaindb_experiment.Cl.Teq.Laws.{KeyRep}
use smartchaindb_experiment.Cl.Blind.{
  PrimaryBlindedCredentialSecretsFactors, hidden_names,
  generate_blinded_primary_credential_secrets_factors,
}
use smartchaindb_experiment.Cl.Blind.Names.{
  committed_names, blinding_of, blinding_at, hidden_names-keys, prod_congr,
}
use smartchaindb_experiment.Cl.Blind.Factors.{u_loop-product, commitment_of, committed_loop_total}

-- The value of a name, a known zero where there is none.
abbrev pub entry_at : Map CredentialValue → String → CredentialValue
entry_at m k = elim (lookup k m) [ none ↦ CredentialValue.known (pos 0) | some x ↦ x ]

entry_at-lookup :
    (m : Map CredentialValue) (k : String) (x : CredentialValue)
    → lookup k m ≡ some x
    → entry_at m k ≡ x
entry_at-lookup m k x e = rw (e, entry_at) refl

pub own_Entries : (m : Map CredentialValue) → Distinct (keys m) → Entries m (entry_at m)
own_Entries m d = Entries-of_lookup m (entry_at m) d (λ k x e. sym (entry_at-lookup m k x e))

pub value-entry_at : (m : Map CredentialValue) (k : String) → value (entry_at m k) ≡ value_at m k
unfolding value_at value
value-entry_at m k = go (lookup k m)
  where
    go :
        (o : Option CredentialValue)
        → value (elim o [ none ↦ CredentialValue.known (pos 0) | some x ↦ x ])
          ≡ elim o [ none ↦ pos 0 | some x ↦ value x ]
    go none = refl
    go (some x) = refl

pub blinding-entry_at :
    (m : Map CredentialValue) (k : String) → blinding_of (entry_at m k) ≡ blinding_at m k
unfolding blinding_at blinding_of
blinding-entry_at m k = go (lookup k m)
  where
    go :
        (o : Option CredentialValue)
        → blinding_of (elim o [ none ↦ CredentialValue.known (pos 0) | some x ↦ x ])
          ≡ elim o [ none ↦ pos 0 | some x ↦ blinding_of x ]
    go none = refl
    go (some x) = refl

module _ (lib : OpenSsl) (pk : CredentialPrimaryPublicKey) (residues : Residues lib pk.n)
    (key : KeyRep lib pk residues) (values : CredentialValues)
    (distinct : Distinct (keys values.attrs_values))
    (in_key : Within pk.r (hidden_names values.attrs_values))
    (in_key' : Within pk.r (committed_names values.attrs_values)) where
  open residues use {group, val, Rep, val-Rep}
  open group use {Carrier, ◌⊙◌, inv}

  infixl 60 ◌⊙◌
  -- s^v_prime times the powers of the hidden values.
  abbrev pub secrets_product : BigNumber → Carrier
  secrets_product v_prime =
      zpow group key.s v_prime
      ⊙ prod group (λ k. zpow group (key.r k) (value_at values.attrs_values k))
          (hidden_names values.attrs_values)

  pub generate_blinded-product :
      (d : Draws)
      → (factors : PrimaryBlindedCredentialSecretsFactors)
        × (generate_blinded_primary_credential_secrets_factors lib pk values d
            ≡ ok (factors, later d))
        × (factors.v_prime ≡ d 0 large_vprime)
        × (factors.u ≡ val (secrets_product (d 0 large_vprime)))
        × (factors.hidden_attributes ≡ hidden_names values.attrs_values)
        × (keys factors.committed_attributes ≡ committed_names values.attrs_values)
        × Entries factors.committed_attributes
            (λ k. commitment_of lib pk residues key (entry_at values.attrs_values k))
  unfolding generate_blinded_primary_credential_secrets_factors bn_rand
  generate_blinded-product d =
      let m = values.attrs_values in
      let (committed, ran, entries, names) =
        committed_loop_total lib pk residues key m (entry_at m) [] (own_Entries m distinct) distinct
          (λ j h. refl) tt in
      (
        record {
          u = val (secrets_product (d 0 large_vprime));
          v_prime = d 0 large_vprime;
          hidden_attributes = hidden_names m;
          committed_attributes = committed;
        },
        rw
            (
              mod_exp-Rep lib pk.n residues pk.s key.s (d 0 large_vprime) key.s-Rep,
              u_loop-product lib pk residues key m (hidden_names m)
                  (zpow group key.s (d 0 large_vprime)) in_key (hidden_names-keys m),
              ran,
            )
            refl,
        refl,
        refl,
        refl,
        names,
        entries,
      )

  +ℤ_comm : (x y : ℤ) → x +ℤ y ≡ y +ℤ x
  +ℤ_comm x y = omega int_laws

  -- The product that the issuer computes back is that of the masks.
  pub u_cap_product :
      (c v_prime v_tilde : ℤ) (m t : String → ℤ) (names : List String)
      → (zpow group
              (inv (zpow group key.s v_prime ⊙ prod group (λ k. zpow group (key.r k) (m k)) names))
              c
            ⊙ zpow group key.s (c *ℤ v_prime +ℤ v_tilde))
          ⊙ prod group (λ k. zpow group (key.r k) (t k +ℤ c *ℤ m k)) names
        ≡ zpow group key.s v_tilde ⊙ prod group (λ k. zpow group (key.r k) (t k)) names
  u_cap_product c v_prime v_tilde m t names =
      let s_v = zpow group key.s v_prime in
      let r_m = prod group (λ k. zpow group (key.r k) (m k)) names in
      let s_t = zpow group key.s v_tilde in
      let r_t = prod group (λ k. zpow group (key.r k) (t k)) names in
      ap₂ ◌⊙◌
        (ap₂ ◌⊙◌ (zpow-inv group (s_v ⊙ r_m) c ∙ ap inv (zpow-mul_distrib group s_v r_m c))
          (zpow_response group key.s c v_prime v_tilde))
        (prod_congr group _ (λ k. zpow group (key.r k) (c *ℤ m k +ℤ t k)) names
            (λ j h. ap (zpow group (key.r j)) (+ℤ_comm (t j) (c *ℤ m j)))
          ∙ prod_response group key.r c m t names)
      ∙ group.assoc _ _ _
      ∙ ap (λ a. inv (zpow group s_v c ⊙ zpow group r_m c) ⊙ a)
          (interchange group (zpow group s_v c) s_t (zpow group r_m c) r_t)
      ∙ mul_cancel_left group (zpow group s_v c ⊙ zpow group r_m c) (s_t ⊙ r_t)
