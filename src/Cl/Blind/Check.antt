-- ===== src/Cl/Blind/Check.antt =====
-- The responses of an honest proof on blinded secrets pass the issuer's check.
use text.Mathlib.TextEquality.{eq_iff}
use smartchaindb_experiment.Base.{
  String, true, inl, inr, Bool-cases, List, [], ◌∷◌, ◌++◌, ◌≡◌, refl, sym, ap, ap₂, ◌∙◌, some,
  arith,
}
use smartchaindb_experiment.Base.Int.{◌+ℤ◌, ◌*ℤ◌, ==ℤ_refl}
use smartchaindb_experiment.Base.Maps.{Map, lookup, keys, contains_key}
use smartchaindb_experiment.Base.Entries.{Entries, lookup-Entries, Entries-lookup}
use smartchaindb_experiment.Base.Sets.{contains, Distinct}
use smartchaindb_experiment.Base.Outcome.{ok}
use smartchaindb_experiment.Group.{zpow}
use smartchaindb_experiment.Bn.{
  BigNumber, OpenSsl, Residues, mod_exp-Rep, mod_mul-Rep, inverse-Rep, get_hash_as_int,
  concat_bytes,
}
use smartchaindb_experiment.Cl.Types.{CredentialValues, value, CredentialPrimaryPublicKey}
use smartchaindb_experiment.Cl.Credential.{
  number_at, value_at, lookup-number_at, Within, Entries-number_at,
}
use smartchaindb_experiment.Cl.Teq.Laws.{KeyRep}
use smartchaindb_experiment.Cl.Blind.{
  Tildes, Caps, cap_loop, hidden_names, check_blinded_credential_secrets_correctness_proof,
  u_cap_loop,
}
use smartchaindb_experiment.Cl.Blind.Names.{
  committed_names, blinding_of, hidden_names-lookup, committed_names-lookup,
}
use smartchaindb_experiment.Cl.Blind.Factors.{u_cap_loop-product, commitment_of}
use smartchaindb_experiment.Cl.Blind.Masks.{pairs, IsMasked}
use smartchaindb_experiment.Cl.Blind.Responses.{
  Answerable, m_response, r_response, cap_loop_total, commitment_cap_loop-pairs,
}
use smartchaindb_experiment.Cl.Blind.Honest.{
  entry_at, value-entry_at, blinding-entry_at, secrets_product, u_cap_product,
}

module _ (lib : OpenSsl) (pk : CredentialPrimaryPublicKey) (residues : Residues lib pk.n)
    (key : KeyRep lib pk residues) (values : CredentialValues)
    (distinct : Distinct (keys values.attrs_values))
    (in_key : Within pk.r (hidden_names values.attrs_values))
    (in_key' : Within pk.r (committed_names values.attrs_values)) where
  open residues use {group, val, Rep, val-Rep}
  open group use {Carrier, ◌⊙◌, inv}

  infixl 60 ◌⊙◌
  pairs_congr :
      (f g g' : String → BigNumber) (names : List String)
      → ((j : String) → contains j names ≡ true → g j ≡ g' j)
      → pairs f g names ≡ pairs f g' names
  pairs_congr f g g' [] h = refl
  pairs_congr f g g' (k ∷ names) h =
      ap₂ (λ x xs. f k ∷ x ∷ xs) (h k (ground (arith, eq_iff k k)))
        (pairs_congr f g g' names (λ j e. h j (ground (arith, eq_iff k j))))

  abbrev pub before_masks : BigNumber → Tildes
  before_masks v_tilde = record {
    m_tildes = [];
    r_tildes = [];
    values = [];
    u_tilde = val (zpow group key.s v_tilde);
  }

  abbrev pub v_of : String → BigNumber
  v_of k = value (entry_at values.attrs_values k)

  abbrev pub b_of : String → BigNumber
  b_of k = blinding_of (entry_at values.attrs_values k)

  -- Commitments to the committed attributes, and what the loop has built over them.
  module _ (committed : Map BigNumber)
      (names : keys committed ≡ committed_names values.attrs_values)
      (entries : Entries committed
        (λ k. commitment_of lib pk residues key (entry_at values.attrs_values k)))
      (v_tilde : BigNumber) (t : Tildes)
      (masked : IsMasked lib pk residues key committed values.attrs_values
        (before_masks v_tilde)
        (zpow group key.s v_tilde)
        t)
      (c : BigNumber) where
    abbrev pub mt : String → BigNumber
    mt = number_at t.m_tildes

    abbrev pub rt : String → BigNumber
    rt = number_at t.r_tildes

    all_Answerable :
        (j : String)
        → contains_key j t.m_tildes ≡ true
        → Answerable values.attrs_values t.r_tildes rt j
    all_Answerable j h = elim (Bool-cases (contains j (hidden_names values.attrs_values))) [
      | inl e ↦ inl (hidden_names-lookup values.attrs_values j distinct e)
      | inr e ↦
          let there : contains j (committed_names values.attrs_values) ≡ true =
            ground (arith, masked.names_m j) in
          let (v, b, found) = committed_names-lookup values.attrs_values j distinct there in
          inr (v, b, found, lookup-number_at t.r_tildes j (ground (arith, masked.names_r j)))
    ]

    -- The responses of the proof, by name.
    pub responded :
        (caps : Caps) × (cap_loop c t.r_tildes values.attrs_values t.m_tildes
            (record { m_caps = []; r_caps = [] })
          ≡ ok caps)
        × ((j : String)
            → contains j (hidden_names values.attrs_values) ≡ true
            → lookup j caps.m_caps ≡ some (mt j +ℤ c *ℤ value_at values.attrs_values j))
        × ((j : String)
            → contains j (committed_names values.attrs_values) ≡ true
            → (lookup j caps.m_caps ≡ some (mt j +ℤ c *ℤ v_of j))
              × (lookup j caps.r_caps ≡ some (rt j +ℤ c *ℤ b_of j)))
    responded =
        let m = values.attrs_values in
        let (caps, capped, m_entries, r_entries, m_names, r_kept, r_names) =
          cap_loop_total c m t.r_tildes mt rt t.m_tildes (record { m_caps = []; r_caps = [] })
            (Entries-number_at t.m_tildes (masked.distinct tt)) all_Answerable in
        (
          caps,
          capped,
          λ j h.
              lookup-Entries caps.m_caps (m_response c m t.r_tildes mt rt) j (m_entries tt)
                (ground (arith, m_names j, masked.names_m j)),
          λ j h.
              let (v, b, found) = committed_names-lookup m j distinct h in
              (
                lookup-Entries caps.m_caps (m_response c m t.r_tildes mt rt) j (m_entries tt)
                      (ground (arith, m_names j, masked.names_m j))
                    ∙ ap (λ w. some (mt j +ℤ c *ℤ w)) (sym (value-entry_at m j)),
                lookup-Entries caps.r_caps (r_response c m t.r_tildes mt rt) j (r_entries tt)
                      (r_names j v b (ground (arith, masked.names_m j)) found)
                    ∙ ap (λ w. some (rt j +ℤ c *ℤ w)) (sym (blinding-entry_at m j)),
              ),
        )

    -- The commitments of the masks and those of the values, as the prover hashes them.
    hashed_pairs :
        pairs
          (λ k. val (zpow group key.z (mt k) ⊙ zpow group key.s (rt k)))
          (λ k. val (zpow group key.s (b_of k) ⊙ zpow group key.z (v_of k)))
          (keys committed)
        ≡ t.values
    hashed_pairs =
        ap
          (pairs (λ k. val (zpow group key.z (mt k) ⊙ zpow group key.s (rt k)))
            (λ k. val (zpow group key.s (b_of k) ⊙ zpow group key.z (v_of k))))
          names
        ∙ pairs_congr (λ k. val (zpow group key.z (mt k) ⊙ zpow group key.s (rt k))) _
            (number_at committed) (committed_names values.attrs_values)
            (λ j h. sym (
              Entries-lookup committed _ j (number_at committed j) entries
                (lookup-number_at committed j (ap (contains j) names ∙ h))))
        ∙ sym masked.hashed

    -- The issuer's check of a proof with these responses.
    pub check_blinded-responses :
        (u v_prime nonce : BigNumber) (hidden : List String)
        → Rep u (secrets_product lib pk residues key values distinct in_key in_key' v_prime)
        → hidden ≡ hidden_names values.attrs_values
        → (m_caps r_caps : Map BigNumber)
        → ((j : String)
            → contains j (hidden_names values.attrs_values) ≡ true
            → lookup j m_caps ≡ some (mt j +ℤ c *ℤ value_at values.attrs_values j))
        → ((j : String)
            → contains j (committed_names values.attrs_values) ≡ true
            → (lookup j m_caps ≡ some (mt j +ℤ c *ℤ v_of j))
              × (lookup j r_caps ≡ some (rt j +ℤ c *ℤ b_of j)))
        → lib.from_digest (concat_bytes lib (t.values ++ (u ∷ t.u_tilde ∷ nonce ∷ [])) ∷ []) ≡ c
        → check_blinded_credential_secrets_correctness_proof lib u hidden committed
            (record {
              c = c;
              v_dash_cap = c *ℤ v_prime +ℤ v_tilde;
              m_caps = m_caps;
              r_caps = r_caps;
            })
            nonce
            pk
          ≡ ok tt
    unfolding check_blinded_credential_secrets_correctness_proof get_hash_as_int
    check_blinded-responses u v_prime nonce hidden u-Rep hidden_is m_caps r_caps has has' digest =
        let big_u = secrets_product lib pk residues key values distinct in_key in_key' v_prime in
        let u_power = zpow group (inv big_u) c in
        let v_cap = c *ℤ v_prime +ℤ v_tilde in
        let s_power = zpow group key.s v_cap in
        let u_back : u_cap_loop lib pk m_caps (hidden_names values.attrs_values)
              (ok (val (u_power ⊙ s_power)))
            ≡ ok t.u_tilde =
          u_cap_loop-product lib pk residues key m_caps _ (hidden_names values.attrs_values)
            (u_power ⊙ s_power) in_key has
          ∙ ap ok (
              ap val (
                u_cap_product lib pk residues key values distinct in_key in_key' c v_prime v_tilde
                  (value_at values.attrs_values) mt _)
              ∙ sym masked.product) in
        rw
          (
            inverse-Rep lib pk.n residues u big_u u-Rep,
            mod_exp-Rep lib pk.n residues (val (inv big_u)) (inv big_u) c (val-Rep (inv big_u)),
            mod_exp-Rep lib pk.n residues pk.s key.s v_cap key.s-Rep,
            mod_mul-Rep lib pk.n residues (val u_power) (val s_power) u_power s_power
                (val-Rep u_power) (val-Rep s_power),
            hidden_is,
            u_back,
            commitment_cap_loop-pairs lib pk residues key
                (record { c = c; v_dash_cap = v_cap; m_caps = m_caps; r_caps = r_caps }) v_of b_of
                mt rt committed entries (λ j h. (has' j (ap (contains j) (sym names) ∙ h)).0)
                (λ j h. (has' j (ap (contains j) (sym names) ∙ h)).1),
            hashed_pairs,
            digest,
            ==ℤ_refl c,
          )
          refl
