-- ===== src/Cl/Keys/Complete.antt =====
-- A key that the issuer generates is one of which it can prove that it is well made.
use mathlib.Core.Path.{subst}
use smartchaindb_experiment.Base.{
  String, false, ◌||◌, [], ◌∷◌, ◌++◌, map, ◌≡◌, refl, sym, ◌∙◌, arith,
}
use smartchaindb_experiment.Base.Int.{ℤ, pos, ◌+ℤ◌, ◌-ℤ◌, ◌*ℤ◌, ==ℤ_refl}
use smartchaindb_experiment.Base.Maps.{Map, keys, contains_key}
use smartchaindb_experiment.Base.Entries.{
  Entries-lookup, lookup-Entries, entry_values, entry_values-Entries,
}
use smartchaindb_experiment.Base.Sets.{contains, is_empty, Distinct}
use smartchaindb_experiment.Base.Outcome.{ok}
use smartchaindb_experiment.Group.{zpow}
use smartchaindb_experiment.Bn.{
  BigNumber, OpenSsl, Residues, mod_exp-Rep, inverse-Rep, rshift1, generate_safe_prime,
  get_hash_as_int, concat_bytes,
}
use smartchaindb_experiment.Cl.Types.{
  CredentialSchema, NonCredentialSchema, CredentialPrimaryPublicKey, CredentialPrimaryPrivateKey,
}
use smartchaindb_experiment.Cl.Credential.{
  number_at, Entries-number_at, Within-Gives, Gives-of_lookup,
}
use smartchaindb_experiment.Cl.Range.{Ranges, later, gen_x, bn_rand_range, random_qr}
use smartchaindb_experiment.Cl.Teq.Laws.{KeyRep}
use smartchaindb_experiment.Cl.Keys.{
  CredentialPrimaryPublicKeyMetadata, CredentialKeyCorrectnessProof, large_prime,
  new_credential_primary_keys, new_credential_key_correctness_proof,
  check_credential_key_correctness_proof, collect_loop, xr_cap_loop,
}
use smartchaindb_experiment.Cl.Keys.Loops.{
  exponent_loop_total, responses, keys-responses, collect_loop-map, xr_cap_loop-responses,
  check_r_keys-ok, check_names-ok, power_loop_total, commitment_back, cap_loop-responses,
}

-- The numbers of the key are the powers of s that the metadata says.
pub record IsGenerated (lib : OpenSsl) (pk : CredentialPrimaryPublicKey)
    (residues : Residues lib pk.n) (key : KeyRep lib pk residues)
    (meta : CredentialPrimaryPublicKeyMetadata) : Type 0 where
  pub distinct : Distinct (keys pk.r)
  pub same_names : (j : String) → contains_key j meta.xr ≡ contains_key j pk.r
  pub z_power : key.z ≡ zpow residues.group key.s meta.xz
  pub r_power : (j : String) → key.r j ≡ zpow residues.group key.s (number_at meta.xr j)
  pub rctxt_exponent : ℤ
  pub rctxt_power : key.rctxt ≡ zpow residues.group key.s rctxt_exponent

module _ (lib : OpenSsl) (pk : CredentialPrimaryPublicKey) (residues : Residues lib pk.n)
    (key : KeyRep lib pk residues) (meta : CredentialPrimaryPublicKeyMetadata)
    (generated : IsGenerated lib pk residues key meta) where
  open residues use {group, val, val-Rep}

  -- The prover accepts the proof of a key whose numbers are powers of s.
  pub check-new_key_correctness :
      (sk : CredentialPrimaryPrivateKey) (d : Ranges)
      → (proof : CredentialKeyCorrectnessProof) × (d' : Ranges)
        × (new_credential_key_correctness_proof lib pk sk meta d ≡ ok (proof, d'))
        × (check_credential_key_correctness_proof lib pk proof ≡ ok tt)
  unfolding new_credential_key_correctness_proof check_credential_key_correctness_proof gen_x
      bn_rand_range get_hash_as_int
  check-new_key_correctness sk d =
      let names = keys pk.r in
      let t_z = d 0 (sk.p *ℤ sk.q -ℤ pos 3) +ℤ pos 2 in
      let (xr_tilda, d', drawn, distinct, same) =
        exponent_loop_total sk.p sk.q names [] (later d) tt in
      let t = number_at xr_tilda in
      let x = number_at meta.xr in
      let power : String → BigNumber = λ k. val (zpow group key.s (t k)) in
      let (r_tilda, powered, entries, distinct', same') =
        power_loop_total lib pk.n residues pk.s key.s key.s-Rep t xr_tilda []
          (Entries-number_at xr_tilda distinct) tt tt in
      let z_tilda = val (zpow group key.s t_z) in
      let numbers = map (number_at pk.r) names in
      let c =
        lib.from_digest (concat_bytes lib (pk.z ∷ numbers ++ (z_tilda ∷ map power names)) ∷ []) in
      let collected : collect_loop r_tilda names ≡ ok (map power names) =
        collect_loop-map r_tilda power names (
          Gives-of_lookup r_tilda power names
            (λ j h. lookup-Entries r_tilda power j entries (ground (arith, same' j, same j)))) in
      let own : entry_values pk.r ≡ numbers =
        entry_values-Entries pk.r (number_at pk.r) (Entries-number_at pk.r generated.distinct) in
      let responded : xr_cap_loop c meta.xr xr_tilda names ≡ ok (responses c x t names) =
        xr_cap_loop-responses c meta.xr xr_tilda x t names
          (Within-Gives meta.xr names (λ k h. generated.same_names k ∙ h))
          (Within-Gives xr_tilda names (λ k h. ground (arith, same k))) in
      (
        record { c = c; xz_cap = c *ℤ meta.xz +ℤ t_z; xr_cap = responses c x t names },
        d',
        rw
            (
              drawn,
              mod_exp-Rep lib pk.n residues pk.s key.s t_z key.s-Rep,
              powered,
              collected,
              own,
              responded,
            )
            refl,
        rw
            (
              keys-responses c x t names,
              check_r_keys-ok names names (λ j h. h),
              check_names-ok pk.r names (λ j h. h),
              inverse-Rep lib pk.n residues pk.z key.z key.z-Rep,
              commitment_back lib pk.n residues pk.z pk.s key.s key.z c meta.xz t_z key.z-Rep
                  key.s-Rep generated.z_power,
              cap_loop-responses lib pk residues key c x t names
                  (Within-Gives pk.r names (λ k h. h)) (λ j h. generated.r_power j),
              ==ℤ_refl c,
            )
            refl,
      )

-- A key with these numbers.
abbrev pub key_with :
    BigNumber → BigNumber → BigNumber → Map BigNumber → BigNumber → CredentialPrimaryPublicKey
key_with n s rctxt r z = record { n = n; s = s; rctxt = rctxt; r = r; z = z }

module _ (lib : OpenSsl) (cred_schema : CredentialSchema) (non_cred_schema : NonCredentialSchema)
    (p_safe q_safe : BigNumber) (residues : Residues lib (p_safe *ℤ q_safe)) (d : Ranges)
    (square : BigNumber) where
  open residues use {group, val, Rep, val-Rep}
  open group use {Carrier}

  abbrev n : BigNumber
  n = p_safe *ℤ q_safe

  -- The generator returns a key for every name of the schemas, of which every number is a power of
  -- the square that was drawn.
  pub new_credential_primary_keys-IsGenerated :
      is_empty cred_schema.attrs ≡ false
      → generate_safe_prime lib 0 large_prime ≡ ok p_safe
      → generate_safe_prime lib 1 large_prime ≡ ok q_safe
      → lib.ssl_modulus (d 0 n *ℤ d 0 n) n ≡ ok square
      → (s : Carrier) → Rep square s
      → (rctxt z : BigNumber) × (r : Map BigNumber) × (meta : CredentialPrimaryPublicKeyMetadata)
        × (d' : Ranges) × (new_credential_primary_keys lib cred_schema non_cred_schema d
            ≡ ok (
              (
                key_with n square rctxt r z,
                record { p = rshift1 p_safe; q = rshift1 q_safe },
                meta,
              ),
              d',
            ))
        × ((j : String)
            → contains_key j r ≡ (contains j cred_schema.attrs || contains j non_cred_schema.attrs))
        × (key : KeyRep lib (key_with n square rctxt r z) residues) × (key.s ≡ s)
        × IsGenerated lib (key_with n square rctxt r z) residues key meta
  unfolding new_credential_primary_keys random_qr gen_x bn_rand_range
  new_credential_primary_keys-IsGenerated has_attrs first second squared s s-Rep =
      let p = rshift1 p_safe in
      let q = rshift1 q_safe in
      let xz = d 1 (p *ℤ q -ℤ pos 3) +ℤ pos 2 in
      let (xr', d1, drawn', distinct', same') =
        exponent_loop_total p q non_cred_schema.attrs [] (later (later d)) tt in
      let (xr, d2, drawn, distinct, same) =
        exponent_loop_total p q cred_schema.attrs xr' d1 distinct' in
      let x : String → ℤ = number_at xr in
      let (r, powered, entries, distinct'', same'') =
        power_loop_total lib n residues square s s-Rep x xr [] (Entries-number_at xr distinct) tt
          tt in
      let x_c = d2 0 (p *ℤ q -ℤ pos 3) +ℤ pos 2 in
      (
        val (zpow group s x_c),
        val (zpow group s xz),
        r,
        record { xz = xz; xr = xr },
        later d2,
        rw
            (
              has_attrs,
              first,
              second,
              squared,
              drawn',
              drawn,
              powered,
              mod_exp-Rep lib n residues square s xz s-Rep,
              mod_exp-Rep lib n residues square s x_c s-Rep,
            )
            refl,
        λ j. ground (arith, same'' j, same j, same' j),
        record {
          z = zpow group s xz;
          s = s;
          rctxt = zpow group s x_c;
          r = λ k. zpow group s (x k);
          z-Rep = val-Rep (zpow group s xz);
          s-Rep = s-Rep;
          rctxt-Rep = val-Rep (zpow group s x_c);
          r-Rep = λ k y e.
              subst (λ b. Rep b (zpow group s (x k))) (sym (Entries-lookup r _ k y entries e))
                (val-Rep (zpow group s (x k)));
        },
        refl,
        record {
          distinct = distinct'';
          same_names = λ j. ground (arith, same'' j);
          z_power = refl;
          r_power = λ j. refl;
          rctxt_exponent = x_c;
          rctxt_power = refl;
        },
      )

  -- Key generation, completely. Let the schema have an attribute, let the two primes be found, and
  -- let the square that is drawn be a residue that has an inverse. Whatever the other draws,
  -- `_new_credential_primary_keys` returns a key of n = p_safe * q_safe that has a number for
  -- exactly the names of the two schemas, `_new_credential_key_correctness_proof` returns a proof,
  -- and `_check_credential_key_correctness_proof` accepts it.
  pub check-new_credential_keys :
      is_empty cred_schema.attrs ≡ false
      → generate_safe_prime lib 0 large_prime ≡ ok p_safe
      → generate_safe_prime lib 1 large_prime ≡ ok q_safe
      → lib.ssl_modulus (d 0 n *ℤ d 0 n) n ≡ ok square
      → (s : Carrier) → Rep square s
      → (pk : CredentialPrimaryPublicKey) × (sk : CredentialPrimaryPrivateKey)
        × (meta : CredentialPrimaryPublicKeyMetadata) × (d' : Ranges) × (new_credential_primary_keys
              lib cred_schema non_cred_schema d
            ≡ ok ((pk, sk, meta), d'))
        × (pk.n ≡ n)
        × ((j : String)
            → contains_key j pk.r
              ≡ (contains j cred_schema.attrs || contains j non_cred_schema.attrs))
        × ((d1 : Ranges)
            → (proof : CredentialKeyCorrectnessProof) × (d2 : Ranges)
              × (new_credential_key_correctness_proof lib pk sk meta d1 ≡ ok (proof, d2))
              × (check_credential_key_correctness_proof lib pk proof ≡ ok tt))
  check-new_credential_keys has_attrs first second squared s s-Rep =
      let (rctxt, z, r, meta, d', ran, same, key, same_s, generated) =
        new_credential_primary_keys-IsGenerated has_attrs first second squared s s-Rep in
      let sk : CredentialPrimaryPrivateKey = record { p = rshift1 p_safe; q = rshift1 q_safe } in
      (
        key_with n square rctxt r z,
        sk,
        meta,
        d',
        ran,
        refl,
        same,
        λ d1.
            check-new_key_correctness lib (key_with n square rctxt r z) residues key meta generated
              sk d1,
      )
