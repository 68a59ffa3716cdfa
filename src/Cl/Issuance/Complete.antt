-- ===== src/Cl/Issuance/Complete.antt =====
-- Issuance from the generation of the key on: the calls that issuer and prover make, in their order.
use mathlib.Core.Path.{subst}
use smartchaindb_experiment.Base.{
  ℕ, String, true, false, ◌||◌, none, some, List, ◌≡◌, refl, sym, ◌∙◌, arith,
}
use smartchaindb_experiment.Base.Int.{ℤ, pos, ◌*ℤ◌, ◌==ℤ◌}
use smartchaindb_experiment.Base.Maps.{Map, keys, contains_key}
use smartchaindb_experiment.Base.Sets.{contains, Distinct, is_empty}
use smartchaindb_experiment.Base.Outcome.{ok}
use smartchaindb_experiment.Group.{zpow}
use smartchaindb_experiment.Bn.{BigNumber, Bytes, OpenSsl, Residues, rshift1, generate_safe_prime}
use smartchaindb_experiment.Cl.Types.{
  CredentialSchema, NonCredentialSchema, CredentialValue, CredentialValues,
  CredentialPrimaryPublicKey, CredentialPrimaryPrivateKey, PrimaryCredentialSignature,
  SignatureCorrectnessProof, large_e_start_value,
}
use smartchaindb_experiment.Cl.Rand.{Draws}
use smartchaindb_experiment.Cl.Rand
use smartchaindb_experiment.Cl.Range.{Ranges, generate_prime_in_range}
use smartchaindb_experiment.Cl.Credential.{IsSigned}
use smartchaindb_experiment.Cl.Teq.Laws.{KeyRep}
use smartchaindb_experiment.Cl.Keys.{
  CredentialPrimaryPublicKeyMetadata, CredentialKeyCorrectnessProof, large_prime,
}
use smartchaindb_experiment.Cl.Keys.Complete.{
  IsGenerated, key_with, check-new_key_correctness, new_credential_primary_keys-IsGenerated,
}
use smartchaindb_experiment.Cl.Blind.{BlindedCredentialSecretsCorrectnessProof}
use smartchaindb_experiment.Cl.Blind.Names.{hidden_names-keys, committed_names-keys}
use smartchaindb_experiment.Cl.Sign.{sign_credential, process_credential_signature}
use smartchaindb_experiment.Cl.Sign.Bits.{large_e_end_range_value}
use smartchaindb_experiment.Cl.Sign.Names.{
  signed_names, signed_names-keys, contains-signed_names, known_names,
}
use smartchaindb_experiment.Cl.Sign.Signed.{HasOrder, zpow-HasOrder, IsKeyPair, IsKnownPart}
use smartchaindb_experiment.Cl.Sign.Correct.{ExponentLaws}
use smartchaindb_experiment.Cl.Sign.Complete.{IsExponent, process-sign-blind}
use smartchaindb_experiment.Cl.Verifier.Checks.{NonRevocation, CredentialPublicKey}
use smartchaindb_experiment.Cl.Issuance.{
  RevocationIssuer, BlindedCredentialSecrets, CredentialSecretsBlindingFactors, new_credential_def,
  revocation_keys, blind_credential_secrets, blinded_revocation,
}

known_names-keys :
    (m : Map CredentialValue) (j : String)
    → contains j (known_names m) ≡ true
    → contains_key j m ≡ true
known_names-keys m j h = signed_names-keys m j (ground (arith, contains-signed_names m j))

-- The two parts of a generated key belong together, once the square has the order.
generated-IsKeyPair :
    (lib : OpenSsl) (pk : CredentialPrimaryPublicKey) (residues : Residues lib pk.n)
    → (key : KeyRep lib pk residues) (meta : CredentialPrimaryPublicKeyMetadata)
    → IsGenerated lib pk residues key meta
    → (sk : CredentialPrimaryPrivateKey) → HasOrder residues.group (sk.p *ℤ sk.q) key.s
    → ((a : residues.group.Carrier) → (residues.val a ==ℤ pos 0) ≡ false)
    → IsKeyPair lib pk sk residues key
generated-IsKeyPair lib pk residues key meta generated sk order nonzero =
    let m = sk.p *ℤ sk.q in
    let power : (x : residues.group.Carrier) (a : ℤ)
        → x ≡ zpow residues.group key.s a
        → HasOrder residues.group m x =
      λ x a e.
        subst (HasOrder residues.group m) (sym e) (zpow-HasOrder residues.group m key.s a order) in
    record {
      val_nonzero = nonzero;
      z_order = power key.z meta.xz generated.z_power;
      s_order = order;
      rctxt_order = power key.rctxt generated.rctxt_exponent generated.rctxt_power;
      r_order = λ k. power (key.r k) _ (generated.r_power k);
    }

abbrev pub halves : BigNumber → BigNumber → CredentialPrimaryPrivateKey
halves p_safe q_safe = record { p = rshift1 p_safe; q = rshift1 q_safe }

module _ (lib : OpenSsl) (types : NonRevocation) (revocation : RevocationIssuer types)
    (cred_schema : CredentialSchema) (non_cred_schema : NonCredentialSchema)
    (p_safe q_safe : BigNumber) (residues : Residues lib (p_safe *ℤ q_safe))
    (values issuer_values : CredentialValues) where
  open residues use {group, val, Rep}

  abbrev pub public_key :
      BigNumber → BigNumber → Map BigNumber → BigNumber → CredentialPublicKey types
  public_key square rctxt r z = record {
    p_key = key_with (p_safe *ℤ q_safe) square rctxt r z;
    r_key = none;
  }

  -- Issuance from the generation of the key on, with no revocation. Let the schema have an
  -- attribute, let the two primes p_safe = 2p + 1 and q_safe = 2q + 1 be found, let the square that
  -- is drawn be a residue with an inverse and with an order that divides p * q, let no such residue
  -- be zero, and let `mod_mul` and `mod_sub` be right modulo p * q. Let every value be of a name of
  -- the schemas, let the issuer know of the prover's values the known ones, and let the search find,
  -- within its rounds, a prime that has an inverse modulo p * q. Then, whatever else is drawn and
  -- whatever the nonces, `new_credential_def` returns a key and a proof about it,
  -- `blind_credential_secrets` accepts that proof and returns blinded secrets with a proof,
  -- `sign_credential` accepts that one and returns a signature with a third,
  -- `process_credential_signature` accepts the third, and what it leaves is a signature on all the
  -- known and the hidden values, under their names in any order.
  pub process-sign-blind-new :
      is_empty cred_schema.attrs ≡ false
      → generate_safe_prime lib 0 large_prime ≡ ok p_safe
      → generate_safe_prime lib 1 large_prime ≡ ok q_safe
      → (d : Ranges) (square : BigNumber)
      → lib.ssl_modulus (d 0 (p_safe *ℤ q_safe) *ℤ d 0 (p_safe *ℤ q_safe)) (p_safe *ℤ q_safe)
        ≡ ok square
      → (s : group.Carrier) → Rep square s
      → HasOrder group (rshift1 p_safe *ℤ rshift1 q_safe) s
      → ((a : group.Carrier) → (val a ==ℤ pos 0) ≡ false)
      → ExponentLaws lib (rshift1 p_safe *ℤ rshift1 q_safe)
      → IsKnownPart issuer_values.attrs_values values.attrs_values
      → Distinct (keys values.attrs_values)
      → Distinct (keys issuer_values.attrs_values)
      → ((j : String)
          → contains_key j values.attrs_values ≡ true
          → (contains j cred_schema.attrs || contains j non_cred_schema.attrs) ≡ true)
      → (d1 d3 : Draws) (r r' : Ranges) (prover_id : Bytes) (nonce issuance_nonce : BigNumber)
      → (rounds : ℕ) (e i k : BigNumber) → IsExponent lib (halves p_safe q_safe) e i k
      → (names : List String) → Distinct names
      → ((j : String) → contains j names ≡ contains j (signed_names values.attrs_values))
      → generate_prime_in_range lib large_e_start_value large_e_end_range_value rounds r
        ≡ some (ok (e, r'))
      → (rctxt z : BigNumber) × (m : Map BigNumber) × (key : KeyRep lib
          (key_with (p_safe *ℤ q_safe) square rctxt m z)
          residues)
        × (key_proof : CredentialKeyCorrectnessProof) × (d' : Ranges)
        × (secrets : BlindedCredentialSecrets lib types revocation)
        × (factors : CredentialSecretsBlindingFactors lib types revocation)
        × (blinded_proof : BlindedCredentialSecretsCorrectnessProof) × (d2 : Draws)
        × (signature : PrimaryCredentialSignature) × (proof : SignatureCorrectnessProof)
        × (r'' : Ranges) × (new_credential_def lib types revocation cred_schema non_cred_schema
              false d
            ≡ ok (
              (
                public_key square rctxt m z,
                record { p_key = halves p_safe q_safe; r_key = none },
                key_proof,
              ),
              d',
            ))
        × (blind_credential_secrets lib types revocation
              (public_key square rctxt m z)
              key_proof
              values
              nonce
              d1
            ≡ ok ((secrets, factors, blinded_proof), d2))
        × (sign_credential lib prover_id secrets.u secrets.hidden_attributes
              secrets.committed_attributes blinded_proof nonce issuance_nonce issuer_values
              (public_key square rctxt m z).p_key
              (halves p_safe q_safe)
              rounds
              d3
              r
            ≡ some (ok ((signature, proof), r'')))
        × ((process_credential_signature lib signature values proof factors.v_prime
              (public_key square rctxt m z).p_key
              issuance_nonce).0
            ≡ ok tt)
        × IsSigned lib
            (key_with (p_safe *ℤ q_safe) square rctxt m z)
            residues
            key
            (process_credential_signature lib signature values proof factors.v_prime
              (public_key square rctxt m z).p_key
              issuance_nonce).1
            values.attrs_values
            names
  unfolding new_credential_def revocation_keys blind_credential_secrets blinded_revocation
  process-sign-blind-new has_attrs first second d square squared s s-Rep order nonzero laws known
        distinct issuer_distinct in_schemas d1 d3 r r' prover_id nonce issuance_nonce rounds e i k
        exponent names distinct' same found =
      let sk = halves p_safe q_safe in
      let (rctxt, z, m, meta, d0, ran, same_keys, key, same_s, generated) =
        new_credential_primary_keys-IsGenerated lib cred_schema non_cred_schema p_safe q_safe
          residues d square has_attrs first second squared s s-Rep in
      let pk = key_with (p_safe *ℤ q_safe) square rctxt m z in
      let (key_proof, d', proved_key, checked_key) =
        check-new_key_correctness lib pk residues key meta generated sk d0 in
      let pair =
        generated-IsKeyPair lib pk residues key meta generated sk
          (subst (HasOrder group (sk.p *ℤ sk.q)) (sym same_s) order) nonzero in
      let in_key : (j : String)
          → contains_key j values.attrs_values ≡ true
          → contains_key j m ≡ true =
        λ j h. same_keys j ∙ in_schemas j h in
      let (
        factors, blinded_proof, signature, proof, d2, r'', blinded, proved, signed, processed,
        is_signed,
      ) =
        process-sign-blind lib pk residues key sk pair laws values issuer_values known distinct
          issuer_distinct (λ j h. in_key j (signed_names-keys values.attrs_values j h))
          (λ j h. in_key j (known_names-keys values.attrs_values j h))
          (λ j h. in_key j (hidden_names-keys values.attrs_values j h))
          (λ j h. in_key j (committed_names-keys values.attrs_values j h)) d1 (Rand.later d1) d3 r
          r' prover_id nonce issuance_nonce rounds e i k exponent names distinct' same found in
      (
        rctxt,
        z,
        m,
        key,
        key_proof,
        d',
        record {
          u = factors.u;
          ur = none;
          hidden_attributes = factors.hidden_attributes;
          committed_attributes = factors.committed_attributes;
        },
        record { v_prime = factors.v_prime; vr_prime = none },
        blinded_proof,
        d2,
        signature,
        proof,
        r'',
        rw (ran, proved_key) refl,
        rw (checked_key, blinded, proved) refl,
        signed,
        processed,
        is_signed,
      )
