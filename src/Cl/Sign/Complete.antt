-- ===== src/Cl/Sign/Complete.antt =====
-- Issuance, completely: blinded secrets, a signature on them, and the prover's processing of it.
use mathlib.Core.Path.{subst}
use smartchaindb_experiment.Base.{
  ℕ, String, true, false, none, some, List, [], ◌∷◌, ◌≡◌, refl, sym, ap, ◌∙◌,
}
use smartchaindb_experiment.Base.Int.{pos, ◌+ℤ◌, ◌*ℤ◌, ◌==ℤ◌}
use smartchaindb_experiment.Base.Maps.{keys}
use smartchaindb_experiment.Base.Sets.{contains, Distinct}
use smartchaindb_experiment.Base.Outcome.{ok}
use smartchaindb_experiment.Group.{zpow}
use smartchaindb_experiment.Bn.{BigNumber, Bytes, OpenSsl, Residues, inverse, concat_bytes}
use smartchaindb_experiment.Cl.Types.{
  CredentialValues, CredentialPrimaryPublicKey, CredentialPrimaryPrivateKey,
  PrimaryCredentialSignature, SignatureCorrectnessProof, large_e_start_value, large_vprime,
}
use smartchaindb_experiment.Cl.Rand.{Draws}
use smartchaindb_experiment.Cl.Rand
use smartchaindb_experiment.Cl.Range.{Ranges, generate_prime_in_range, later}
use smartchaindb_experiment.Cl.Credential.{value_at, Within, IsSigned}
use smartchaindb_experiment.Cl.Teq.Laws.{KeyRep, teq_product}
use smartchaindb_experiment.Cl.Blind.{
  PrimaryBlindedCredentialSecretsFactors, BlindedCredentialSecretsCorrectnessProof, hidden_names,
  generate_blinded_primary_credential_secrets_factors,
  new_blinded_credential_secrets_correctness_proof,
}
use smartchaindb_experiment.Cl.Blind.Names.{committed_names}
use smartchaindb_experiment.Cl.Blind.Honest.{secrets_product}
use smartchaindb_experiment.Cl.Blind.Complete.{check_blinded-new}
use smartchaindb_experiment.Cl.Sign.Context.{gen_credential_context_total}
use smartchaindb_experiment.Cl.Sign.Bits.{generate_v_prime_prime, large_e_end_range_value}
use smartchaindb_experiment.Cl.Sign.{
  sign_credential, new_primary_credential, signed_with, proved_with,
  new_signature_correctness_proof, process_credential_signature, process_primary_credential,
}
use smartchaindb_experiment.Cl.Sign.Names.{known_names, signed_names, signed_names-Distinct}
use smartchaindb_experiment.Cl.Sign.Signed.{
  IsKeyPair, IsKnownPart, hidden_product, quotient, quotient-HasOrder, root_power, root-teq_product,
  sign_primary_credential-root,
}
use smartchaindb_experiment.Cl.Sign.Correct.{
  ExponentLaws, new_signature_correctness-answer, check_signature_correctness-IsSigned,
}

-- What the search of a prime has to find: a prime that has an inverse modulo p * q.
pub record IsExponent (lib : OpenSsl) (sk : CredentialPrimaryPrivateKey) (e d k : BigNumber)
    : Type 0 where
  pub prime : lib.ssl_is_prime e ≡ ok true
  pub inverted : inverse lib e (sk.p *ℤ sk.q) ≡ ok d
  pub is_inverse : e *ℤ d ≡ pos 1 +ℤ k *ℤ (sk.p *ℤ sk.q)

module _ (lib : OpenSsl) (pk : CredentialPrimaryPublicKey) (residues : Residues lib pk.n)
    (key : KeyRep lib pk residues) (sk : CredentialPrimaryPrivateKey)
    (pair : IsKeyPair lib pk sk residues key) (laws : ExponentLaws lib (sk.p *ℤ sk.q))
    (values issuer_values : CredentialValues)
    (known : IsKnownPart issuer_values.attrs_values values.attrs_values)
    (distinct : Distinct (keys values.attrs_values))
    (issuer_distinct : Distinct (keys issuer_values.attrs_values))
    (in_key : Within pk.r (signed_names values.attrs_values))
    (in_key_known : Within pk.r (known_names values.attrs_values)) where
  open residues use {group, val, Rep, val-Rep}
  open group use {Carrier, ◌⊙◌}

  infixl 60 ◌⊙◌
  -- The issuer's part, for u of an honest prover: the signature is processed to one on the values.
  sign_and_process :
      (u v_prime v context e d k nonce : BigNumber) (r : Ranges)
      → IsExponent lib sk e d k
      → Rep u (
          zpow group key.s v_prime ⊙ hidden_product lib pk residues key sk pair values.attrs_values)
      → (u ==ℤ pos 0) ≡ false
      → (signature : PrimaryCredentialSignature) × (q : BigNumber)
        × (proof : SignatureCorrectnessProof) × (signed_with lib pk sk context issuer_values v u
              (ok (e, r))
            ≡ ok ((signature, q), r))
        × (new_signature_correctness_proof lib pk sk signature q nonce r ≡ ok (proof, later r))
        × ((process_credential_signature lib signature values proof v_prime pk nonce).0 ≡ ok tt)
        × ((names : List String)
            → Distinct names
            → ((j : String) → contains j names ≡ contains j (signed_names values.attrs_values))
            → IsSigned lib pk residues key
                (process_credential_signature lib signature values proof v_prime pk nonce).1
                values.attrs_values
                names)
  unfolding signed_with process_credential_signature process_primary_credential
  sign_and_process u v_prime v context e d k nonce r exponent u-Rep nonzero =
      let m = values.attrs_values in
      let q = quotient lib pk residues key sk pair m v_prime v context in
      let order = quotient-HasOrder lib pk residues key sk pair m v_prime v context in
      let a = zpow group q d in
      let root : zpow group a e ≡ q =
        root_power group (sk.p *ℤ sk.q) q e d k order exponent.is_inverse in
      let (proof, proved, hashed) =
        new_signature_correctness-answer lib pk residues key sk laws q e d v context nonce order
          root exponent.inverted r in
      let signed : (names : List String)
          → Distinct names
          → ((j : String) → contains j names ≡ contains j (signed_names m))
          → key.z ≡ teq_product lib pk residues key a e (v_prime +ℤ v) (value_at m) context names =
        λ names distinct' same.
          root-teq_product lib pk residues key sk pair m a v_prime v context e names root distinct
            distinct' same in
      (
        record { m_2 = context; a = val a; e = e; v = v },
        val q,
        proof,
        rw
            (sign_primary_credential-root lib pk residues key sk pair m issuer_values known
              issuer_distinct in_key_known u v_prime v context e d u-Rep nonzero exponent.inverted)
            refl,
        proved,
        check_signature_correctness-IsSigned lib pk residues key values a context e (v_prime +ℤ v)
            nonce proof exponent.prime distinct in_key
            (signed (signed_names m) (signed_names-Distinct m distinct) (λ j. refl))
            (hashed
              ∙ ap
                  (λ y. lib.from_digest (
                    concat_bytes lib
                      (val y ∷ val a ∷ val (zpow group a (proof.c +ℤ proof.se *ℤ e)) ∷ nonce ∷ [])
                    ∷ []))
                  (sym root)),
        λ names distinct' same. record {
          a = a;
          a-Rep = val-Rep a;
          signed = signed names distinct' same;
        },
      )

  -- Issuance, completely. Let the numbers of the key have an order that divides p * q, let `mod_mul`
  -- and `mod_sub` be right modulo p * q, let the key have a number for each hidden, known and
  -- committed value, let the issuer know of the prover's values the known ones, and let the search
  -- find, within its rounds, a prime that has an inverse modulo p * q. Whatever the identifier, the
  -- nonces and the draws, the prover blinds its secrets and proves them, `sign_credential` accepts the
  -- proof and returns a signature with a proof of its own, `process_credential_signature` accepts
  -- that one, and what it leaves is a signature on all the values that are known or hidden, under
  -- their names in any order.
  pub process-sign-blind :
      Within pk.r (hidden_names values.attrs_values)
      → Within pk.r (committed_names values.attrs_values)
      → (d1 d2 d3 : Draws) (r r' : Ranges) (prover_id : Bytes) (nonce issuance_nonce : BigNumber)
      → (rounds : ℕ) (e d k : BigNumber) → IsExponent lib sk e d k
      → (names : List String) → Distinct names
      → ((j : String) → contains j names ≡ contains j (signed_names values.attrs_values))
      → generate_prime_in_range lib large_e_start_value large_e_end_range_value rounds r
        ≡ some (ok (e, r'))
      → (factors : PrimaryBlindedCredentialSecretsFactors)
        × (blinded_proof : BlindedCredentialSecretsCorrectnessProof)
        × (signature : PrimaryCredentialSignature) × (proof : SignatureCorrectnessProof)
        × (d2' : Draws) × (r'' : Ranges) × (generate_blinded_primary_credential_secrets_factors lib
              pk values d1
            ≡ ok (factors, Rand.later d1))
        × (new_blinded_credential_secrets_correctness_proof lib pk factors nonce values d2
            ≡ ok (blinded_proof, d2'))
        × (sign_credential lib prover_id factors.u factors.hidden_attributes
              factors.committed_attributes blinded_proof nonce issuance_nonce issuer_values pk sk
              rounds d3 r
            ≡ some (ok ((signature, proof), r'')))
        × ((process_credential_signature lib signature values proof factors.v_prime pk
              issuance_nonce).0
            ≡ ok tt)
        × IsSigned lib pk residues key
            (process_credential_signature lib signature values proof factors.v_prime pk
              issuance_nonce).1
            values.attrs_values
            names
  unfolding sign_credential new_primary_credential proved_with
  process-sign-blind in_hidden in_committed d1 d2 d3 r r' prover_id nonce issuance_nonce rounds e d
        k exponent names distinct' same found =
      let (factors, blinded, v_is, u_is, proving) =
        check_blinded-new lib pk residues key values distinct in_hidden in_committed d1 in
      let (blinded_proof, d2', proved, accepted) = proving nonce d2 in
      let (context, contextual) = gen_credential_context_total lib prover_id none in
      let big_u =
        secrets_product lib pk residues key values distinct in_hidden in_committed
          (d1 0 large_vprime) in
      let u-Rep : Rep factors.u (
          zpow group key.s factors.v_prime
          ⊙ hidden_product lib pk residues key sk pair values.attrs_values) =
        subst
          (λ w.
            Rep factors.u
              (zpow group key.s w ⊙ hidden_product lib pk residues key sk pair values.attrs_values))
          (sym v_is) (subst (λ x. Rep x big_u) (sym u_is) (val-Rep big_u)) in
      let (signature, q, proof, signed, proved', processed, is_signed) =
        sign_and_process factors.u factors.v_prime (generate_v_prime_prime d3).0 context e d k
          issuance_nonce r' exponent u-Rep (ap (λ x. x ==ℤ pos 0) u_is ∙ pair.val_nonzero big_u) in
      (
        factors,
        blinded_proof,
        signature,
        proof,
        d2',
        later r',
        blinded,
        proved,
        rw (accepted, contextual, found, signed, proved') refl,
        processed,
        is_signed names distinct' same,
      )
