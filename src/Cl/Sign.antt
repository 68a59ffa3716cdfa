-- ===== src/Cl/Sign.antt =====
-- The issuer's signature on blinded secrets and known values, its proof that the signature is well
-- made, and what the prover does with both: `_gen_credential_context`, `_new_primary_credential`,
-- `_sign_primary_credential`, `_new_signature_correctness_proof` and `sign_credential` of
-- ursa_Master/libursa/src/cl/issuer.rs; `_process_primary_credential`,
-- `_check_signature_correctness_proof` and `process_credential_signature` of libursa/src/cl/prover.rs;
-- `encode_attribute`, `generate_v_prime_prime` and `bitwise_or_big_int` of libursa/src/cl/helpers.rs.
pub mod Context
pub mod Bits
pub mod Names
pub mod Signed
pub mod Correct
pub mod Complete
use smartchaindb_experiment.Base.{
  ℕ, String, true, false, ◌||◌, ◌&&◌, not, if◌then◌else◌, Option, none, some, List, [], ◌∷◌,
}
use smartchaindb_experiment.Base.Int.{pos, ◌+ℤ◌, ◌*ℤ◌, ◌==ℤ◌}
use smartchaindb_experiment.Base.Maps.{Map, lookup, contains_key}
use smartchaindb_experiment.Base.Outcome.{
  UrsaCryptoResult, ok, err, panicked, ok_or, fail_if, index, invalid_structure, ◌>>=◌, ◌>>◌,
}
use smartchaindb_experiment.Bn.{
  BigNumber, Bytes, OpenSsl, mod_exp, mod_mul, mod_div, mod_sub, inverse, get_hash_as_int,
  concat_bytes, get_pedersen_commitment,
}
use smartchaindb_experiment.Cl.Types.{
  CredentialValue, CredentialValues, is_known, is_hidden, value, CredentialPrimaryPublicKey,
  CredentialPrimaryPrivateKey, PrimaryCredentialSignature, SignatureCorrectnessProof,
  large_e_start_value,
}
use smartchaindb_experiment.Cl.Rand.{Draws}
use smartchaindb_experiment.Cl.Range.{Ranges, Ranged, bn_rand_range, generate_prime_in_range}
use smartchaindb_experiment.Cl.Range
use smartchaindb_experiment.Cl.Blind.{
  BlindedCredentialSecretsCorrectnessProof, check_blinded_credential_secrets_correctness_proof,
}
use smartchaindb_experiment.Cl.Sign.Context.{gen_credential_context}
use smartchaindb_experiment.Cl.Sign.Bits.{generate_v_prime_prime, large_e_end_range_value}

-- What follows a search, once it has returned.
abbrev pub once {ℓ κ} : {A : Type ℓ} {B : Type κ} → Option A → (A → B) → Option B
once none after = none
once (some found) after = some (after found)

-- What follows a call, unless it was left with an error.
abbrev pub unless_failed {ℓ κ} :
    {A : Type ℓ} {B : Type κ}
    → UrsaCryptoResult A
    → (A → Option (UrsaCryptoResult B))
    → Option (UrsaCryptoResult B)
unless_failed (ok a) after = after a
unless_failed (err kind) after = some (err kind)
unless_failed panicked after = some panicked

module _ (lib : OpenSsl) where
  -- The powers of the known values.
  unfoldable pub known_loop :
      CredentialPrimaryPublicKey → Map CredentialValue → BigNumber → UrsaCryptoResult BigNumber
  known_loop pk [] rx = ok rx
  known_loop pk ((key, attr) ∷ values) rx = elim (is_known attr) [
    | true ↦ do
      pk_r ← ok_or (lookup key pk.r) invalid_structure
      power ← mod_exp lib pk_r (value attr) pk.n
      rx' ← mod_mul lib power rx pk.n
      known_loop pk values rx'
    | false ↦ known_loop pk values rx
  ]

  -- `_sign_primary_credential`, of the u of the blinded secrets.
  unfoldable pub sign_primary_credential :
      CredentialPrimaryPublicKey
      → CredentialPrimaryPrivateKey
      → BigNumber
      → CredentialValues
      → BigNumber
      → BigNumber
      → BigNumber
      → UrsaCryptoResult (BigNumber × BigNumber)
  sign_primary_credential pk sk cred_context cred_values v u e = do
    s_power ← mod_exp lib pk.s v pk.n
    rx_u ← if not (u ==ℤ pos 0) then mod_mul lib s_power u pk.n else ok s_power
    context_power ← mod_exp lib pk.rctxt cred_context pk.n
    rx_context ← mod_mul lib rx_u context_power pk.n
    rx ← known_loop pk cred_values.attrs_values rx_context
    q ← mod_div lib pk.z rx pk.n
    let n = sk.p *ℤ sk.q
    e_inverse ← inverse lib e n
    a ← mod_exp lib q e_inverse pk.n
    ok (a, q)

  -- The rest of `_new_primary_credential` once e is found.
  unfoldable pub signed_with :
      CredentialPrimaryPublicKey
      → CredentialPrimaryPrivateKey
      → BigNumber
      → CredentialValues
      → BigNumber
      → BigNumber
      → UrsaCryptoResult (BigNumber × Ranges)
      → UrsaCryptoResult ((PrimaryCredentialSignature × BigNumber) × Ranges)
  signed_with pk sk credential_context cred_values v u found = do
    (e, r) ← found
    (a, q) ← sign_primary_credential pk sk credential_context cred_values v u e
    ok ((record { m_2 = credential_context; a = a; e = e; v = v }, q), r)

  -- `_new_primary_credential`, with a number of rounds for the search of a prime after which it has
  -- not returned.
  unfoldable pub new_primary_credential :
      BigNumber
      → CredentialPrimaryPublicKey
      → CredentialPrimaryPrivateKey
      → BigNumber
      → CredentialValues
      → ℕ
      → Draws
      → Ranges
      → Option (UrsaCryptoResult ((PrimaryCredentialSignature × BigNumber) × Ranges))
  new_primary_credential credential_context pk sk u cred_values rounds d r =
      let v = (generate_v_prime_prime d).0 in
      once (generate_prime_in_range lib large_e_start_value large_e_end_range_value rounds r)
        (signed_with pk sk credential_context cred_values v u)

  -- `_new_signature_correctness_proof`
  unfoldable pub new_signature_correctness_proof :
      CredentialPrimaryPublicKey
      → CredentialPrimaryPrivateKey
      → PrimaryCredentialSignature
      → BigNumber
      → BigNumber
      → Ranged SignatureCorrectnessProof
  new_signature_correctness_proof pk sk signature q nonce =
      let n = sk.p *ℤ sk.q in
      Range.◌>>=◌ (bn_rand_range n) λ r. Range.lift (do
        a_cap ← mod_exp lib q r pk.n
        let values = concat_bytes lib (q ∷ signature.a ∷ a_cap ∷ nonce ∷ [])
        c ← get_hash_as_int lib (values ∷ [])
        e_inverse ← inverse lib signature.e n
        product ← mod_mul lib c e_inverse n
        se ← mod_sub lib r product n
        ok (record { se = se; c = c }))

  -- A value that the signature is on, but that has no number in the key.
  unfoldable pub find_missing : CredentialPrimaryPublicKey → Map CredentialValue → Option String
  find_missing pk [] = none
  find_missing pk ((attr, v) ∷ values) =
      elim ((is_known v || is_hidden v) && not (contains_key attr pk.r)) [
        | true ↦ some attr
        | false ↦ find_missing pk values
      ]

  -- acc? * r_attr^value for the values that the signature is on.
  unfoldable pub rx_step :
      CredentialPrimaryPublicKey
      → String
      → CredentialValue
      → UrsaCryptoResult BigNumber
      → UrsaCryptoResult BigNumber
  rx_step pk attr v acc = do
    x ← acc
    pk_r ← index (lookup attr pk.r)
    power ← mod_exp lib pk_r (value v) pk.n
    mod_mul lib x power pk.n

  unfoldable pub rx_loop :
      CredentialPrimaryPublicKey
      → Map CredentialValue
      → UrsaCryptoResult BigNumber
      → UrsaCryptoResult BigNumber
  rx_loop pk [] acc = acc
  rx_loop pk ((attr, v) ∷ values) acc =
      elim ((is_known v || is_hidden v) && contains_key attr pk.r) [
        | true ↦ rx_loop pk values (rx_step pk attr v acc)
        | false ↦ rx_loop pk values acc
      ]

  unfoldable pub no_missing : Option String → UrsaCryptoResult (Unit {0})
  no_missing none = ok tt
  no_missing (some attr) = err invalid_structure

  -- `_check_signature_correctness_proof`
  unfoldable pub check_signature_correctness_proof :
      PrimaryCredentialSignature
      → CredentialValues
      → SignatureCorrectnessProof
      → CredentialPrimaryPublicKey
      → BigNumber
      → UrsaCryptoResult (Unit {0})
  check_signature_correctness_proof signature cred_values proof pk nonce = do
    e_prime ← lib.ssl_is_prime signature.e
    _ ← fail_if (not e_prime) invalid_structure
    _ ← no_missing (find_missing pk cred_values.attrs_values)
    rx ←
        rx_loop pk cred_values.attrs_values
          (get_pedersen_commitment lib pk.s signature.v pk.rctxt signature.m_2 pk.n)
    q ← mod_div lib pk.z rx pk.n
    expected_q ← mod_exp lib signature.a signature.e pk.n
    _ ← fail_if (not (q ==ℤ expected_q)) invalid_structure
    let degree = proof.c +ℤ proof.se *ℤ signature.e
    a_cap ← mod_exp lib signature.a degree pk.n
    let values = concat_bytes lib (q ∷ signature.a ∷ a_cap ∷ nonce ∷ [])
    c ← get_hash_as_int lib (values ∷ [])
    fail_if (not (proof.c ==ℤ c)) invalid_structure

  -- `_process_primary_credential`
  unfoldable pub process_primary_credential :
      PrimaryCredentialSignature → BigNumber → PrimaryCredentialSignature
  process_primary_credential signature v_prime = record signature { v = v_prime +ℤ signature.v }

  -- `process_credential_signature` of a signature with no revocation part: the result, and the
  -- signature after the call, which is changed also where the check fails.
  unfoldable pub process_credential_signature :
      PrimaryCredentialSignature
      → CredentialValues
      → SignatureCorrectnessProof
      → BigNumber
      → CredentialPrimaryPublicKey
      → BigNumber
      → UrsaCryptoResult (Unit {0}) × PrimaryCredentialSignature
  process_credential_signature signature cred_values proof v_prime pk nonce =
      let processed = process_primary_credential signature v_prime in
      (check_signature_correctness_proof processed cred_values proof pk nonce, processed)

  -- The rest of `sign_credential` once the primary credential is there.
  unfoldable pub proved_with :
      CredentialPrimaryPublicKey
      → CredentialPrimaryPrivateKey
      → BigNumber
      → UrsaCryptoResult ((PrimaryCredentialSignature × BigNumber) × Ranges)
      → UrsaCryptoResult ((PrimaryCredentialSignature × SignatureCorrectnessProof) × Ranges)
  proved_with pk sk nonce signed = do
    ((signature, q), r) ← signed
    (proof, r') ← new_signature_correctness_proof pk sk signature q nonce r
    ok ((signature, proof), r')

  -- `sign_credential`, of u, the hidden and the committed attributes of the blinded secrets.
  unfoldable pub sign_credential :
      Bytes
      → BigNumber
      → List String
      → Map BigNumber
      → BlindedCredentialSecretsCorrectnessProof
      → BigNumber
      → BigNumber
      → CredentialValues
      → CredentialPrimaryPublicKey
      → CredentialPrimaryPrivateKey
      → ℕ
      → Draws
      → Ranges
      → Option
          (UrsaCryptoResult ((PrimaryCredentialSignature × SignatureCorrectnessProof) × Ranges))
  sign_credential prover_id u hidden committed blinded_proof nonce issuance_nonce cred_values pk sk
        rounds d r =
      unless_failed
        (check_blinded_credential_secrets_correctness_proof lib u hidden committed blinded_proof
            nonce pk
          >> gen_credential_context lib prover_id none)
        λ context.
          once (new_primary_credential context pk sk u cred_values rounds d r)
            (proved_with pk sk issuance_nonce)
