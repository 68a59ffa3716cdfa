-- ===== src/Examples/GeneratedClaims.antt =====
-- The theorem on issuance from the generation of the key on, applied to small primes.
use smartchaindb_experiment.Base.{◌||◌, String, true, false, some, none, [], ◌∷◌, ◌≡◌, refl, arith}
use smartchaindb_experiment.Base.Int.{pos, ◌*ℤ◌, ◌==ℤ◌}
use smartchaindb_experiment.Base.Maps.{Map, contains_key}
use smartchaindb_experiment.Base.Sets.{contains}
use smartchaindb_experiment.Base.Outcome.{ok, err, invalid_state}
use smartchaindb_experiment.Bn.{BigNumber, Residues, rshift1}
use smartchaindb_experiment.Cl.Types.{PrimaryCredentialSignature, SignatureCorrectnessProof}
use smartchaindb_experiment.Cl.Rand.{Draws}
use smartchaindb_experiment.Cl.Range.{Ranges, later}
use smartchaindb_experiment.Cl.Credential.{IsSigned}
use smartchaindb_experiment.Cl.Teq.Laws.{KeyRep}
use smartchaindb_experiment.Cl.Keys.{CredentialKeyCorrectnessProof}
use smartchaindb_experiment.Cl.Keys.Complete.{key_with}
use smartchaindb_experiment.Cl.Blind.{BlindedCredentialSecretsCorrectnessProof}
use smartchaindb_experiment.Cl.Sign.{sign_credential, process_credential_signature}
use smartchaindb_experiment.Cl.Sign.Signed.{HasOrder}
use smartchaindb_experiment.Cl.Sign.Correct.{ExponentLaws}
use smartchaindb_experiment.Cl.Sign.Complete.{IsExponent}
use smartchaindb_experiment.Cl.Issuance.{
  RevocationIssuer, BlindedCredentialSecrets, CredentialSecretsBlindingFactors, new_credential_def,
  blind_credential_secrets,
}
use smartchaindb_experiment.Cl.Issuance.Complete.{halves, process-sign-blind-new}
use smartchaindb_experiment.Examples.Zmod.{zmod, residue-pos}
use smartchaindb_experiment.Examples.Key.{residues, s_unit, schema, non_schema, values}
use smartchaindb_experiment.Examples.VerifierClaims.{no_revocation}
use smartchaindb_experiment.Examples.KeyClaims.{twos, first_prime, second_prime, square_four}
use smartchaindb_experiment.Examples.IssueClaims.{
  issuer_values, names, ones, e, k, numbers, value_nonzero, known_part, laws, same_names, exponent,
  found, s_order,
}

abbrev no_issuer : RevocationIssuer no_revocation
no_issuer = record {
  PointG1 = Unit;
  GroupOrderElement = Unit;
  CredentialRevocationPrivateKey = Unit;
  new_credential_revocation_keys = err invalid_state;
  generate_blinded_revocation_credential_secrets = λ pk. err invalid_state;
}

unfoldable generated_residues : Residues zmod (pos 5 *ℤ pos 7)
unfolding ◌*ℤ◌
generated_residues = residues

generated_s : generated_residues.group.Carrier
unfolding ◌*ℤ◌ generated_residues
generated_s = s_unit

generated_s-Rep : generated_residues.Rep (pos 4) generated_s
unfolding ◌*ℤ◌ generated_residues generated_s
generated_s-Rep = residue-pos 33 4 (omega arith)

generated_s-HasOrder :
    HasOrder generated_residues.group (rshift1 (pos 5) *ℤ rshift1 (pos 7)) generated_s
unfolding ◌*ℤ◌ generated_residues generated_s rshift1
generated_s-HasOrder = s_order

generated_nonzero :
    (a : generated_residues.group.Carrier) → (generated_residues.val a ==ℤ pos 0) ≡ false
unfolding ◌*ℤ◌ generated_residues
generated_nonzero a = value_nonzero a.value a.inverse_value a.cancel

half_laws : ExponentLaws zmod (rshift1 (pos 5) *ℤ rshift1 (pos 7))
unfolding rshift1
half_laws = laws

in_schemas :
    (j : String)
    → contains_key j values.attrs_values ≡ true
    → (contains j schema.attrs || contains j non_schema.attrs) ≡ true
in_schemas j h = ground (arith, h)

half-IsExponent : IsExponent zmod (halves (pos 5) (pos 7)) e (pos 5) k
unfolding rshift1
half-IsExponent = exponent

process-sign-blind-new_example :
    (rctxt z : BigNumber) × (m : Map BigNumber) × (key : KeyRep zmod
      (key_with (pos 5 *ℤ pos 7) (pos 4) rctxt m z)
      generated_residues)
    × (key_proof : CredentialKeyCorrectnessProof) × (d' : Ranges)
    × (secrets : BlindedCredentialSecrets zmod no_revocation no_issuer)
    × (factors : CredentialSecretsBlindingFactors zmod no_revocation no_issuer)
    × (blinded_proof : BlindedCredentialSecretsCorrectnessProof) × (d2 : Draws)
    × (signature : PrimaryCredentialSignature) × (proof : SignatureCorrectnessProof)
    × (r'' : Ranges) × (new_credential_def zmod no_revocation no_issuer schema non_schema false twos
        ≡ ok (
          (
            record { p_key = key_with (pos 5 *ℤ pos 7) (pos 4) rctxt m z; r_key = none },
            record { p_key = halves (pos 5) (pos 7); r_key = none },
            key_proof,
          ),
          d',
        ))
    × (blind_credential_secrets zmod no_revocation no_issuer
          (record { p_key = key_with (pos 5 *ℤ pos 7) (pos 4) rctxt m z; r_key = none })
          key_proof
          values
          (pos 12)
          numbers
        ≡ ok ((secrets, factors, blinded_proof), d2))
    × (sign_credential zmod
          (1 ∷ [])
          secrets.u
          secrets.hidden_attributes
          secrets.committed_attributes
          blinded_proof
          (pos 12)
          (pos 13)
          issuer_values
          (key_with (pos 5 *ℤ pos 7) (pos 4) rctxt m z)
          (halves (pos 5) (pos 7))
          1
          numbers
          ones
        ≡ some (ok ((signature, proof), r'')))
    × ((process_credential_signature zmod signature values proof factors.v_prime
          (key_with (pos 5 *ℤ pos 7) (pos 4) rctxt m z)
          (pos 13)).0
        ≡ ok tt)
    × IsSigned zmod
        (key_with (pos 5 *ℤ pos 7) (pos 4) rctxt m z)
        generated_residues
        key
        (process_credential_signature zmod signature values proof factors.v_prime
          (key_with (pos 5 *ℤ pos 7) (pos 4) rctxt m z)
          (pos 13)).1
        values.attrs_values
        names
process-sign-blind-new_example =
    process-sign-blind-new zmod no_revocation no_issuer schema non_schema (pos 5) (pos 7)
      generated_residues values issuer_values refl first_prime second_prime twos (pos 4) square_four
      generated_s generated_s-Rep generated_s-HasOrder generated_nonzero half_laws known_part
      (refl, (refl, (refl, tt))) (refl, (refl, tt)) in_schemas numbers numbers ones (later ones)
      (1 ∷ []) (pos 12) (pos 13) 1 e (pos 5) k half-IsExponent names (refl, (refl, (refl, tt)))
      same_names found
