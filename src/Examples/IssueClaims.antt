-- ===== src/Examples/IssueClaims.antt =====
-- The theorems on issuance applied to blinded secrets and known values under a small key.
use native.Mathlib.Nat.{zero-mul}
use mathlib.Core.Path.{subst}
use text.Mathlib.TextEquality.{eq_iff}
use smartchaindb_experiment.Base.{
  ◌||◌, ℕ, suc, zero, ◌+◌, ◌*◌, ◌-◌, ◌/◌, ◌^◌, ◌%◌, if◌then◌else◌, String, Bool, true, false, some,
  List, [], ◌∷◌, ◌≡◌, refl, sym, ap, ◌∙◌, arith,
}
use smartchaindb_experiment.Base.Int.{pos, ◌+ℤ◌, ◌-ℤ◌, ◌*ℤ◌, ◌==ℤ◌}
use smartchaindb_experiment.Base.Sets.{contains}
use smartchaindb_experiment.Base.Outcome.{ok}
use smartchaindb_experiment.Group.{zpow, npow, ratio}
use smartchaindb_experiment.Bn.{BigNumber, inverse}
use smartchaindb_experiment.Cl.Types.{
  CredentialValue, CredentialValues, CredentialPrimaryPrivateKey, PrimaryCredentialSignature,
  SignatureCorrectnessProof, large_e_start_value, value, is_hidden, is_known,
}
use smartchaindb_experiment.Cl.Rand.{Draws}
use smartchaindb_experiment.Cl.Rand
use smartchaindb_experiment.Cl.Range.{Ranges, generate_prime_in_range, prime_loop, later}
use smartchaindb_experiment.Cl.Credential.{value_at, Within, IsSigned}
use smartchaindb_experiment.Cl.Sign.Bits.Or.{bitwise_or_big_int-is_bit_set}
use smartchaindb_experiment.Cl.Sign.Bits.{is_bit_set, bitwise_or_big_int, large_e_end_range_value}
use smartchaindb_experiment.Cl.Sign.Names.{known_names, signed_names}
use smartchaindb_experiment.Cl.Blind.{
  PrimaryBlindedCredentialSecretsFactors, BlindedCredentialSecretsCorrectnessProof, hidden_names,
  generate_blinded_primary_credential_secrets_factors,
  new_blinded_credential_secrets_correctness_proof,
  check_blinded_credential_secrets_correctness_proof,
}
use smartchaindb_experiment.Cl.Blind.Names.{committed_names}
use smartchaindb_experiment.Cl.Blind.Honest.{secrets_product}
use smartchaindb_experiment.Cl.Blind.Complete.{check_blinded-new}
use smartchaindb_experiment.Cl.Sign.{sign_credential, process_credential_signature}
use smartchaindb_experiment.Cl.Sign.Correct.{ExponentLaws}
use smartchaindb_experiment.Cl.Sign.Signed.{HasOrder, IsKeyPair, IsKnownPart}
use smartchaindb_experiment.Cl.Sign.Complete.{IsExponent, process-sign-blind}
use smartchaindb_experiment.Examples.Zmod.{
  zmod, residue, residue-pos, val_unique, unit_one, search_inverse,
}
use smartchaindb_experiment.Examples.Exponents.{exponent_laws}
use smartchaindb_experiment.Examples.Key.{
  pk, residues, key, values, Unit35, s_unit, rctxt_unit, age_unit, name_unit, secret_unit, r_unit,
  z_unit, z_unit-Rep,
}

abbrev sk : CredentialPrimaryPrivateKey
sk = record { p = pos 2; q = pos 3 }

abbrev pub issuer_values : CredentialValues
issuer_values = record {
  attrs_values =
      ("age", CredentialValue.known (pos 28)) ∷ ("name", CredentialValue.known (pos 7)) ∷ [];
}

pub value_nonzero : (n j : ℕ) → n * j % 35 ≡ 1 → (pos n ==ℤ pos 0) ≡ false
value_nonzero zero j h = absurd (omega (arith, sym h ∙ ap (λ t. t % 35) (zero-mul j)))
value_nonzero (suc n) j h = ground arith

abbrev OfOrder : Unit35 → Type 0
OfOrder = HasOrder residues.group (sk.p *ℤ sk.q)

pub s_order : OfOrder s_unit
unfolding ◌*ℤ◌ zpow npow ratio
s_order = val_unique 33 _ _ refl

rctxt_order : OfOrder rctxt_unit
unfolding ◌*ℤ◌ zpow npow ratio
rctxt_order = val_unique 33 _ _ refl

age_order : OfOrder age_unit
unfolding ◌*ℤ◌ zpow npow ratio
age_order = val_unique 33 _ _ refl

name_order : OfOrder name_unit
unfolding ◌*ℤ◌ zpow npow ratio
name_order = val_unique 33 _ _ refl

secret_order : OfOrder secret_unit
unfolding ◌*ℤ◌ zpow npow ratio
secret_order = val_unique 33 _ _ refl

one_order : OfOrder (unit_one 33)
unfolding ◌*ℤ◌ zpow npow ratio
one_order = val_unique 33 _ _ refl

-- Z is four, like S.
z_order : OfOrder z_unit
z_order =
    subst OfOrder (val_unique 33 s_unit z_unit (sym (residue-pos 33 4 (omega arith)) ∙ z_unit-Rep))
      s_order

chosen_order :
    (test : Bool) (x y : Unit35) → OfOrder x → OfOrder y → OfOrder (if test then x else y)
chosen_order true x y p q = p
chosen_order false x y p q = q

r_order : (k : String) → OfOrder (r_unit k)
r_order k =
    chosen_order _ _ _ age_order
      (chosen_order _ _ _ name_order (chosen_order _ _ _ secret_order one_order))

pair : IsKeyPair zmod pk sk residues key
pair = record {
  val_nonzero = λ a. value_nonzero a.value a.inverse_value a.cancel;
  z_order = z_order;
  s_order = s_order;
  rctxt_order = rctxt_order;
  r_order = r_order;
}

pub known_part : IsKnownPart issuer_values.attrs_values values.attrs_values
unfolding known_names value_at value
known_part = record {
  same_known = refl;
  same_values = λ j h. ground (arith, h, eq_iff "age" j, eq_iff "name" j, eq_iff "master_secret" j);
}

abbrev pub names : List String
names = "age" ∷ "name" ∷ "master_secret" ∷ []

abbrev pub ones : Ranges
ones i bound = pos 1

abbrev pub e : BigNumber
e = pos (2 ^ 596 + 1)

pub k : BigNumber
k = pos ((5 * (2 ^ 596 + 1) - 1) / 6)

pub laws : ExponentLaws zmod (sk.p *ℤ sk.q)
unfolding ◌*ℤ◌
laws = exponent_laws 4

hidden_in_key : Within pk.r (hidden_names values.attrs_values)
unfolding hidden_names is_hidden
hidden_in_key = λ j h. ground (arith, h, eq_iff "age" j, eq_iff "name" j, eq_iff "master_secret" j)

committed_in_key : Within pk.r (committed_names values.attrs_values)
unfolding committed_names
committed_in_key = λ j h. ground (arith, h)

signed_in_key : Within pk.r (signed_names values.attrs_values)
unfolding signed_names is_known is_hidden
signed_in_key = λ j h. h

known_in_key : Within pk.r (known_names values.attrs_values)
unfolding known_names
known_in_key = λ j h. ground (arith, h, eq_iff "age" j, eq_iff "name" j, eq_iff "master_secret" j)

pub same_names : (j : String) → contains j names ≡ contains j (signed_names values.attrs_values)
unfolding signed_names is_known is_hidden
same_names j = refl

pub exponent : IsExponent zmod sk e (pos 5) k
unfolding inverse residue ◌+ℤ◌ ◌*ℤ◌ search_inverse k
exponent = record { prime = refl; inverted = refl; is_inverse = refl }

pub found :
    generate_prime_in_range zmod large_e_start_value large_e_end_range_value 1 ones
    ≡ some (ok (e, later ones))
unfolding generate_prime_in_range prime_loop ◌-ℤ◌ ◌+ℤ◌ large_e_start_value large_e_end_range_value
found = refl

abbrev pub numbers : Draws
numbers i size = pos (i + 3)

process-sign-blind_example :
    (factors : PrimaryBlindedCredentialSecretsFactors)
    × (blinded_proof : BlindedCredentialSecretsCorrectnessProof)
    × (signature : PrimaryCredentialSignature) × (proof : SignatureCorrectnessProof) × (d2' : Draws)
    × (r'' : Ranges) × (generate_blinded_primary_credential_secrets_factors zmod pk values numbers
        ≡ ok (factors, Rand.later numbers))
    × (new_blinded_credential_secrets_correctness_proof zmod pk factors (pos 12) values numbers
        ≡ ok (blinded_proof, d2'))
    × (sign_credential zmod
          (1 ∷ [])
          factors.u
          factors.hidden_attributes
          factors.committed_attributes
          blinded_proof
          (pos 12)
          (pos 13)
          issuer_values
          pk
          sk
          1
          numbers
          ones
        ≡ some (ok ((signature, proof), r'')))
    × ((process_credential_signature zmod signature values proof factors.v_prime pk (pos 13)).0
        ≡ ok tt)
    × IsSigned zmod pk residues key
        (process_credential_signature zmod signature values proof factors.v_prime pk (pos 13)).1
        values.attrs_values
        names
process-sign-blind_example =
    process-sign-blind zmod pk residues key sk pair laws values issuer_values known_part
      (refl, (refl, (refl, tt))) (refl, (refl, tt)) signed_in_key known_in_key hidden_in_key
      committed_in_key numbers numbers numbers ones (later ones) (1 ∷ []) (pos 12) (pos 13) 1 e
      (pos 5) k exponent names (refl, (refl, (refl, tt))) same_names found

-- Also a committed value, of which the issuer sees the commitment alone.
abbrev private_values : CredentialValues
private_values = record {
  attrs_values =
      ("age", CredentialValue.commitment (pos 28) (pos 3))
      ∷ ("name", CredentialValue.known (pos 7))
      ∷ ("master_secret", CredentialValue.hidden (pos 5))
      ∷ [];
}

private_hidden_in_key : Within pk.r (hidden_names private_values.attrs_values)
unfolding hidden_names is_hidden
private_hidden_in_key =
    λ j h. ground (arith, h, eq_iff "age" j, eq_iff "name" j, eq_iff "master_secret" j)

private_committed_in_key : Within pk.r (committed_names private_values.attrs_values)
unfolding committed_names
private_committed_in_key =
    λ j h. ground (arith, h, eq_iff "age" j, eq_iff "name" j, eq_iff "master_secret" j)

check_blinded-new_example :
    (factors : PrimaryBlindedCredentialSecretsFactors)
    × (generate_blinded_primary_credential_secrets_factors zmod pk private_values numbers
        ≡ ok (factors, Rand.later numbers))
    × (factors.v_prime ≡ pos 3)
    × (factors.u
        ≡ residues.val (
            secrets_product zmod pk residues key private_values
              (refl, (refl, (refl, tt)))
              private_hidden_in_key
              private_committed_in_key
              (pos 3)))
    × ((nonce : BigNumber) (d1 : Draws)
        → (proof : BlindedCredentialSecretsCorrectnessProof) × (d2 : Draws)
          × (new_blinded_credential_secrets_correctness_proof zmod pk factors nonce private_values
                d1
              ≡ ok (proof, d2))
          × (check_blinded_credential_secrets_correctness_proof zmod factors.u
                factors.hidden_attributes factors.committed_attributes proof nonce pk
              ≡ ok tt))
check_blinded-new_example =
    check_blinded-new zmod pk residues key private_values (refl, (refl, (refl, tt)))
      private_hidden_in_key private_committed_in_key numbers

bitwise_or_big_int-is_bit_set_example :
    is_bit_set (bitwise_or_big_int (pos 5) (pos 10)) 3
    ≡ (is_bit_set (pos 5) 3 || is_bit_set (pos 10) 3)
bitwise_or_big_int-is_bit_set_example = bitwise_or_big_int-is_bit_set (pos 5) (pos 10) 3
