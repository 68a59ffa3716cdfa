-- ===== src/Examples/KeyClaims.antt =====
-- The theorems on keys and on the search for primes applied to small primes and fixed draws.
use smartchaindb_experiment.Base.{
  ◌+◌, String, ◌<◌, ℕ, suc, zero, ◌*◌, ◌||◌, true, false, some, ◌≡◌, refl, arith,
}
use smartchaindb_experiment.Base.Int.{pos, ◌+ℤ◌, ◌*ℤ◌, ◌-ℤ◌, ◌==ℤ◌, ◌≤ℤ◌, ltb_ℤ}
use smartchaindb_experiment.Base.Maps.{contains_key}
use smartchaindb_experiment.Base.Sets.{contains}
use smartchaindb_experiment.Base.Outcome.{ok}
use smartchaindb_experiment.Bn.{OpenSsl, generate_safe_prime}
use smartchaindb_experiment.Cl.Types.{CredentialPrimaryPublicKey, CredentialPrimaryPrivateKey}
use smartchaindb_experiment.Cl.Range.{Ranges, generate_prime_in_range}
use smartchaindb_experiment.Cl.Range.Search.{generate_prime_in_range_first}
use smartchaindb_experiment.Cl.Keys.{
  CredentialPrimaryPublicKeyMetadata, CredentialKeyCorrectnessProof, large_prime,
  new_credential_primary_keys, new_credential_key_correctness_proof,
  check_credential_key_correctness_proof,
}
use smartchaindb_experiment.Cl.Keys.Complete.{check-new_credential_keys}
use smartchaindb_experiment.Examples.Zmod.{zmod, residue, residue-pos}
use smartchaindb_experiment.Examples.Key.{residues, s_unit, schema, non_schema}

abbrev pub twos : Ranges
twos = λ i bound. pos 2

pub first_prime : generate_safe_prime zmod 0 large_prime ≡ ok (pos 5)
unfolding generate_safe_prime
first_prime = refl

pub second_prime : generate_safe_prime zmod 1 large_prime ≡ ok (pos 7)
unfolding generate_safe_prime
second_prime = refl

pub square_four : zmod.ssl_modulus (pos 2 *ℤ pos 2) (pos 5 *ℤ pos 7) ≡ ok (pos 4)
unfolding residue ◌*ℤ◌
square_four = refl

check-new_credential_keys_example :
    (pk : CredentialPrimaryPublicKey) × (sk : CredentialPrimaryPrivateKey)
    × (meta : CredentialPrimaryPublicKeyMetadata) × (d' : Ranges) × (new_credential_primary_keys
          zmod schema non_schema twos
        ≡ ok ((pk, sk, meta), d'))
    × (pk.n ≡ pos 5 *ℤ pos 7)
    × ((j : String)
        → contains_key j pk.r ≡ (contains j schema.attrs || contains j non_schema.attrs))
    × ((d1 : Ranges)
        → (proof : CredentialKeyCorrectnessProof) × (d2 : Ranges)
          × (new_credential_key_correctness_proof zmod pk sk meta d1 ≡ ok (proof, d2))
          × (check_credential_key_correctness_proof zmod pk proof ≡ ok tt))
unfolding ◌*ℤ◌
check-new_credential_keys_example =
    check-new_credential_keys zmod schema non_schema (pos 5) (pos 7) residues twos (pos 4) refl
      first_prime second_prime square_four s_unit (residue-pos 33 4 (omega arith))

-- Only eleven is prime.
abbrev elevens : OpenSsl
elevens = record zmod { ssl_is_prime = λ x. ok (x ==ℤ pos 11) }

-- First 8, then 11, for the range from 8 to 20.
abbrev thrice : Ranges
thrice i bound = pos (3 * i)

eight_composite : (i : ℕ) → i < 1 → elevens.ssl_is_prime (thrice i (pos 12) +ℤ pos 8) ≡ ok false
unfolding ◌+ℤ◌
eight_composite zero h = refl
eight_composite (suc i) h = ground arith

-- Five rounds are enough.
generate_prime_in_range_first_example :
    (generate_prime_in_range elevens (pos 8) (pos 20) 5 thrice
      ≡ some (ok (pos 11, λ i. thrice (1 + suc i))))
    × (pos 8 ≤ℤ pos 11)
    × (ltb_ℤ (pos 11) (pos 20) ≡ true)
unfolding ◌-ℤ◌ ◌+ℤ◌
generate_prime_in_range_first_example =
    generate_prime_in_range_first elevens (pos 8) (pos 20) 1 5 thrice eight_composite refl
      (omega arith) refl
