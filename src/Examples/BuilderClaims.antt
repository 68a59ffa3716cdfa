-- ===== src/Examples/BuilderClaims.antt =====
-- The theorem on primary proofs applied to a request that reveals a name and asks for an age.
use smartchaindb_experiment.Base.{ℕ, ◌+◌, [], List, map, ◌≡◌, refl, none, arith}
use smartchaindb_experiment.Base.Int.{ℤ, pos, ◌≤ℤ◌, ◌-ℤ◌, int_laws}
use smartchaindb_experiment.Base.Outcome.{ok}
use smartchaindb_experiment.Bn.{BigNumber}
use smartchaindb_experiment.Cl.Types.{
  CredentialValue, value, PrimaryProof, Predicate, PredicateType,
}
use smartchaindb_experiment.Cl.Rand.{Draws}
use smartchaindb_experiment.Cl.Predicate.{IsI32, parse_i32}
use smartchaindb_experiment.Cl.Predicate.Delta.{exact_delta}
use smartchaindb_experiment.Cl.Equality.{unrevealed_by_prover}
use smartchaindb_experiment.Cl.Verifier.Verify.{verify_primary_proof}
use smartchaindb_experiment.Cl.Builder.Primary.{
  check_credential, names_of, PrimaryInitProof, init_primary_proof, finalize_primary_proof,
  as_tau_list,
}
use smartchaindb_experiment.Cl.Credential.{IsConsistent, Within}
use smartchaindb_experiment.Cl.Builder.Checked.{check_credential-IsConsistent}
use smartchaindb_experiment.Cl.Builder.Complete.{IsProvable, IsAnswer, verify_primary-finalize-init}
use smartchaindb_experiment.Examples.Zmod.{zmod}
use smartchaindb_experiment.Examples.Key.{
  pk, residues, key, signature, signed, schema, non_schema, values, request, consistent,
}

abbrev pub numbers : Draws
numbers = λ i size. pos (i + 1)

abbrev adult : Predicate
adult = record { attr_name = "age"; p_type = PredicateType.ge; bound = pos 18 }

adult_fits : IsI32 (exact_delta adult (pos 28))
adult_fits = (omega int_laws, omega int_laws)

adult_split : exact_delta adult (pos 28) ≡ pos 10
unfolding ◌-ℤ◌
adult_split = refl

age_parsed : parse_i32 (value (CredentialValue.known (pos 28))) ≡ ok (pos 28)
unfolding parse_i32 value
age_parsed = refl

pub adult-IsProvable :
    IsProvable values.attrs_values (unrevealed_by_prover non_schema schema request) adult
unfolding unrevealed_by_prover
adult-IsProvable = record {
  entry = CredentialValue.known (pos 28);
  x = pos 28;
  found = refl;
  parsed = age_parsed;
  stays_hidden = refl;
  bound_fits = (omega arith, omega arith);
  x_fits = (omega arith, omega arith);
  delta_fits = adult_fits;
  a = 3;
  b = 1;
  b' = 0;
  b'' = 0;
  ba = omega arith;
  b'b = omega arith;
  b''b' = omega arith;
  split = adult_split;
}

verify_primary-finalize-init_example :
    (init : PrimaryInitProof) × (d' : Draws) × (init_primary_proof zmod [] pk signature values
        schema non_schema request none numbers
      ≡ ok (init, d'))
    × ((i size : ℕ) → pos 0 ≤ℤ d' i size)
    × ((c : ℤ)
        → pos 0 ≤ℤ c
        → (proof : PrimaryProof) × (taus : List BigNumber) × (finalize_primary_proof init c schema
              non_schema values request
            ≡ ok proof)
          × IsAnswer values.attrs_values
              (unrevealed_by_prover non_schema schema request)
              request
              []
              c
              proof
          × (verify_primary_proof zmod pk c proof schema non_schema request ≡ ok taus)
          × (map zmod.to_bytes taus ≡ as_tau_list zmod init))
verify_primary-finalize-init_example =
    verify_primary-finalize-init zmod pk residues key signature schema non_schema values request
      consistent signed (adult-IsProvable, tt) [] none numbers (λ i size. omega arith)

pub checked : check_credential values request schema non_schema ≡ ok tt
unfolding check_credential names_of
checked = refl

check_credential-IsConsistent_example :
    IsConsistent pk schema non_schema values.attrs_values request
    × Within values.attrs_values (names_of request.predicates)
check_credential-IsConsistent_example =
    check_credential-IsConsistent pk values request schema non_schema checked (λ k h. h)
      (refl, (refl, tt)) (refl, tt) (refl, tt)
