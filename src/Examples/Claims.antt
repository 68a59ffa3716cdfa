-- ===== src/Examples/Claims.antt =====
-- The theorems applied at concrete inputs where their hypotheses hold.
use smartchaindb_experiment.Base.{
  Option, String, true, some, ◌+◌, [], ◌∷◌, ◌≡◌, refl, none, arith, ◌↔◌, inr,
}
use smartchaindb_experiment.Base.Int.{ℤ, pos, negsuc, ◌≤ℤ◌, ◌-ℤ◌, ◌*ℤ◌, ◌+ℤ◌, int_laws}
use smartchaindb_experiment.Base.Outcome.{ok}
use smartchaindb_experiment.Cl.Types.{
  PrimaryEqualInitProof, PrimaryEqualProof, Predicate, PredicateType, CredentialValue, value,
  PrimaryPredicateInequalityInitProof, PrimaryPredicateInequalityProof,
}
use smartchaindb_experiment.Cl.Rand.{Draws, Among}
use smartchaindb_experiment.Cl.Credential.{number_at, value_at}
use smartchaindb_experiment.Base.Maps.{lookup, keys}
use smartchaindb_experiment.Base.Sets.{contains}
use smartchaindb_experiment.Bn.{BigNumber}
use smartchaindb_experiment.Cl.Equality.{
  unrevealed_by_prover, init_eq_proof, finalize_eq_proof, verify_equality, verify-finalize-init,
}
use smartchaindb_experiment.Cl.Predicate.{IsI32, parse_i32, get_delta}
use smartchaindb_experiment.Cl.Predicate.Delta.{
  Holds, exact_delta, IsOverflow, get_delta-Holds, get_delta_overflow,
}
use smartchaindb_experiment.Cl.FourSquares.{Roots, roots_map, four_squares}
use smartchaindb_experiment.Cl.FourSquares.Search.{sum_of_squares, four_squares-sum}
use smartchaindb_experiment.Cl.Inequality.Init.{init_ne_proof}
use smartchaindb_experiment.Cl.Inequality.Finalize.{finalize_ne_proof}
use smartchaindb_experiment.Cl.Inequality.Verify.{verify_ne_predicate}
use smartchaindb_experiment.Cl.Inequality.Complete.{verify_ne-finalize-init}
use smartchaindb_experiment.Examples.Zmod.{zmod}
use smartchaindb_experiment.Examples.Key.{
  pk, residues, key, signature, signed, schema, non_schema, values, request, consistent,
}

abbrev draws : Draws
draws = λ i size. pos (i + 1)

verify-finalize-init_example :
    (init : PrimaryEqualInitProof) × (d' : Draws) × (init_eq_proof zmod [] pk signature schema
        non_schema request none draws
      ≡ ok (init, d'))
    × Among draws d'
    × ((j : String) (x : BigNumber)
        → ◌≡◌ {A = Option BigNumber} (lookup j []) (some x)
        → lookup j init.m_tilde ≡ some x)
    × ((j : String)
        → contains j (unrevealed_by_prover non_schema schema request) ≡ true
        → lookup j init.m_tilde ≡ some (number_at init.m_tilde j))
    × ((c : BigNumber)
        → (proof : PrimaryEqualProof) × (finalize_eq_proof init c schema non_schema values request
            ≡ ok proof)
          × (verify_equality zmod pk proof c schema non_schema request ≡ ok (init.t ∷ []))
          × ((j : String)
              → contains j (unrevealed_by_prover non_schema schema request) ≡ true
              → lookup j proof.m
                ≡ some (c *ℤ value_at values.attrs_values j +ℤ number_at init.m_tilde j))
          × ((j : String)
              → contains j (keys proof.revealed_attrs) ≡ contains j request.revealed_attrs))
verify-finalize-init_example =
    verify-finalize-init zmod pk residues key signature schema non_schema values request consistent
      signed [] none draws

-- "age" is at least 18, where it is 28: the difference 10 is 9 + 1.
abbrev adult : Predicate
adult = record { attr_name = "age"; p_type = PredicateType.ge; bound = pos 18 }

-- A bound of -2 and the largest value.
abbrev far_predicate : Predicate
far_predicate = record { attr_name = "age"; p_type = PredicateType.ge; bound = negsuc 1 }

-- The facts that the inputs below are in range.
ten_fits : IsI32 (exact_delta adult (pos 28))
ten_fits = (omega int_laws, omega int_laws)

ten_split : exact_delta adult (pos 28) ≡ pos 10
unfolding ◌-ℤ◌
ten_split = refl

far-IsOverflow : IsOverflow (exact_delta far_predicate (pos 2147483647))
unfolding ◌-ℤ◌
far-IsOverflow = inr (omega arith)

parsed_age : parse_i32 (value (CredentialValue.known (pos 28))) ≡ ok (pos 28)
unfolding parse_i32 value
parsed_age = refl

get_delta-Holds_example :
    (get_delta adult (pos 28) ≡ exact_delta adult (pos 28))
    × ((pos 0 ≤ℤ get_delta adult (pos 28)) ↔ Holds adult (pos 28))
get_delta-Holds_example =
    get_delta-Holds adult (pos 28) (omega arith, omega arith) (omega arith, omega arith) ten_fits

get_delta_overflow_example :
    (pos 0 ≤ℤ get_delta far_predicate (pos 2147483647)) ↔ (¬ Holds far_predicate (pos 2147483647))
get_delta_overflow_example =
    get_delta_overflow far_predicate (pos 2147483647) (omega arith, omega arith)
      (omega arith, omega arith) far-IsOverflow

four_squares-sum_example :
    (roots : Roots) × (four_squares (pos 30) ≡ ok (roots_map roots)) × (sum_of_squares roots ≡ 30)
four_squares-sum_example = four_squares-sum 5 2 1 0 (omega arith) (omega arith) (omega arith)

verify_ne-finalize-init_example :
    (init : PrimaryPredicateInequalityInitProof) × (d' : Draws) × (init_ne_proof zmod pk
        (("age", pos 6) ∷ [])
        values
        adult
        draws
      ≡ ok (init, d'))
    × Among draws d'
    × ((c : ℤ)
        → pos 0 ≤ℤ c
        → (eq_proof : PrimaryEqualProof) → lookup "age" eq_proof.m ≡ some (c *ℤ pos 28 +ℤ pos 6)
        → (proof : PrimaryPredicateInequalityProof) × (finalize_ne_proof c init eq_proof ≡ ok proof)
          × (proof.predicate ≡ adult)
          × (verify_ne_predicate zmod pk proof c ≡ ok init.tau_list))
verify_ne-finalize-init_example =
    verify_ne-finalize-init zmod pk residues key values adult (CredentialValue.known (pos 28))
      (pos 28) refl parsed_age (omega arith, omega arith) (omega arith, omega arith) ten_fits 3 1 0
      0 (omega arith) (omega arith) (omega arith) ten_split draws (λ i size. omega arith)
      (("age", pos 6) ∷ []) (pos 6) refl
