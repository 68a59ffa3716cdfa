-- ===== src/Cl/Predicate.antt =====
-- The predicates on attributes: `Predicate` of ursa_Master/libursa/src/cl/mod.rs. An `i32` is the
-- integer that it stands for; its sums and differences wrap around, as they do in a release build.
pub mod Delta
use smartchaindb_experiment.Base.{
  ℕ, ◌+◌, ◌-◌, ◌*◌, ◌%◌, Bool, true, false, ltb, ◌&&◌, not, if◌then◌else◌,
}
use smartchaindb_experiment.Base.Int.{ℤ, pos, negsuc, pos_part, neg_part, ◌+ℤ◌, ◌-ℤ◌, ltb_ℤ, ◌≤ℤ◌}
use smartchaindb_experiment.Base.Outcome.{UrsaCryptoResult, ok, err, invalid_structure}
use smartchaindb_experiment.Bn.{BigNumber}
use smartchaindb_experiment.Cl.Types.{Predicate, PredicateType}

abbrev pub i32_half : ℕ
i32_half = 2147483648

abbrev pub i32_modulus : ℕ
i32_modulus = 4294967296

-- Two's complement: the residue modulo 2^32, its upper half read as negative.
unfoldable pub wrap_i32 : ℤ → ℤ
wrap_i32 x = signed ((pos_part x + neg_part x * (i32_modulus - 1)) % i32_modulus)
  where
    signed : ℕ → ℤ
    signed u = if ltb u i32_half then pos u else negsuc (i32_modulus - 1 - u)

-- `x` is the value of some `i32`.
abbrev pub IsI32 : ℤ → Type 0
IsI32 x = (negsuc 2147483647 ≤ℤ x) × (x ≤ℤ pos 2147483647)

-- `bn.to_dec()?.parse::<i32>()`
unfoldable pub parse_i32 : BigNumber → UrsaCryptoResult ℤ
parse_i32 x =
    if not (ltb_ℤ x (negsuc 2147483647)) && ltb_ℤ x (pos i32_half)
    then ok x
    else err invalid_structure

unfoldable pub get_delta_by : PredicateType → ℤ → ℤ → ℤ
get_delta_by PredicateType.ge bound x = wrap_i32 (x -ℤ bound)
get_delta_by PredicateType.gt bound x = wrap_i32 (wrap_i32 (x -ℤ bound) -ℤ pos 1)
get_delta_by PredicateType.le bound x = wrap_i32 (bound -ℤ x)
get_delta_by PredicateType.lt bound x = wrap_i32 (wrap_i32 (bound -ℤ x) -ℤ pos 1)

unfoldable pub get_delta : Predicate → ℤ → ℤ
unfolding get_delta_by
get_delta predicate attr_value = get_delta_by predicate.p_type predicate.bound attr_value

unfoldable pub get_delta_prime_by : PredicateType → ℤ → BigNumber
get_delta_prime_by PredicateType.ge bound = bound
get_delta_prime_by PredicateType.gt bound = wrap_i32 (bound +ℤ pos 1)
get_delta_prime_by PredicateType.le bound = bound
get_delta_prime_by PredicateType.lt bound = wrap_i32 (bound -ℤ pos 1)

unfoldable pub get_delta_prime : Predicate → BigNumber
unfolding get_delta_prime_by
get_delta_prime predicate = get_delta_prime_by predicate.p_type predicate.bound

unfoldable pub is_less_by : PredicateType → Bool
is_less_by PredicateType.ge = false
is_less_by PredicateType.gt = false
is_less_by PredicateType.le = true
is_less_by PredicateType.lt = true

unfoldable pub is_less : Predicate → Bool
unfolding is_less_by
is_less predicate = is_less_by predicate.p_type
