-- ===== src/Cl/Sign/Bits.antt =====
-- `bitwise_or_big_int` and `generate_v_prime_prime` of ursa_Master/libursa/src/cl/helpers.rs, over
-- the bits of a number's magnitude.
pub mod Or
use smartchaindb_experiment.Base.{
  ℕ, zero, suc, ◌+◌, ◌-◌, ◌/◌, ◌%◌, ◌^◌, ◌==◌, ltb, Bool, ◌||◌, if◌then◌else◌,
}
use smartchaindb_experiment.Base.Int.{pos, pos_part, neg_part, ◌+ℤ◌}
use smartchaindb_experiment.Bn.{BigNumber}
use smartchaindb_experiment.Cl.Types.{large_e_start_value}
use smartchaindb_experiment.Cl.Rand.{Draws, later}

abbrev pub magnitude : BigNumber → ℕ
magnitude x = pos_part x + neg_part x

-- How often a number can be halved, of at most so many times.
unfoldable pub halvings : ℕ → ℕ → ℕ
halvings zero n = 0
halvings (suc rounds) n = let rest = halvings rounds (n / 2) in if n == 0 then 0 else suc rest

-- `num_bits`
unfoldable pub num_bits : BigNumber → ℕ
num_bits x = halvings (magnitude x) (magnitude x)

unfoldable pub bit : ℕ → ℕ → Bool
bit n i = n / 2 ^ i % 2 == 1

-- `is_bit_set`
unfoldable pub is_bit_set : BigNumber → ℕ → Bool
is_bit_set x i = bit (magnitude x) i

-- `set_bit` of a number that has not been negated.
unfoldable pub set_bit : ℕ → ℕ → ℕ
set_bit n i = if bit n i then n else n + 2 ^ i

-- The loop over the bits below a count, from the lowest.
unfoldable pub or_loop : BigNumber → BigNumber → ℕ → ℕ
or_loop a b zero = 0
or_loop a b (suc i) =
    let result = or_loop a b i in
    if is_bit_set a i || is_bit_set b i then set_bit result i else result

unfoldable pub bitwise_or_big_int : BigNumber → BigNumber → BigNumber
bitwise_or_big_int a b =
    let significant_bits = if ltb (num_bits a) (num_bits b) then num_bits b else num_bits a in
    pos (or_loop a b significant_bits)

abbrev pub large_vprime_prime : ℕ
large_vprime_prime = 2724

abbrev pub large_e_end_range : ℕ
large_e_end_range = 119

-- The constants that are computed once. Shut: no proof needs their digits.
unfoldable pub large_vprime_prime_value : BigNumber
large_vprime_prime_value = pos (2 ^ (large_vprime_prime - 1))

unfoldable pub large_e_end_range_value : BigNumber
large_e_end_range_value = pos (2 ^ large_e_end_range) +ℤ large_e_start_value

-- `generate_v_prime_prime`: the number and the draws that are left.
unfoldable pub generate_v_prime_prime : Draws → BigNumber × Draws
generate_v_prime_prime d =
    (bitwise_or_big_int (d 0 large_vprime_prime) large_vprime_prime_value, later d)
