-- ===== src/Bn/Defs.antt =====
-- The operations of `BigNumber` (ursa_Master/libursa/src/bn/openssl.rs), the hash of a transcript
-- (libursa/src/cl/hash.rs) and Pedersen commitments (libursa/src/utils/commitment.rs).
use smartchaindb_experiment.Base.{ℕ, ◌+◌, ◌/◌, Bool, false, List, [], ◌∷◌, ◌++◌, if◌then◌else◌}
use smartchaindb_experiment.Base.Int.{ℤ, pos, negsuc, ltb_ℤ, neg_ℤ}
use smartchaindb_experiment.Base.Outcome.{UrsaCryptoResult, ok, ◌>>=◌}

abbrev pub BigNumber : Type 0
BigNumber = ℤ

abbrev pub Bytes : Type 0
Bytes = List ℕ

-- What the crate provides: `BigNumRef::mod_exp`, `mod_mul`, `mod_inverse`, `is_prime`, `to_vec`,
-- the integer that the SHA-256 digest of a list of byte strings spells, `mod_sub`, the integer that
-- a byte string spells, the SHA-256 digest of one, and the i-th prime of a size in bits that
-- `generate_prime` is going to return where it is asked for a safe one.
pub record OpenSsl : Type 0 where
  pub ssl_mod_exp : BigNumber → BigNumber → BigNumber → UrsaCryptoResult BigNumber
  pub ssl_mod_mul : BigNumber → BigNumber → BigNumber → UrsaCryptoResult BigNumber
  pub ssl_mod_inverse : BigNumber → BigNumber → UrsaCryptoResult BigNumber
  pub ssl_is_prime : BigNumber → UrsaCryptoResult Bool
  pub to_bytes : BigNumber → Bytes
  pub from_digest : List Bytes → BigNumber
  pub ssl_mod_sub : BigNumber → BigNumber → BigNumber → UrsaCryptoResult BigNumber
  pub ssl_modulus : BigNumber → BigNumber → UrsaCryptoResult BigNumber
  pub ssl_safe_prime : ℕ → ℕ → UrsaCryptoResult BigNumber
  pub from_bytes : Bytes → BigNumber
  pub sha256 : Bytes → Bytes

-- `BigNumber::set_negative`: the number of the same magnitude with the given sign.
unfoldable pub set_negative : Bool → BigNumber → BigNumber
set_negative negative x = if ltb_ℤ x (pos 0) then signed (neg_ℤ x) else signed x
  where
    signed : BigNumber → BigNumber
    signed magnitude = if negative then neg_ℤ magnitude else magnitude

-- `BigNumber::rshift1`: half of the magnitude, with the sign.
unfoldable pub rshift1 : BigNumber → BigNumber
rshift1 (pos k) = pos (k / 2)
rshift1 (negsuc k) = neg_ℤ (pos ((k + 1) / 2))

-- `BigNumber::is_negative`
unfoldable pub is_negative : BigNumber → Bool
is_negative x = ltb_ℤ x (pos 0)

module _ (lib : OpenSsl) where
  open lib use {
    ssl_mod_exp, ssl_mod_mul, ssl_mod_inverse, from_digest, ssl_mod_sub, ssl_safe_prime, to_bytes,
  }

  -- `BigNumber::inverse`
  unfoldable pub inverse : BigNumber → BigNumber → UrsaCryptoResult BigNumber
  inverse x n = ssl_mod_inverse x n

  -- `BigNumber::mod_mul`
  unfoldable pub mod_mul : BigNumber → BigNumber → BigNumber → UrsaCryptoResult BigNumber
  mod_mul x y n = ssl_mod_mul x y n

  -- `BigNumber::mod_sub`
  unfoldable pub mod_sub : BigNumber → BigNumber → BigNumber → UrsaCryptoResult BigNumber
  mod_sub x y n = ssl_mod_sub x y n

  -- `BigNumber::generate_safe_prime`: one bit more than the size.
  unfoldable pub generate_safe_prime : ℕ → ℕ → UrsaCryptoResult BigNumber
  generate_safe_prime i size = ssl_safe_prime i (size + 1)

  -- `BigNumber::mod_exp`: a negative exponent raises the inverse.
  unfoldable pub mod_exp : BigNumber → BigNumber → BigNumber → UrsaCryptoResult BigNumber
  mod_exp x a n =
      if is_negative a
      then (do y ← inverse x n; ssl_mod_exp y (set_negative false a) n)
      else ssl_mod_exp x a n

  -- `BigNumber::mod_div`: x * (1/y mod n) mod n.
  unfoldable pub mod_div : BigNumber → BigNumber → BigNumber → UrsaCryptoResult BigNumber
  mod_div x y n = do z ← inverse y n; ssl_mod_mul x z n

  -- `get_hash_as_int`
  unfoldable pub get_hash_as_int : List Bytes → UrsaCryptoResult BigNumber
  get_hash_as_int nums = ok (from_digest nums)

  -- The bytes of some numbers one after the other: a buffer that `extend_from_slice` has filled.
  unfoldable pub concat_bytes : List BigNumber → Bytes
  concat_bytes [] = []
  concat_bytes (x ∷ xs) = to_bytes x ++ concat_bytes xs

  -- `get_pedersen_commitment`: gen_1^m gen_2^r.
  unfoldable pub get_pedersen_commitment :
      BigNumber → BigNumber → BigNumber → BigNumber → BigNumber → UrsaCryptoResult BigNumber
  get_pedersen_commitment gen_1 m gen_2 r modulus = do
    x ← mod_exp gen_1 m modulus
    y ← mod_exp gen_2 r modulus
    mod_mul x y modulus
