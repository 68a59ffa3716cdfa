-- ===== src/Cl/Sign/Context.antt =====
-- The credential context m_2: `encode_attribute` of ursa_Master/libursa/src/cl/helpers.rs and
-- `_gen_credential_context` of libursa/src/cl/issuer.rs. A text is its bytes.
use smartchaindb_experiment.Base.{
  ℕ, zero, suc, ◌+◌, ◌-◌, ◌/◌, ◌%◌, ltb, if◌then◌else◌, Option, none, some, [], ◌∷◌, ◌++◌, ◌≡◌,
  refl,
}
use smartchaindb_experiment.Base.Int.{ℤ, pos, negsuc}
use smartchaindb_experiment.Base.Outcome.{UrsaCryptoResult, ok, ◌>>=◌}
use smartchaindb_experiment.Bn.{BigNumber, Bytes, OpenSsl, get_hash_as_int, concat_bytes}

pub data ByteOrder : Type 0 where
  big little : ByteOrder

abbrev pub reverse : Bytes → Bytes
reverse [] = []
reverse (b ∷ bs) = reverse bs ++ (b ∷ [])

-- The decimal digits of a number below 10^rounds, as ASCII.
unfoldable pub digits : ℕ → ℕ → Bytes → Bytes
digits zero n acc = acc
digits (suc rounds) n acc =
    let acc' = (48 + n % 10) ∷ acc in
    let rest = digits rounds (n / 10) acc' in if ltb n 10 then acc' else rest

-- `to_string` of an `i32`, which has at most ten digits.
unfoldable pub to_string : ℤ → Bytes
to_string (pos n) = digits 10 n []
to_string (negsuc n) = 45 ∷ digits 10 (suc n) []

-- `i as i32` of a `u32`
unfoldable pub as_i32 : ℕ → ℤ
as_i32 i = if ltb i 2147483648 then pos i else negsuc (4294967296 - i - 1)

unfoldable pub rev_idx_or_none : Option ℕ → ℤ
rev_idx_or_none none = negsuc 0
rev_idx_or_none (some i) = as_i32 i

module _ (lib : OpenSsl) where
  unfoldable pub encode_attribute : Bytes → ByteOrder → UrsaCryptoResult BigNumber
  encode_attribute attribute ByteOrder.big = ok (lib.from_bytes (lib.sha256 attribute))
  encode_attribute attribute ByteOrder.little = ok (lib.from_bytes (reverse (lib.sha256 attribute)))

  unfoldable pub gen_credential_context : Bytes → Option ℕ → UrsaCryptoResult BigNumber
  gen_credential_context prover_id rev_idx = do
    prover_id_bn ← encode_attribute prover_id ByteOrder.little
    rev_idx_bn ← encode_attribute (to_string (rev_idx_or_none rev_idx)) ByteOrder.little
    get_hash_as_int lib (concat_bytes lib (prover_id_bn ∷ rev_idx_bn ∷ []) ∷ [])

  -- The context is always returned.
  pub gen_credential_context_total :
      (prover_id : Bytes) (rev_idx : Option ℕ)
      → (context : BigNumber) × (gen_credential_context prover_id rev_idx ≡ ok context)
  unfolding gen_credential_context encode_attribute get_hash_as_int
  gen_credential_context_total prover_id rev_idx = (_, refl)
