-- ===== src/Cl/Revocation/Tails.antt =====
-- `Tail`, `RevocationTailsGenerator` and `SimpleTailsAccessor` of
-- ursa_Master/libursa/src/cl/mod.rs, and `transform_u32_to_array_of_u8` of libursa/src/cl/helpers.rs.
use smartchaindb_experiment.Base.{
  ℕ, zero, suc, ◌*◌, ◌/◌, ◌%◌, List, [], ◌∷◌, ◌++◌, Option, none, some, leb, true, false,
}
use smartchaindb_experiment.Base.Indices.{add_u32, sub_u32, u32_modulus}
use smartchaindb_experiment.Base.Outcome.{UrsaCryptoResult, ok, index, ◌>>=◌}
use smartchaindb_experiment.Bn.{Bytes}
use smartchaindb_experiment.Cl.Revocation.Delta.{Points}

-- The four bytes, the highest first.
unfoldable pub transform_u32_to_array_of_u8 : ℕ → Bytes
transform_u32_to_array_of_u8 x =
    (x / 16777216) % 256 ∷ (x / 65536) % 256 ∷ (x / 256) % 256 ∷ x % 256 ∷ []

-- What the curve library provides for scalars: their powers, their bytes, and the multiple of a
-- point.
pub record Scalars (points : Points) : Type 1 where
  pub GroupOrderElement : Type 0
  pub from_bytes : Bytes → UrsaCryptoResult GroupOrderElement
  pub pow_mod : GroupOrderElement → GroupOrderElement → UrsaCryptoResult GroupOrderElement
  pub point_mul : points.group.Carrier → GroupOrderElement → UrsaCryptoResult points.group.Carrier

-- `[T]::get` by position.
abbrev pub get_elem? {ℓ} : {A : Type ℓ} → List A → ℕ → Option A
get_elem? [] i = none
get_elem? (x ∷ xs) zero = some x
get_elem? (x ∷ xs) (suc i) = get_elem? xs i

module _ (points : Points) (scalars : Scalars points) where
  open points use {group}
  open group use {Carrier}
  open scalars use {GroupOrderElement, from_bytes, pow_mod, point_mul}

  -- `Tail::new_tail`: gamma^index times g_dash.
  unfoldable pub new_tail : ℕ → Carrier → GroupOrderElement → UrsaCryptoResult Carrier
  new_tail i g_dash gamma = do
    exponent ← from_bytes (transform_u32_to_array_of_u8 i)
    power ← pow_mod gamma exponent
    point_mul g_dash power

  pub record RevocationTailsGenerator : Type 0 where
    pub size : ℕ
    pub current_index : ℕ
    pub g_dash : Carrier
    pub gamma : GroupOrderElement

  unfoldable pub new_tails_generator : ℕ → GroupOrderElement → Carrier → RevocationTailsGenerator
  new_tails_generator max_cred_num gamma g_dash = record {
    size = add_u32 ((2 * max_cred_num) % u32_modulus) 1;
    current_index = 0;
    g_dash = g_dash;
    gamma = gamma;
  }

  unfoldable pub count : RevocationTailsGenerator → ℕ
  count generator = sub_u32 generator.size generator.current_index

  -- The tail, if there is one left, and the generator after it.
  unfoldable pub try_next :
      RevocationTailsGenerator → UrsaCryptoResult (Option Carrier × RevocationTailsGenerator)
  try_next generator = elim (leb generator.size generator.current_index) [
    | true ↦ ok (none, generator)
    | false ↦ do
      tail ← new_tail generator.current_index generator.g_dash generator.gamma
      ok (
        some tail,
        record {
          size = generator.size;
          current_index = add_u32 generator.current_index 1;
          g_dash = generator.g_dash;
          gamma = generator.gamma;
        },
      )
  ]

  -- What is left when the loop ends: the tails and the generator.
  abbrev pub Collected : Type 0
  Collected = UrsaCryptoResult (Option (List Carrier × RevocationTailsGenerator))

  -- The end of the loop, or its next round.
  abbrev pub collect_step :
      (RevocationTailsGenerator → List Carrier → Collected)
      → List Carrier
      → Option Carrier × RevocationTailsGenerator
      → Collected
  collect_step again tails (none, generator) = ok (some (tails, generator))
  collect_step again tails (some tail, generator) = again generator (tails ++ (tail ∷ []))

  -- `while let Some(tail) = generator.try_next()? { tails.push(tail) }`, for fewer than `fuel` rounds.
  unfoldable pub collect_loop : ℕ → RevocationTailsGenerator → List Carrier → Collected
  collect_loop zero generator tails = ok none
  collect_loop (suc fuel) generator tails =
      try_next generator >>= collect_step (collect_loop fuel) tails

  -- `SimpleTailsAccessor::new`, with one round for each tail and one for the end.
  unfoldable pub new_simple_tails_accessor : RevocationTailsGenerator → Collected
  new_simple_tails_accessor generator = collect_loop (suc generator.size) generator []

  -- `access_tail` of `SimpleTailsAccessor`: the tail that is handed to the accessor.
  unfoldable pub access_tail : List Carrier → ℕ → UrsaCryptoResult Carrier
  access_tail tails tail_id = index (get_elem? tails tail_id)

  -- Any `RevocationTailsAccessor`.
  abbrev pub Accessor : Type 0
  Accessor = ℕ → UrsaCryptoResult Carrier
