-- ===== src/Cl/Revocation/Issue.antt =====
-- The issuer's changes of the accumulator: `_get_index`, `_new_revocation_registry`,
-- `revoke_credential`, `recovery_credential` and the registry's part of
-- `_new_non_revocation_credential` of ursa_Master/libursa/src/cl/issuer.rs.
use smartchaindb_experiment.Base.{ℕ, zero, suc, [], ◌∷◌, Option, none, some, Bool, true, false}
use smartchaindb_experiment.Base.Indices.{add_u32, sub_u32}
use smartchaindb_experiment.Base.Outcome.{UrsaCryptoResult, ok, ◌>>=◌}
use smartchaindb_experiment.Cl.Revocation.Delta.{
  Points, RevocationRegistry, RevocationRegistryDelta,
}
use smartchaindb_experiment.Cl.Revocation.Tails.{Scalars, new_tail}

unfoldable pub get_index : ℕ → ℕ → ℕ
get_index max_cred_num rev_idx = sub_u32 (add_u32 max_cred_num 1) rev_idx

module _ (points : Points) (scalars : Scalars points) where
  open points use {group}
  open group use {Carrier, ◌⊙◌, inv, one}
  open scalars use {GroupOrderElement}

  infixl 60 ◌⊙◌
  -- The tails of the indices 1 to the second number, added up from the first on.
  unfoldable pub accumulate : ℕ → ℕ → Carrier → GroupOrderElement → UrsaCryptoResult Carrier
  accumulate max_cred_num zero g_dash gamma = ok one
  accumulate max_cred_num (suc i) g_dash gamma = do
    accum ← accumulate max_cred_num i g_dash gamma
    tail ← new_tail points scalars (get_index max_cred_num (suc i)) g_dash gamma
    ok (accum ⊙ tail)

  unfoldable pub new_revocation_registry :
      Carrier → GroupOrderElement → ℕ → Bool → UrsaCryptoResult (RevocationRegistry points)
  new_revocation_registry g_dash gamma max_cred_num issuance_by_default = elim issuance_by_default [
    | true ↦ do
      accum ← accumulate max_cred_num max_cred_num g_dash gamma
      ok (record { accum = accum })
    | false ↦ ok (record { accum = one })
  ]

module _ (points : Points) where
  open points use {group}
  open group use {Carrier, ◌⊙◌, inv}

  infixl 60 ◌⊙◌
  -- The registry after the call, and the delta that it returns.
  unfoldable pub revoke_credential :
      RevocationRegistry points
      → ℕ
      → ℕ
      → (ℕ → UrsaCryptoResult Carrier)
      → UrsaCryptoResult (RevocationRegistry points × RevocationRegistryDelta points)
  unfolding get_index
  revoke_credential rev_reg max_cred_num rev_idx access_tail = do
    tail ← access_tail (get_index max_cred_num rev_idx)
    let accum = rev_reg.accum ⊙ inv tail
    ok (
      record { accum = accum },
      record {
        prev_accum = some rev_reg.accum;
        accum = accum;
        issued = [];
        revoked = rev_idx ∷ [];
      },
    )

  unfoldable pub recovery_credential :
      RevocationRegistry points
      → ℕ
      → ℕ
      → (ℕ → UrsaCryptoResult Carrier)
      → UrsaCryptoResult (RevocationRegistry points × RevocationRegistryDelta points)
  unfolding get_index
  recovery_credential rev_reg max_cred_num rev_idx access_tail = do
    tail ← access_tail (get_index max_cred_num rev_idx)
    let accum = rev_reg.accum ⊙ tail
    ok (
      record { accum = accum },
      record {
        prev_accum = some rev_reg.accum;
        accum = accum;
        issued = rev_idx ∷ [];
        revoked = [];
      },
    )

  -- What `_new_non_revocation_credential` does with the registry.
  unfoldable pub issue_in_registry :
      RevocationRegistry points
      → ℕ
      → ℕ
      → Bool
      → (ℕ → UrsaCryptoResult Carrier)
      → UrsaCryptoResult (RevocationRegistry points × Option (RevocationRegistryDelta points))
  issue_in_registry rev_reg max_cred_num rev_idx issuance_by_default access_tail =
      elim issuance_by_default [
        | true ↦ ok (rev_reg, none)
        | false ↦ do
          tail ← access_tail (get_index max_cred_num rev_idx)
          let accum = rev_reg.accum ⊙ tail
          ok (
            record { accum = accum },
            some (record {
              prev_accum = some rev_reg.accum;
              accum = accum;
              issued = rev_idx ∷ [];
              revoked = [];
            }),
          )
      ]
