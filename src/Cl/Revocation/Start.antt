-- ===== src/Cl/Revocation/Start.antt =====
-- The accumulator of a new registry.
use smartchaindb_experiment.Base.{
  ℕ, zero, suc, ◌+◌, ◌-◌, ◌*◌, ◌≤◌, ◌<◌, Bool, true, false, ◌≡◌, refl, sym, ap, arith,
}
use smartchaindb_experiment.Base.Indices.{u32_modulus}
use smartchaindb_experiment.Base.Outcome.{ok}
use smartchaindb_experiment.Cl.Revocation.Delta.{Points, RevocationRegistry}
use smartchaindb_experiment.Cl.Revocation.Tails.{Scalars, new_tail}
use smartchaindb_experiment.Cl.Revocation.Issue.{accumulate, new_revocation_registry}
use smartchaindb_experiment.Cl.Revocation.Sums.{sum_of, sum_of-none}
use smartchaindb_experiment.Cl.Revocation.Registry.{accumulator, tail_of, get_index_in_range}

module _ (points : Points) (scalars : Scalars points) (tail : ℕ → points.group.Carrier)
    (g_dash : points.group.Carrier) (gamma : scalars.GroupOrderElement) (max_cred_num : ℕ)
    (small : 2 * max_cred_num + 1 < u32_modulus)
    (tails : (i : ℕ)
      → i < 2 * max_cred_num + 1
      → new_tail points scalars i g_dash gamma ≡ ok (tail i)) where
  open points use {group}
  open group use {Carrier, one, ◌⊙◌, comm}

  infixl 60 ◌⊙◌
  accumulate-sum_of :
      (i : ℕ)
      → i ≤ max_cred_num
      → accumulate points scalars max_cred_num i g_dash gamma
        ≡ ok (sum_of group (tail_of points tail max_cred_num small) (λ j. true) i)
  unfolding accumulate sum_of
  accumulate-sum_of zero le = refl
  accumulate-sum_of (suc i) le =
      rw
        (
          accumulate-sum_of i (omega arith),
          get_index_in_range max_cred_num (suc i) small le,
          tails (max_cred_num + 1 - suc i) (omega arith),
        )
        (ap ok (comm _ _))

  -- A new registry for max_cred_num credentials has the accumulator of the state in which every
  -- index is valid, where issuance is by default, and of that in which none is, where it is not.
  -- No index overflows, and the curve library computes each tail.
  pub new_revocation_registry-accumulator :
      (issuance_by_default : Bool)
      → (rev_reg : RevocationRegistry points) × (new_revocation_registry points scalars g_dash gamma
            max_cred_num issuance_by_default
          ≡ ok rev_reg)
        × (rev_reg.accum ≡ accumulator points tail max_cred_num small (λ i. issuance_by_default))
  unfolding new_revocation_registry
  new_revocation_registry-accumulator true = (
    record { accum = accumulator points tail max_cred_num small (λ i. true) },
    rw (accumulate-sum_of max_cred_num (omega arith)) refl,
    refl,
  )
  new_revocation_registry-accumulator false = (
    record { accum = one },
    refl,
    sym (
        sum_of-none group (tail_of points tail max_cred_num small) (λ i. false) max_cred_num
          (λ i lo hi. refl)),
  )
