-- ===== src/Cl/Revocation/Delta.antt =====
-- `RevocationRegistry` and `RevocationRegistryDelta` of ursa_Master/libursa/src/cl/mod.rs. The points
-- of the curve are a commutative group, written as a product, with the test `==` of its points.
use smartchaindb_experiment.Base.{ℕ, Bool, true, false, not, List, Option, none, some, ◌≡◌}
use smartchaindb_experiment.Base.Indices.{minus, extend, remove_all}
use smartchaindb_experiment.Base.Outcome.{UrsaCryptoResult, ok, fail_if, invalid_structure, ◌>>=◌}
use smartchaindb_experiment.Group.{AbGroup}

-- The group `PointG2` and the equality of its points.
pub record Points : Type 1 where
  pub group : AbGroup
  pub same : group.Carrier → group.Carrier → Bool
  pub same_refl : (a : group.Carrier) → same a a ≡ true
  pub same→eq : (a b : group.Carrier) → same a b ≡ true → a ≡ b

module _ (points : Points) where
  open points use {group, same}
  open group use {Carrier}

  pub record RevocationRegistry : Type 0 where
    pub accum : Carrier

  pub record RevocationRegistryDelta : Type 0 where
    pub prev_accum : Option Carrier
    pub accum : Carrier
    pub issued : List ℕ
    pub revoked : List ℕ

  unfoldable pub accum_of : Option RevocationRegistry → Option Carrier
  accum_of none = none
  accum_of (some rev_reg) = some rev_reg.accum

  unfoldable pub from_parts :
      Option RevocationRegistry → RevocationRegistry → List ℕ → List ℕ → RevocationRegistryDelta
  from_parts rev_reg_from rev_reg_to issued revoked = record {
    prev_accum = accum_of rev_reg_from;
    accum = rev_reg_to.accum;
    issued = issued;
    revoked = revoked;
  }

  -- `From<RevocationRegistryDelta> for RevocationRegistry`
  unfoldable pub registry_from : RevocationRegistryDelta → RevocationRegistry
  registry_from delta = record { accum = delta.accum }

  -- Whether a delta with this `prev_accum` starts at the accumulator.
  unfoldable pub starts_at : Carrier → Option Carrier → Bool
  starts_at accum none = false
  starts_at accum (some prev_accum) = same accum prev_accum

  unfoldable pub merge :
      RevocationRegistryDelta → RevocationRegistryDelta → UrsaCryptoResult RevocationRegistryDelta
  merge delta other = do
    _ ← fail_if (not (starts_at delta.accum other.prev_accum)) invalid_structure
    let issued' = extend delta.issued (minus other.issued delta.revoked)
    let revoked' = extend delta.revoked (minus other.revoked issued')
    ok (record {
      prev_accum = delta.prev_accum;
      accum = other.accum;
      issued = remove_all other.revoked issued';
      revoked = remove_all other.issued revoked';
    })
