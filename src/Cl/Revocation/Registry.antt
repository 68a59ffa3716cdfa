-- ===== src/Cl/Revocation/Registry.antt =====
-- The issuer's operations keep the accumulator the sum of the tails of the valid indices.
use smartchaindb_experiment.Base.{
  ℕ, ◌+◌, ◌-◌, ◌*◌, ◌≤◌, ◌<◌, ◌==◌, ==→eq, Bool, true, false, ◌&&◌, ◌||◌, not, [], ◌∷◌, ◌≡◌, refl,
  sym, ap, ◌∙◌, Bool-cases, inl, inr, some, arith,
}
use smartchaindb_experiment.Base.Indices.{u32_modulus}
use smartchaindb_experiment.Base.Outcome.{UrsaCryptoResult, ok}
use smartchaindb_experiment.Group.{mul_cancel_right}
use smartchaindb_experiment.Cl.Revocation.Delta.{
  Points, RevocationRegistry, RevocationRegistryDelta, merge, from_parts,
}
use smartchaindb_experiment.Cl.Revocation.Merge.{apply, Fits}
use smartchaindb_experiment.Cl.Revocation.Issue.{
  issue_in_registry, get_index, revoke_credential, recovery_credential,
}
use smartchaindb_experiment.Cl.Revocation.Sums.{sum_of, sum_of-insert}

-- Within the bound no sum or difference of `u32` wraps.
pub get_index_in_range :
    (max_cred_num i : ℕ)
    → 2 * max_cred_num + 1 < u32_modulus
    → i ≤ max_cred_num
    → get_index max_cred_num i ≡ max_cred_num + 1 - i
unfolding get_index
get_index_in_range max_cred_num i small le = ground arith

module _ (points : Points) (tail : ℕ → points.group.Carrier) (max_cred_num : ℕ)
    (small : 2 * max_cred_num + 1 < u32_modulus) where
  open points use {group}
  open group use {Carrier, one, ◌⊙◌, inv, assoc, comm, one-mul}

  infixl 60 ◌⊙◌
  abbrev pub tail_of : ℕ → Carrier
  tail_of i = tail (max_cred_num + 1 - i)

  -- The accumulator of a state.
  abbrev pub accumulator : (ℕ → Bool) → Carrier
  accumulator valid = sum_of group tail_of valid max_cred_num

  -- The delta of one call: it starts and ends at the registry's accumulators, fits the state, and
  -- the accumulator after it is that of the state after it.
  pub record IsStep (valid : ℕ → Bool) (before after : RevocationRegistry points)
      (delta : RevocationRegistryDelta points) : Type 0 where
    pub starts : delta.prev_accum ≡ some before.accum
    pub ends : delta.accum ≡ after.accum
    pub fits : Fits points delta valid
    pub accumulates : after.accum ≡ accumulator (apply points delta valid)

  module _ (access_tail : ℕ → UrsaCryptoResult Carrier)
      (accesses : (i : ℕ) → i < 2 * max_cred_num + 1 → access_tail i ≡ ok (tail i)) where
    accesses_index :
        (i : ℕ) → 1 ≤ i → i ≤ max_cred_num → access_tail (get_index max_cred_num i) ≡ ok (tail_of i)
    accesses_index i lo hi =
        ap access_tail (get_index_in_range max_cred_num i small hi)
        ∙ accesses (max_cred_num + 1 - i) (omega arith)

    valid_before :
        (valid : ℕ → Bool) (rev_idx : ℕ)
        → valid rev_idx ≡ true
        → (i : ℕ) → valid i ≡ (rev_idx == i || (valid i && not (rev_idx == i || false)))
    valid_before valid rev_idx old i = elim (Bool-cases (rev_idx == i)) [
      | inl e ↦ rw e (ap valid (sym (==→eq rev_idx i e)) ∙ old)
      | inr e ↦ rw e (ground arith)
    ]

    -- Revoking a valid index, in a registry whose accumulator is that of the valid indices, returns
    -- and is a step: this index alone is not valid any more, the delta fits the state, and the new
    -- accumulator is that of the new state. The registry has room for max_cred_num credentials, with
    -- no overflow of an index, and the accessor has their tails.
    pub revoke_credential-IsStep :
        (rev_reg : RevocationRegistry points) (valid : ℕ → Bool) (rev_idx : ℕ)
        → rev_reg.accum ≡ accumulator valid
        → 1 ≤ rev_idx
        → rev_idx ≤ max_cred_num
        → valid rev_idx ≡ true
        → (after : RevocationRegistry points) × (delta : RevocationRegistryDelta points)
          × (revoke_credential points rev_reg max_cred_num rev_idx access_tail ≡ ok (after, delta))
          × ((i : ℕ) → apply points delta valid i ≡ (valid i && not (rev_idx == i)))
          × IsStep valid rev_reg after delta
    unfolding revoke_credential
    revoke_credential-IsStep rev_reg valid rev_idx accumulated lo hi old =
        let accum = rev_reg.accum ⊙ inv (tail_of rev_idx) in
        (
          record { accum = accum },
          record {
            prev_accum = some rev_reg.accum;
            accum = accum;
            issued = [];
            revoked = rev_idx ∷ [];
          },
          rw (accesses_index rev_idx lo hi) refl,
          λ i. ground arith,
          record {
            starts = refl;
            ends = refl;
            fits = record {
              issued_once = tt;
              revoked_once = (refl, tt);
              issued_new = λ i h. ground arith;
              revoked_old = λ i h. ap valid (sym (==→eq rev_idx i (ground arith))) ∙ old;
            };
            accumulates =
                ap (λ t. t ⊙ inv (tail_of rev_idx))
                  (accumulated
                    ∙ sum_of-insert group tail_of _ valid rev_idx max_cred_num lo hi (ground arith)
                        (valid_before valid rev_idx old)
                    ∙ comm _ _)
                ∙ mul_cancel_right group _ _;
          },
        )

    -- So does recovering an index that is not valid, and so does issuing it where issuance is not by
    -- default.
    pub recovery_credential-IsStep :
        (rev_reg : RevocationRegistry points) (valid : ℕ → Bool) (rev_idx : ℕ)
        → rev_reg.accum ≡ accumulator valid
        → 1 ≤ rev_idx
        → rev_idx ≤ max_cred_num
        → valid rev_idx ≡ false
        → (after : RevocationRegistry points) × (delta : RevocationRegistryDelta points)
          × (recovery_credential points rev_reg max_cred_num rev_idx access_tail
              ≡ ok (after, delta))
          × (issue_in_registry points rev_reg max_cred_num rev_idx false access_tail
              ≡ ok (after, some delta))
          × IsStep valid rev_reg after delta
    unfolding recovery_credential issue_in_registry
    recovery_credential-IsStep rev_reg valid rev_idx accumulated lo hi new =
        let accum = rev_reg.accum ⊙ tail_of rev_idx in
        (
          record { accum = accum },
          record {
            prev_accum = some rev_reg.accum;
            accum = accum;
            issued = rev_idx ∷ [];
            revoked = [];
          },
          rw (accesses_index rev_idx lo hi) refl,
          rw (accesses_index rev_idx lo hi) refl,
          record {
            starts = refl;
            ends = refl;
            fits = record {
              issued_once = (refl, tt);
              revoked_once = tt;
              issued_new = λ i h. ap valid (sym (==→eq rev_idx i (ground arith))) ∙ new;
              revoked_old = λ i h. ground arith;
            };
            accumulates =
                ap (λ t. t ⊙ tail_of rev_idx) accumulated
                ∙ comm _ _
                ∙ sym (
                    sum_of-insert group tail_of valid _ rev_idx max_cred_num lo hi new
                      (λ i. ground arith));
          },
        )

  -- The registries that calls lead to from one registry, each with the delta that all the calls'
  -- deltas merge into: `revoke_credential` of an index that is valid at the time, and
  -- `recovery_credential` and the change of the registry in `_new_non_revocation_credential` of one
  -- that is not. The source makes no such test: it is the caller's duty.
  pub data Run (access_tail : ℕ → UrsaCryptoResult Carrier) (first : RevocationRegistry points)
      (valid : ℕ → Bool) : RevocationRegistry points → RevocationRegistryDelta points → Type 0 where
    start : Run access_tail first valid first (from_parts points (some first) first [] [])
    revoke :
        (before after : RevocationRegistry points)
        (merged delta merged' : RevocationRegistryDelta points) (rev_idx : ℕ)
        → Run access_tail first valid before merged
        → 1 ≤ rev_idx
        → rev_idx ≤ max_cred_num
        → apply points merged valid rev_idx ≡ true
        → revoke_credential points before max_cred_num rev_idx access_tail ≡ ok (after, delta)
        → merge points merged delta ≡ ok merged'
        → Run access_tail first valid after merged'
    recover :
        (before after : RevocationRegistry points)
        (merged delta merged' : RevocationRegistryDelta points) (rev_idx : ℕ)
        → Run access_tail first valid before merged
        → 1 ≤ rev_idx
        → rev_idx ≤ max_cred_num
        → apply points merged valid rev_idx ≡ false
        → recovery_credential points before max_cred_num rev_idx access_tail ≡ ok (after, delta)
        → merge points merged delta ≡ ok merged'
        → Run access_tail first valid after merged'
    issue :
        (before after : RevocationRegistry points)
        (merged delta merged' : RevocationRegistryDelta points) (rev_idx : ℕ)
        → Run access_tail first valid before merged
        → 1 ≤ rev_idx
        → rev_idx ≤ max_cred_num
        → apply points merged valid rev_idx ≡ false
        → issue_in_registry points before max_cred_num rev_idx false access_tail
          ≡ ok (after, some delta)
        → merge points merged delta ≡ ok merged'
        → Run access_tail first valid after merged'
