-- ===== src/Cl/Revocation/Merge.antt =====
-- Merging two deltas has the effect of the one and then the other.
use smartchaindb_experiment.Base.{
  ℕ, Bool, true, false, ◌&&◌, ◌||◌, not, List, some, ◌≡◌, refl, arith,
}
use smartchaindb_experiment.Base.Indices.{
  holds, minus, extend, remove_all, NoRepeat, holds-minus, holds-extend, holds-remove_all,
  extend-NoRepeat, remove_all-NoRepeat,
}
use smartchaindb_experiment.Base.Outcome.{ok, err, invalid_structure}
use smartchaindb_experiment.Cl.Revocation.Delta.{Points, RevocationRegistryDelta, merge, starts_at}

module _ (points : Points) where
  open points use {group, same_refl}

  -- The indices that are valid after a delta, when `valid` tells those before it.
  abbrev pub apply : RevocationRegistryDelta points → (ℕ → Bool) → ℕ → Bool
  apply delta valid i = holds i delta.issued || (valid i && not (holds i delta.revoked))

  -- A delta of a state: what it issues was not valid, and what it revokes was.
  pub record Fits (delta : RevocationRegistryDelta points) (valid : ℕ → Bool) : Type 0 where
    pub issued_once : NoRepeat delta.issued
    pub revoked_once : NoRepeat delta.revoked
    pub issued_new : (i : ℕ) → holds i delta.issued ≡ true → valid i ≡ false
    pub revoked_old : (i : ℕ) → holds i delta.revoked ≡ true → valid i ≡ true

  -- Where the second delta starts at the accumulator of the first, and each fits the state that it
  -- is a delta of, `merge` returns a delta from the first's start to the second's end that fits the
  -- first state and makes the same indices valid as the two deltas one after the other.
  pub merge-apply :
      (delta other : RevocationRegistryDelta points) (valid : ℕ → Bool)
      → Fits delta valid
      → Fits other (apply delta valid)
      → other.prev_accum ≡ some delta.accum
      → (merged : RevocationRegistryDelta points) × (merge points delta other ≡ ok merged)
        × (merged.prev_accum ≡ delta.prev_accum)
        × (merged.accum ≡ other.accum)
        × Fits merged valid
        × ((i : ℕ) → apply merged valid i ≡ apply other (apply delta valid) i)
  unfolding merge starts_at
  merge-apply delta other valid fits fits' start = (
    record {
      prev_accum = delta.prev_accum;
      accum = other.accum;
      issued = remove_all other.revoked issued';
      revoked = remove_all other.issued revoked';
    },
    rw (start, same_refl delta.accum) refl,
    refl,
    refl,
    record {
      issued_once =
          remove_all-NoRepeat other.revoked issued'
            (extend-NoRepeat delta.issued (minus other.issued delta.revoked) fits.issued_once);
      revoked_once =
          remove_all-NoRepeat other.issued revoked'
            (extend-NoRepeat delta.revoked (minus other.revoked issued') fits.revoked_once);
      issued_new = λ i h. ground (
        arith,
        issued_is i,
        fits.issued_new i,
        fits.revoked_old i,
        fits'.issued_new i,
        fits'.revoked_old i,
      );
      revoked_old = λ i h. ground (
        arith,
        revoked_is i,
        fits.issued_new i,
        fits.revoked_old i,
        fits'.issued_new i,
        fits'.revoked_old i,
      );
    },
    λ i. ground (
      arith,
      issued_is i,
      revoked_is i,
      fits.issued_new i,
      fits.revoked_old i,
      fits'.issued_new i,
      fits'.revoked_old i,
    ),
  )
    where
      issued' : List ℕ
      issued' = extend delta.issued (minus other.issued delta.revoked)

      revoked' : List ℕ
      revoked' = extend delta.revoked (minus other.revoked issued')

      issued'_is :
          (i : ℕ)
          → holds i issued'
            ≡ (holds i delta.issued || (holds i other.issued && not (holds i delta.revoked)))
      issued'_is i = ground (
        arith,
        holds-extend i delta.issued (minus other.issued delta.revoked),
        holds-minus i other.issued delta.revoked,
      )

      issued_is :
          (i : ℕ)
          → holds i (remove_all other.revoked issued') ≡ (
              (holds i delta.issued || (holds i other.issued && not (holds i delta.revoked)))
              && not (holds i other.revoked))
      issued_is i = ground (arith, holds-remove_all i other.revoked issued', issued'_is i)

      revoked_is :
          (i : ℕ)
          → holds i (remove_all other.issued revoked') ≡ (
              (holds i delta.revoked
                || (holds i other.revoked
                    && not (
                        holds i delta.issued
                        || (holds i other.issued && not (holds i delta.revoked)))))
              && not (holds i other.issued))
      revoked_is i = ground (
        arith,
        holds-remove_all i other.issued revoked',
        issued'_is i,
        holds-extend i delta.revoked (minus other.revoked issued'),
        holds-minus i other.revoked issued',
      )

  -- A delta that starts elsewhere, or nowhere, is refused.
  pub merge_refused :
      (delta other : RevocationRegistryDelta points)
      → starts_at points delta.accum other.prev_accum ≡ false
      → merge points delta other ≡ err invalid_structure
  unfolding merge
  merge_refused delta other h = rw h refl
