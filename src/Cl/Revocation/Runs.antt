-- ===== src/Cl/Revocation/Runs.antt =====
-- What holds after any sequence of revocations of valid indices, and of issuances and recoveries of
-- indices that are not valid.
use mathlib.Core.Path.{subst}
use smartchaindb_experiment.Base.{
  ℕ, ◌+◌, ◌*◌, ◌≤◌, ◌<◌, ◌==◌, Bool, true, ◌&&◌, not, [], ◌≡◌, refl, sym, ap, ap₂, ◌∙◌, some,
  Option, arith,
}
use smartchaindb_experiment.Base.Indices.{u32_modulus}
use smartchaindb_experiment.Base.Outcome.{UrsaCryptoResult, ok}
use smartchaindb_experiment.Cl.Revocation.Delta.{
  Points, RevocationRegistry, RevocationRegistryDelta, merge, from_parts, accum_of,
}
use smartchaindb_experiment.Cl.Revocation.Merge.{apply, Fits, merge-apply}
use smartchaindb_experiment.Cl.Revocation.Issue.{revoke_credential}
use smartchaindb_experiment.Cl.Revocation.Sums.{sum_of-congr}
use smartchaindb_experiment.Cl.Revocation.Registry.{
  accumulator, IsStep, Run, revoke_credential-IsStep, recovery_credential-IsStep,
}

ok_injective {ℓ} : {A : Type ℓ} (a b : A) → UrsaCryptoResult.ok a ≡ ok b → a ≡ b
ok_injective a b h = cc

some_injective {ℓ} : {A : Type ℓ} (a b : A) → Option.some a ≡ some b → a ≡ b
some_injective a b h = cc

-- The results of issuing.
issued_injective {ℓ} :
    {A B : Type ℓ} (p q : A × B)
    → ◌≡◌ {A = UrsaCryptoResult (A × Option B)} (ok (p.0, some p.1)) (ok (q.0, some q.1))
    → p ≡ q
issued_injective {A} {B} p q h =
    let e : ◌≡◌ {A = A × Option B} (p.0, some p.1) (q.0, some q.1) =
      ok_injective (p.0, some p.1) (q.0, some q.1) h in
    ap₂ (λ x y. (x, y)) (ap (λ r. r.0) e) (some_injective p.1 q.1 (ap (λ r. r.1) e))

module _ (points : Points) (tail : ℕ → points.group.Carrier) (max_cred_num : ℕ)
    (small : 2 * max_cred_num + 1 < u32_modulus) where
  open points use {group}
  open group use {Carrier}

  -- A registry and the merged delta that leads to it from the state `valid`.
  pub record IsAfter (valid : ℕ → Bool) (first rev_reg : RevocationRegistry points)
      (merged : RevocationRegistryDelta points) : Type 0 where
    pub starts : merged.prev_accum ≡ some first.accum
    pub ends : merged.accum ≡ rev_reg.accum
    pub fits : Fits points merged valid
    pub accumulates :
        rev_reg.accum ≡ accumulator points tail max_cred_num small (apply points merged valid)

  IsAfter-from_parts :
      (valid : ℕ → Bool) (first : RevocationRegistry points)
      → first.accum ≡ accumulator points tail max_cred_num small valid
      → IsAfter valid first first (from_parts points (some first) first [] [])
  unfolding from_parts accum_of
  IsAfter-from_parts valid first h = record {
    starts = refl;
    ends = refl;
    fits = record {
      issued_once = tt;
      revoked_once = tt;
      issued_new = λ i m. ground arith;
      revoked_old = λ i m. ground arith;
    };
    accumulates = h ∙ sum_of-congr group _ _ _ max_cred_num (λ i lo hi. ground arith);
  }

  IsAfter-merge :
      (valid : ℕ → Bool) (first before after : RevocationRegistry points)
      (merged delta merged' : RevocationRegistryDelta points)
      → IsAfter valid first before merged
      → IsStep points tail max_cred_num small (apply points merged valid) before after delta
      → merge points merged delta ≡ ok merged'
      → IsAfter valid first after merged'
  IsAfter-merge valid first before after merged delta merged' state step e =
      let (m, e', starts, ends, fits, same) =
        merge-apply points merged delta valid state.fits step.fits
          (step.starts ∙ ap some (sym state.ends)) in
      subst (IsAfter valid first after) (ok_injective m merged' (sym e' ∙ e)) (record {
        starts = starts ∙ state.starts;
        ends = ends ∙ step.ends;
        fits = fits;
        accumulates =
            step.accumulates ∙ sum_of-congr group _ _ _ max_cred_num (λ i lo hi. sym (same i));
      })

  module _ (access_tail : ℕ → UrsaCryptoResult Carrier)
      (accesses : (i : ℕ) → i < 2 * max_cred_num + 1 → access_tail i ≡ ok (tail i)) where
    -- After every sequence of revocations of an index that is valid at the time, and of issuances and
    -- recoveries of one that is not, each of an index from 1 to max_cred_num, from a registry whose
    -- accumulator is that of the valid indices, with each call's delta merged into the one before:
    -- the merged delta starts at the first accumulator, ends at the last, fits the first state, and the last
    -- accumulator is that of the indices that the merged delta makes valid.
    pub Run-IsAfter :
        (first : RevocationRegistry points) (valid : ℕ → Bool)
        → first.accum ≡ accumulator points tail max_cred_num small valid
        → (rev_reg : RevocationRegistry points) (merged : RevocationRegistryDelta points)
        → Run points tail max_cred_num small access_tail first valid rev_reg merged
        → IsAfter valid first rev_reg merged
    Run-IsAfter first valid h _ _ Run.start = IsAfter-from_parts valid first h
    Run-IsAfter first valid h _ _
          (Run.revoke before after merged delta merged' rev_idx run lo hi old e m) =
        let state = Run-IsAfter first valid h before merged run in
        let (after', delta', e', gone, step) =
          revoke_credential-IsStep points tail max_cred_num small access_tail accesses before
            (apply points merged valid) rev_idx state.accumulates lo hi old in
        let same = ok_injective (after', delta') (after, delta) (sym e' ∙ e) in
        IsAfter-merge valid first before after merged delta merged' state
          (subst
            (λ x. IsStep points tail max_cred_num small (apply points merged valid) before x.0 x.1)
            same step)
          m
    Run-IsAfter first valid h _ _
          (Run.recover before after merged delta merged' rev_idx run lo hi new e m) =
        let state = Run-IsAfter first valid h before merged run in
        let (after', delta', e', _, step) =
          recovery_credential-IsStep points tail max_cred_num small access_tail accesses before
            (apply points merged valid) rev_idx state.accumulates lo hi new in
        let same = ok_injective (after', delta') (after, delta) (sym e' ∙ e) in
        IsAfter-merge valid first before after merged delta merged' state
          (subst
            (λ x. IsStep points tail max_cred_num small (apply points merged valid) before x.0 x.1)
            same step)
          m
    Run-IsAfter first valid h _ _
          (Run.issue before after merged delta merged' rev_idx run lo hi new e m) =
        let state = Run-IsAfter first valid h before merged run in
        let (after', delta', _, e', step) =
          recovery_credential-IsStep points tail max_cred_num small access_tail accesses before
            (apply points merged valid) rev_idx state.accumulates lo hi new in
        let same = issued_injective (after', delta') (after, delta) (sym e' ∙ e) in
        IsAfter-merge valid first before after merged delta merged' state
          (subst
            (λ x. IsStep points tail max_cred_num small (apply points merged valid) before x.0 x.1)
            same step)
          m

    -- A run goes on. After any run, and whatever the delta that its calls have merged into, an index
    -- that this delta makes valid can be revoked: `revoke_credential` of the run's last registry
    -- returns, its delta merges into the run's, which is a run again, and the merged delta makes the
    -- same indices valid as before but for this one.
    pub Run-revoke :
        (first before : RevocationRegistry points) (valid : ℕ → Bool)
        → first.accum ≡ accumulator points tail max_cred_num small valid
        → (merged : RevocationRegistryDelta points)
        → Run points tail max_cred_num small access_tail first valid before merged
        → (rev_idx : ℕ) → 1 ≤ rev_idx
        → rev_idx ≤ max_cred_num
        → apply points merged valid rev_idx ≡ true
        → (after : RevocationRegistry points) × (delta : RevocationRegistryDelta points)
          × (merged' : RevocationRegistryDelta points) × (revoke_credential points before
                max_cred_num rev_idx access_tail
              ≡ ok (after, delta))
          × (merge points merged delta ≡ ok merged')
          × Run points tail max_cred_num small access_tail first valid after merged'
          × ((i : ℕ)
              → apply points merged' valid i ≡ (apply points merged valid i && not (rev_idx == i)))
    Run-revoke first before valid h merged run rev_idx lo hi old =
        let state = Run-IsAfter first valid h before merged run in
        let (after, delta, e, effect, step) =
          revoke_credential-IsStep points tail max_cred_num small access_tail accesses before
            (apply points merged valid) rev_idx state.accumulates lo hi old in
        let (merged', m, starts, ends, fits, same) =
          merge-apply points merged delta valid state.fits step.fits
            (step.starts ∙ ap some (sym state.ends)) in
        (
          after,
          delta,
          merged',
          e,
          m,
          Run.revoke before after merged delta merged' rev_idx run lo hi old e m,
          λ i. same i ∙ effect i,
        )
