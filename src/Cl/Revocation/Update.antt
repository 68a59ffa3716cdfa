-- ===== src/Cl/Revocation/Update.antt =====
-- A witness is the sum of the tails that the valid indices other than the credential's own stand
-- for: `Witness::new` makes it so and `Witness::update` keeps it so.
use smartchaindb_experiment.Base.{
  ℕ, zero, suc, ◌+◌, ◌-◌, ◌*◌, ◌≤◌, ◌<◌, ◌==◌, Bool, true, false, ◌&&◌, not, Bool-cases, inl, inr,
  List, [], ◌∷◌, ◌≡◌, refl, sym, ap, ap₂, ◌∙◌, some, arith, if◌then◌else◌,
}
use smartchaindb_experiment.Base.Indices.{
  holds, NoRepeat, u32_modulus, remove, holds-minus, holds-remove, minus-NoRepeat, remove-NoRepeat,
}
use smartchaindb_experiment.Base.Outcome.{UrsaCryptoResult, ok}
use smartchaindb_experiment.Group.{mul-one}
use smartchaindb_experiment.Cl.Revocation.Delta.{Points, RevocationRegistryDelta, merge}
use smartchaindb_experiment.Cl.Revocation.Merge.{apply, Fits, merge-apply}
use smartchaindb_experiment.Cl.Revocation.Witness.{
  witness_index, up_to, Witness, add_tails, add_other_tails, issued_from, new_witness,
  update_witness,
}
use smartchaindb_experiment.Cl.Revocation.Sums.{
  InRange, pick, sum_of, sum_of-congr, sum_of-change, sum_list, sum_list-sum_of,
}
use smartchaindb_experiment.Cl.Revocation.Range.{
  witness_index_in_range, up_to-holds, holds-up_to, up_to-NoRepeat,
}

module _ (points : Points) (tail : ℕ → points.group.Carrier) (max_cred_num : ℕ)
    (small : 2 * max_cred_num + 1 < u32_modulus)
    (access_tail : ℕ → UrsaCryptoResult points.group.Carrier)
    (accesses : (i : ℕ) → i < 2 * max_cred_num + 1 → access_tail i ≡ ok (tail i)) (rev_idx : ℕ)
    (rev_lo : 1 ≤ rev_idx) (rev_hi : rev_idx ≤ max_cred_num) where
  open points use {group}
  open group use {Carrier, one, ◌⊙◌, inv}

  infixl 60 ◌⊙◌
  -- The tail for an index, and nothing for the credential's own.
  abbrev pub other_tail : ℕ → Carrier
  other_tail j = if rev_idx == j then one else tail (max_cred_num + 1 - j + rev_idx)

  -- The witness for a state.
  abbrev pub omega_of : (ℕ → Bool) → Carrier
  omega_of valid = sum_of group other_tail valid max_cred_num

  accesses_witness_index :
      (j : ℕ)
      → 1 ≤ j
      → j ≤ max_cred_num
      → access_tail (witness_index max_cred_num rev_idx j)
        ≡ ok (tail (max_cred_num + 1 - j + rev_idx))
  accesses_witness_index j lo hi =
      ap access_tail (witness_index_in_range max_cred_num rev_idx j small rev_hi hi)
      ∙ accesses (max_cred_num + 1 - j + rev_idx) (omega arith)

  add_other_tails-sum_list :
      (js : List ℕ) (acc : Carrier)
      → InRange max_cred_num js
      → add_other_tails points access_tail max_cred_num rev_idx js acc
        ≡ ok (sum_list group other_tail js acc)
  unfolding add_other_tails sum_list
  add_other_tails-sum_list [] acc range = refl
  add_other_tails-sum_list (j ∷ js) acc range =
      let (lo, hi) = range j (ground arith) in
      let range' : InRange max_cred_num js = λ i m. range i (ground arith) in
      elim (Bool-cases (rev_idx == j)) [
        | inl e ↦
            rw (e, add_other_tails)
              (add_other_tails-sum_list js acc range'
                ∙ ap (λ a. ok (sum_list group other_tail js a)) (sym (mul-one group acc)))
        | inr e ↦
            rw (e, add_other_tails, accesses_witness_index j lo hi)
              (add_other_tails-sum_list js (acc ⊙ tail (max_cred_num + 1 - j + rev_idx)) range')
      ]

  add_tails-sum_list :
      (js : List ℕ) (acc : Carrier)
      → InRange max_cred_num js
      → holds rev_idx js ≡ false
      → add_tails points access_tail max_cred_num rev_idx js acc
        ≡ ok (sum_list group other_tail js acc)
  unfolding add_tails sum_list
  add_tails-sum_list [] acc range absent = refl
  add_tails-sum_list (j ∷ js) acc range absent =
      let (lo, hi) = range j (ground arith) in
      let other : (rev_idx == j) ≡ false = ground arith in
      rw (other, accesses_witness_index j lo hi)
        (add_tails-sum_list js (acc ⊙ tail (max_cred_num + 1 - j + rev_idx))
          (λ i m. range i (ground arith)) (ground arith))

  other_sum :
      (js : List ℕ)
      → NoRepeat js
      → InRange max_cred_num js
      → add_other_tails points access_tail max_cred_num rev_idx js one
        ≡ ok (omega_of (λ i. holds i js))
  other_sum js once range =
      add_other_tails-sum_list js one range
      ∙ ap ok (sum_list-sum_of group other_tail js max_cred_num one once range ∙ group.one-mul _)

  -- A delta that fits a state, with indices from 1 to max_cred_num, takes the witness of that state
  -- to the witness of the state after it.
  pub update_witness-omega_of :
      (valid : ℕ → Bool) (witness : Witness points) (delta : RevocationRegistryDelta points)
      → witness.omega ≡ omega_of valid
      → Fits points delta valid
      → InRange max_cred_num delta.issued
      → InRange max_cred_num delta.revoked
      → update_witness points access_tail witness rev_idx max_cred_num delta
        ≡ ok (record { omega = omega_of (apply points delta valid) })
  unfolding update_witness
  update_witness-omega_of valid witness delta is fits in_issued in_revoked =
      rw
        (
          other_sum delta.revoked fits.revoked_once in_revoked,
          other_sum delta.issued fits.issued_once in_issued,
        )
        (ap (λ x. ok (record { omega = x }))
          (ap
              (λ x.
                x
                ⊙ (omega_of (λ i. holds i delta.issued)
                    ⊙ inv (omega_of (λ i. holds i delta.revoked))))
              is
            ∙ sum_of-change group other_tail valid (λ i. holds i delta.issued)
                (λ i. holds i delta.revoked) max_cred_num fits.issued_new fits.revoked_old))

  issued_from-NoRepeat :
      (issuance_by_default : Bool) (delta : RevocationRegistryDelta points)
      → Fits points delta (λ i. issuance_by_default)
      → NoRepeat (issued_from points access_tail max_cred_num issuance_by_default delta)
  unfolding issued_from
  issued_from-NoRepeat false delta fits = fits.issued_once
  issued_from-NoRepeat true delta fits =
      minus-NoRepeat (up_to max_cred_num) delta.revoked (up_to-NoRepeat max_cred_num)

  issued_from-InRange :
      (issuance_by_default : Bool) (delta : RevocationRegistryDelta points)
      → InRange max_cred_num delta.issued
      → InRange max_cred_num (issued_from points access_tail max_cred_num issuance_by_default delta)
  unfolding issued_from
  issued_from-InRange false delta range = range
  issued_from-InRange true delta range = λ i m.
      up_to-holds i max_cred_num (ground (arith, holds-minus i (up_to max_cred_num) delta.revoked))

  issued_from-apply :
      (issuance_by_default : Bool) (delta : RevocationRegistryDelta points)
      → Fits points delta (λ i. issuance_by_default)
      → (i : ℕ) → 1 ≤ i
      → i ≤ max_cred_num
      → holds i (issued_from points access_tail max_cred_num issuance_by_default delta)
        ≡ apply points delta (λ i. issuance_by_default) i
  unfolding issued_from
  issued_from-apply false delta fits i lo hi = ground arith
  issued_from-apply true delta fits i lo hi = ground (
    arith,
    holds-minus i (up_to max_cred_num) delta.revoked,
    holds-up_to i max_cred_num lo hi,
    fits.issued_new i,
  )

  -- The own index does not matter.
  sum_of-other_tail :
      (valid others : ℕ → Bool) (bound : ℕ)
      → bound ≤ max_cred_num
      → ((i : ℕ) → 1 ≤ i → i ≤ max_cred_num → others i ≡ (valid i && not (rev_idx == i)))
      → sum_of group other_tail others bound ≡ sum_of group other_tail valid bound
  unfolding sum_of
  sum_of-other_tail valid others zero le h = refl
  sum_of-other_tail valid others (suc i) le h =
      ap₂ ◌⊙◌
        (ap (λ b. pick group b (other_tail (suc i))) (h (suc i) (omega arith) le)
          ∙ pick-other_tail (valid (suc i)) (suc i))
        (sum_of-other_tail valid others i (omega arith) h)
    where
      pick-other_tail :
          (b : Bool) (j : ℕ)
          → pick group (b && not (rev_idx == j)) (other_tail j) ≡ pick group b (other_tail j)
      pick-other_tail false j = refl
      pick-other_tail true j = elim (Bool-cases (rev_idx == j)) [
        | inl e ↦ rw e refl
        | inr e ↦ rw e refl
      ]

  -- From a delta of the first state of a registry, where every index is valid or none is,
  -- `Witness::new` makes the witness of the state after the delta.
  pub new_witness-omega_of :
      (issuance_by_default : Bool) (delta : RevocationRegistryDelta points)
      → Fits points delta (λ i. issuance_by_default)
      → InRange max_cred_num delta.issued
      → new_witness points access_tail rev_idx max_cred_num issuance_by_default delta
        ≡ ok (record { omega = omega_of (apply points delta (λ i. issuance_by_default)) })
  unfolding new_witness
  new_witness-omega_of issuance_by_default delta fits in_issued =
      rw
        (add_tails-sum_list others one
          (λ i m. range i (ground (arith, holds-remove i rev_idx issued)))
          (ground (arith, holds-remove rev_idx rev_idx issued)))
        (ap (λ x. ok (record { omega = x }))
          (sum_list-sum_of group other_tail others max_cred_num one
              (remove-NoRepeat rev_idx issued (issued_from-NoRepeat issuance_by_default delta fits))
              (λ i m. range i (ground (arith, holds-remove i rev_idx issued)))
            ∙ group.one-mul _
            ∙ sum_of-other_tail (apply points delta (λ i. issuance_by_default))
                (λ i. holds i others) max_cred_num (omega arith)
                (λ i lo hi.
                  holds-remove i rev_idx issued
                  ∙ ap (λ b. b && not (rev_idx == i))
                      (issued_from-apply issuance_by_default delta fits i lo hi))))
    where
      issued : List ℕ
      issued = issued_from points access_tail max_cred_num issuance_by_default delta

      others : List ℕ
      others = remove rev_idx issued

      range : InRange max_cred_num issued
      range = issued_from-InRange issuance_by_default delta in_issued

  -- The witness that is made from a delta and then updated by the next one is the witness that is
  -- made from the two deltas merged.
  pub update_witness-merge :
      (issuance_by_default : Bool) (delta other : RevocationRegistryDelta points)
      → Fits points delta (λ i. issuance_by_default)
      → Fits points other (apply points delta (λ i. issuance_by_default))
      → other.prev_accum ≡ some delta.accum
      → InRange max_cred_num delta.issued
      → InRange max_cred_num other.issued
      → InRange max_cred_num other.revoked
      → (witness : Witness points) × (witness' : Witness points) × (merged : RevocationRegistryDelta
          points)
        × (new_witness points access_tail rev_idx max_cred_num issuance_by_default delta
            ≡ ok witness)
        × (update_witness points access_tail witness rev_idx max_cred_num other ≡ ok witness')
        × (merge points delta other ≡ ok merged)
        × (new_witness points access_tail rev_idx max_cred_num issuance_by_default merged
            ≡ ok witness')
  update_witness-merge issuance_by_default delta other fits fits' start in_issued in_issued'
        in_revoked' =
      let (merged, m, starts, ends, merged_fits, same) =
        merge-apply points delta other (λ i. issuance_by_default) fits fits' start in
      (
        record { omega = omega_of (apply points delta (λ i. issuance_by_default)) },
        record {
          omega = omega_of (apply points other (apply points delta (λ i. issuance_by_default)));
        },
        merged,
        new_witness-omega_of issuance_by_default delta fits in_issued,
        update_witness-omega_of (apply points delta (λ i. issuance_by_default)) _ other refl fits'
            in_issued' in_revoked',
        m,
        new_witness-omega_of issuance_by_default merged merged_fits (λ i m.
              elim (Bool-cases (holds i other.issued)) [
                | inl e ↦ in_issued' i e
                | inr e ↦ in_issued i (ground (arith, same i, merged_fits.issued_new i))
              ])
            ∙ ap (λ x. ok (record { omega = x }))
                (sum_of-congr group other_tail _ _ max_cred_num (λ i lo hi. same i)),
      )
