-- ===== src/Examples/RevocationClaims.antt =====
-- The theorems on revocation applied at concrete inputs where their hypotheses hold.
use smartchaindb_experiment.Base.{
  ℕ, ◌+◌, ◌*◌, ◌<◌, ◌==◌, ◌&&◌, not, List, [], ◌∷◌, ◌≡◌, refl, true, false, some, none, arith,
}
use smartchaindb_experiment.Base.Outcome.{ok}
use smartchaindb_experiment.Cl.Revocation.Delta.{
  RevocationRegistry, RevocationRegistryDelta, merge, from_parts, accum_of, starts_at,
}
use smartchaindb_experiment.Cl.Revocation.Merge.{apply, Fits, merge-apply}
use smartchaindb_experiment.Cl.Revocation.Tails.{
  RevocationTailsGenerator, new_tail, new_simple_tails_accessor, new_tails_generator, count,
  access_tail,
}
use smartchaindb_experiment.Cl.Revocation.Collect.{new_simple_tails_accessor-access_tail}
use smartchaindb_experiment.Cl.Revocation.Registry.{accumulator, Run}
use smartchaindb_experiment.Cl.Revocation.Issue.{
  new_revocation_registry, revoke_credential, get_index,
}
use smartchaindb_experiment.Cl.Revocation.Start.{new_revocation_registry-accumulator}
use smartchaindb_experiment.Cl.Revocation.Runs.{IsAfter, Run-IsAfter, Run-revoke}
use smartchaindb_experiment.Cl.Revocation.Witness.{Witness, new_witness, update_witness}
use smartchaindb_experiment.Cl.Revocation.Update.{
  update_witness-omega_of, update_witness-merge, omega_of,
}
use smartchaindb_experiment.Examples.Key.{Unit35, s_unit, age_unit}
use smartchaindb_experiment.Examples.Points.{points, scalars, tail, access}

-- The first delta issues 1 and 2, the second revokes 1 and issues 3.
abbrev first_delta : RevocationRegistryDelta points
first_delta = record { prev_accum = none; accum = s_unit; issued = 1 ∷ 2 ∷ []; revoked = [] }

abbrev second_delta : RevocationRegistryDelta points
second_delta = record {
  prev_accum = some s_unit;
  accum = age_unit;
  issued = 3 ∷ [];
  revoked = 1 ∷ [];
}

first_delta-Fits : Fits points first_delta (λ i. false)
first_delta-Fits = record {
  issued_once = (refl, (refl, tt));
  revoked_once = tt;
  issued_new = λ i h. refl;
  revoked_old = λ i h. ground arith;
}

second_delta-Fits : Fits points second_delta (apply points first_delta (λ i. false))
second_delta-Fits = record {
  issued_once = (refl, tt);
  revoked_once = (refl, tt);
  issued_new = λ i h. ground arith;
  revoked_old = λ i h. ground arith;
}

merge-apply_example :
    (merged : RevocationRegistryDelta points) × (merge points first_delta second_delta ≡ ok merged)
    × (merged.prev_accum ≡ none)
    × (merged.accum ≡ age_unit)
    × Fits points merged (λ i. false)
    × ((i : ℕ)
        → apply points merged (λ i. false) i
          ≡ apply points second_delta (apply points first_delta (λ i. false)) i)
merge-apply_example =
    merge-apply points first_delta second_delta (λ i. false) first_delta-Fits second_delta-Fits refl

tails_exist : (i : ℕ) → i < 2 * 3 + 1 → new_tail points scalars i s_unit 2 ≡ ok (tail i)
unfolding new_tail
tails_exist i lt = refl

new_simple_tails_accessor-access_tail_example :
    (accessor : List Unit35) × (generator : RevocationTailsGenerator points scalars)
    × (new_simple_tails_accessor points scalars (new_tails_generator points scalars 3 2 s_unit)
        ≡ ok (some (accessor, generator)))
    × (count points scalars generator ≡ 0)
    × ((i : ℕ) → i < 7 → access_tail points scalars accessor i ≡ ok (tail i))
new_simple_tails_accessor-access_tail_example =
    new_simple_tails_accessor-access_tail points scalars tail s_unit 2 3 (omega arith) tails_exist

-- A registry for three credentials, all of them valid.
abbrev full_registry : RevocationRegistry points
full_registry = record { accum = accumulator points tail 3 (omega arith) (λ i. true) }

abbrev start_delta : RevocationRegistryDelta points
start_delta = record {
  prev_accum = some full_registry.accum;
  accum = full_registry.accum;
  issued = [];
  revoked = [];
}

-- The registry after 2 is revoked, and the delta of that call, which is the merged one too.
abbrev partial_registry : RevocationRegistry points
partial_registry = record {
  accum = points.group.◌⊙◌ full_registry.accum (points.group.inv (tail 2));
}

abbrev revoked_delta : RevocationRegistryDelta points
revoked_delta = record {
  prev_accum = some full_registry.accum;
  accum = partial_registry.accum;
  issued = [];
  revoked = 2 ∷ [];
}

revoked-Run :
    Run points tail 3 (omega arith) access full_registry (λ i. true) partial_registry revoked_delta
unfolding from_parts accum_of revoke_credential get_index merge starts_at
revoked-Run =
    Run.revoke full_registry partial_registry start_delta revoked_delta revoked_delta 2 Run.start
      (omega arith) (omega arith) refl refl (rw (points.same_refl full_registry.accum) refl)

-- Then 1 is revoked.
Run-revoke_example :
    (after : RevocationRegistry points) × (delta : RevocationRegistryDelta points)
    × (merged' : RevocationRegistryDelta points) × (revoke_credential points partial_registry 3 1
          access
        ≡ ok (after, delta))
    × (merge points revoked_delta delta ≡ ok merged')
    × Run points tail 3 (omega arith) access full_registry (λ i. true) after merged'
    × ((i : ℕ)
        → apply points merged' (λ i. true) i
          ≡ (apply points revoked_delta (λ i. true) i && not (1 == i)))
Run-revoke_example =
    Run-revoke points tail 3 (omega arith) access (λ i lt. refl) full_registry partial_registry
      (λ i. true) refl revoked_delta revoked-Run 1 (omega arith) (omega arith) refl

Run-IsAfter_example :
    IsAfter points tail 3 (omega arith) (λ i. true) full_registry partial_registry revoked_delta
Run-IsAfter_example =
    Run-IsAfter points tail 3 (omega arith) access (λ i lt. refl) full_registry (λ i. true) refl
      partial_registry revoked_delta revoked-Run

new_revocation_registry-accumulator_example :
    (rev_reg : RevocationRegistry points) × (new_revocation_registry points scalars s_unit 2 3 true
      ≡ ok rev_reg)
    × (rev_reg.accum ≡ accumulator points tail 3 (omega arith) (λ i. true))
new_revocation_registry-accumulator_example =
    new_revocation_registry-accumulator points scalars tail s_unit 2 3 (omega arith) tails_exist
      true

update_witness-omega_of_example :
    update_witness points access
      (record {
        omega =
            omega_of points tail 3
              (omega arith)
              access
              (λ i lt. refl)
              2
              (omega arith)
              (omega arith)
              (apply points first_delta (λ i. false));
      })
      2
      3
      second_delta
    ≡ ok (record {
      omega =
          omega_of points tail 3
            (omega arith)
            access
            (λ i lt. refl)
            2
            (omega arith)
            (omega arith)
            (apply points second_delta (apply points first_delta (λ i. false)));
    })
update_witness-omega_of_example =
    update_witness-omega_of points tail 3 (omega arith) access (λ i lt. refl) 2 (omega arith)
      (omega arith) (apply points first_delta (λ i. false)) _ second_delta refl second_delta-Fits
      (λ i h. ground arith) (λ i h. ground arith)

update_witness-merge_example :
    (witness : Witness points) × (witness' : Witness points) × (merged : RevocationRegistryDelta
      points)
    × (new_witness points access 2 3 false first_delta ≡ ok witness)
    × (update_witness points access witness 2 3 second_delta ≡ ok witness')
    × (merge points first_delta second_delta ≡ ok merged)
    × (new_witness points access 2 3 false merged ≡ ok witness')
update_witness-merge_example =
    update_witness-merge points tail 3 (omega arith) access (λ i lt. refl) 2 (omega arith)
      (omega arith) false first_delta second_delta first_delta-Fits second_delta-Fits refl
      (λ i h. ground arith) (λ i h. ground arith) (λ i h. ground arith)
