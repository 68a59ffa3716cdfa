-- ===== src/Cl/Inputs/Values.antt =====
-- What any sequence of calls of `CredentialValuesBuilder` builds.
use smartchaindb_experiment.Base.{
  String, Option, none, some, List, [], ◌∷◌, ◌≡◌, refl, ap, ◌∙◌, arith, if◌then◌else◌,
}
use text.Mathlib.Text.{◌==◌}
use smartchaindb_experiment.Base.Maps.{lookup, keys, lookup-insert}
use smartchaindb_experiment.Base.Entries.{keys-insert-Distinct}
use smartchaindb_experiment.Base.Sets.{Distinct}
use smartchaindb_experiment.Base.Outcome.{UrsaCryptoResult, ok, err, panicked, ◌>>=◌}
use smartchaindb_experiment.Bn.{BigNumber}
use smartchaindb_experiment.Cl.Types.{CredentialValue}
use smartchaindb_experiment.Cl.Inputs.{
  CredentialValuesBuilder, new_credential_values_builder, insert_value, add_value_known,
  add_value_hidden, add_value_commitment, add_dec_known, add_dec_hidden, add_dec_commitment,
  finalize_values,
}

-- A call of the builder.
pub data ValueCall : Type 0 where
  value_known : String → BigNumber → ValueCall
  value_hidden : String → BigNumber → ValueCall
  value_commitment : String → BigNumber → BigNumber → ValueCall
  dec_known : String → String → ValueCall
  dec_hidden : String → String → ValueCall
  dec_commitment : String → String → String → ValueCall

-- An outcome's value, where there is one.
abbrev pub returned {ℓ} : {A : Type ℓ} → UrsaCryptoResult A → Option A
returned (ok a) = some a
returned (err kind) = none
returned panicked = none

abbrev pub with_value {ℓ κ} : {A : Type ℓ} {B : Type κ} → (A → B) → Option A → Option B
with_value f none = none
with_value f (some a) = some (f a)

-- The later of two values, if there is a later one.
abbrev pub replaced {ℓ} : {A : Type ℓ} → Option A → Option A → Option A
replaced old none = old
replaced old (some new) = some new

module _ (from_dec : String → UrsaCryptoResult BigNumber) where
  unfoldable pub call_value :
      ValueCall → CredentialValuesBuilder → UrsaCryptoResult (Unit {0}) × CredentialValuesBuilder
  call_value (value_known attr v) builder = add_value_known builder attr v
  call_value (value_hidden attr v) builder = add_value_hidden builder attr v
  call_value (value_commitment attr v b) builder = add_value_commitment builder attr v b
  call_value (dec_known attr v) builder = add_dec_known from_dec builder attr v
  call_value (dec_hidden attr v) builder = add_dec_hidden from_dec builder attr v
  call_value (dec_commitment attr v b) builder = add_dec_commitment from_dec builder attr v b

  -- The calls one after the other, those that fail among them.
  unfoldable pub call_values : List ValueCall → CredentialValuesBuilder → CredentialValuesBuilder
  call_values [] builder = builder
  call_values (call ∷ calls) builder = call_values calls (call_value call builder).1

  -- The name that a call is about.
  unfoldable pub called_name : ValueCall → String
  called_name (value_known attr v) = attr
  called_name (value_hidden attr v) = attr
  called_name (value_commitment attr v b) = attr
  called_name (dec_known attr v) = attr
  called_name (dec_hidden attr v) = attr
  called_name (dec_commitment attr v b) = attr

  -- The value that a call is about, none where a text is not a number.
  unfoldable pub called_value : ValueCall → Option CredentialValue
  called_value (value_known attr v) = some (CredentialValue.known v)
  called_value (value_hidden attr v) = some (CredentialValue.hidden v)
  called_value (value_commitment attr v b) = some (CredentialValue.commitment v b)
  called_value (dec_known attr v) = with_value CredentialValue.known (returned (from_dec v))
  called_value (dec_hidden attr v) = with_value CredentialValue.hidden (returned (from_dec v))
  called_value (dec_commitment attr v b) = elim (returned (from_dec v)) [
    | none ↦ none
    | some x ↦ with_value (CredentialValue.commitment x) (returned (from_dec b))
  ]

  -- The value of a name after the calls, by the last one about it that has a value.
  unfoldable pub last_value :
      String → List ValueCall → Option CredentialValue → Option CredentialValue
  last_value j [] before = before
  last_value j (call ∷ calls) before =
      last_value j calls
        (if called_name call == j then replaced before (called_value call) else before)

  insert_value-lookup :
      (builder : CredentialValuesBuilder) (attr j : String)
      (value : UrsaCryptoResult CredentialValue)
      → lookup j (insert_value builder attr value).1.attrs_values ≡ (
          if attr == j
          then replaced (lookup j builder.attrs_values) (returned value)
          else lookup j builder.attrs_values)
  unfolding insert_value
  insert_value-lookup builder attr j (ok v) = lookup-insert attr j v builder.attrs_values
  insert_value-lookup builder attr j (err kind) = ground arith
  insert_value-lookup builder attr j panicked = ground arith

  insert_value-Distinct :
      (builder : CredentialValuesBuilder) (attr : String) (value : UrsaCryptoResult CredentialValue)
      → Distinct (keys builder.attrs_values)
      → Distinct (keys (insert_value builder attr value).1.attrs_values)
  unfolding insert_value
  insert_value-Distinct builder attr (ok v) d = keys-insert-Distinct attr v builder.attrs_values d
  insert_value-Distinct builder attr (err kind) d = d
  insert_value-Distinct builder attr panicked d = d

  returned-bind :
      {A B : Type 0} (m : UrsaCryptoResult A) (f : A → B)
      → returned (m >>= λ a. ok (f a)) ≡ with_value f (returned m)
  returned-bind (ok a) f = refl
  returned-bind (err kind) f = refl
  returned-bind panicked f = refl

  returned-bind_twice :
      (m m' : UrsaCryptoResult BigNumber)
      → returned (m >>= λ v. m' >>= λ b. ok (CredentialValue.commitment v b)) ≡ elim (returned m) [
        | none ↦ none
        | some x ↦ with_value (CredentialValue.commitment x) (returned m')
      ]
  returned-bind_twice (ok v) m' = returned-bind m' (CredentialValue.commitment v)
  returned-bind_twice (err kind) m' = refl
  returned-bind_twice panicked m' = refl

  -- Every call is an insertion of its value under its name.
  call_value-insert :
      (call : ValueCall) (builder : CredentialValuesBuilder)
      → (value : UrsaCryptoResult CredentialValue) × (call_value call builder
          ≡ insert_value builder (called_name call) value)
        × (returned value ≡ called_value call)
  unfolding call_value called_name called_value add_value_known add_value_hidden
      add_value_commitment add_dec_known add_dec_hidden add_dec_commitment
  call_value-insert (value_known attr v) builder = (_, refl, refl)
  call_value-insert (value_hidden attr v) builder = (_, refl, refl)
  call_value-insert (value_commitment attr v b) builder = (_, refl, refl)
  call_value-insert (dec_known attr v) builder =
      (_, refl, returned-bind (from_dec v) CredentialValue.known)
  call_value-insert (dec_hidden attr v) builder =
      (_, refl, returned-bind (from_dec v) CredentialValue.hidden)
  call_value-insert (dec_commitment attr v b) builder =
      (_, refl, returned-bind_twice (from_dec v) (from_dec b))

  call_values-lookup :
      (calls : List ValueCall) (builder : CredentialValuesBuilder) (j : String)
      → lookup j (call_values calls builder).attrs_values
        ≡ last_value j calls (lookup j builder.attrs_values)
  unfolding call_values last_value
  call_values-lookup [] builder j = refl
  call_values-lookup (call ∷ calls) builder j =
      let (value, inserted, valued) = call_value-insert call builder in
      call_values-lookup calls (call_value call builder).1 j
      ∙ ap (last_value j calls) (
          ap (λ r. lookup j r.1.attrs_values) inserted
          ∙ insert_value-lookup builder (called_name call) j value
          ∙ ap
              (λ o.
                if called_name call == j
                then replaced (lookup j builder.attrs_values) o
                else lookup j builder.attrs_values)
              valued)

  call_values-Distinct :
      (calls : List ValueCall) (builder : CredentialValuesBuilder)
      → Distinct (keys builder.attrs_values)
      → Distinct (keys (call_values calls builder).attrs_values)
  unfolding call_values
  call_values-Distinct [] builder d = d
  call_values-Distinct (call ∷ calls) builder d =
      let (value, inserted, valued) = call_value-insert call builder in
      call_values-Distinct calls (call_value call builder).1
        (rw inserted (insert_value-Distinct builder (called_name call) value d))

  -- Whatever the calls of the builder and however many of them fail, what `finalize` returns has no
  -- name twice, and every name has the value of the last call about it whose texts are numbers, or
  -- none where there is no such call.
  pub finalize-call_values :
      (calls : List ValueCall)
      → Distinct
          (keys (finalize_values (call_values calls new_credential_values_builder)).attrs_values)
        × ((j : String)
            → lookup j
                (finalize_values (call_values calls new_credential_values_builder)).attrs_values
              ≡ last_value j calls none)
  unfolding finalize_values new_credential_values_builder
  finalize-call_values calls = (
    call_values-Distinct calls (record { attrs_values = [] }) tt,
    λ j. call_values-lookup calls (record { attrs_values = [] }) j,
  )
