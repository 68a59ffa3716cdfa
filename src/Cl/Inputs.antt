-- ===== src/Cl/Inputs.antt =====
-- The builders of the inputs: `CredentialSchemaBuilder`, `NonCredentialSchemaBuilder`,
-- `CredentialValuesBuilder` and `SubProofRequestBuilder` of ursa_Master/libursa/src/cl/mod.rs. A call
-- returns its result and the builder after it.
pub mod Values
pub mod Request
use text.Mathlib.Text
use smartchaindb_experiment.Base.{
  String, true, false, Option, none, some, List, [], ◌∷◌, ◌++◌, if◌then◌else◌,
}
use smartchaindb_experiment.Base.Int.{ℤ}
use smartchaindb_experiment.Base.Maps.{Map}
use smartchaindb_experiment.Base.Maps
use smartchaindb_experiment.Base.Sets.{insert}
use smartchaindb_experiment.Base.Outcome.{
  UrsaCryptoResult, ok, err, panicked, invalid_structure, ◌>>=◌,
}
use smartchaindb_experiment.Bn.{BigNumber}
use smartchaindb_experiment.Cl.Types.{
  CredentialSchema, NonCredentialSchema, CredentialValue, CredentialValues, Predicate,
  PredicateType, SubProofRequest,
}
use smartchaindb_experiment.Cl.Verifier.Checks.{has_predicate}

pub record CredentialSchemaBuilder : Type 0 where
  pub attrs : List String

unfoldable pub new_credential_schema_builder : CredentialSchemaBuilder
new_credential_schema_builder = record { attrs = [] }

unfoldable pub add_attr : CredentialSchemaBuilder → String → CredentialSchemaBuilder
add_attr builder attr = record { attrs = insert attr builder.attrs }

unfoldable pub finalize_schema : CredentialSchemaBuilder → CredentialSchema
finalize_schema builder = record { attrs = builder.attrs }

pub record NonCredentialSchemaBuilder : Type 0 where
  pub attrs : List String

unfoldable pub new_non_credential_schema_builder : NonCredentialSchemaBuilder
new_non_credential_schema_builder = record { attrs = [] }

unfoldable pub add_non_credential_attr :
    NonCredentialSchemaBuilder → String → NonCredentialSchemaBuilder
add_non_credential_attr builder attr = record { attrs = insert attr builder.attrs }

unfoldable pub finalize_non_credential_schema : NonCredentialSchemaBuilder → NonCredentialSchema
finalize_non_credential_schema builder = record { attrs = builder.attrs }

pub record CredentialValuesBuilder : Type 0 where
  pub attrs_values : Map CredentialValue

unfoldable pub new_credential_values_builder : CredentialValuesBuilder
new_credential_values_builder = record { attrs_values = [] }

-- `self.attrs_values.insert(attr, value)`, where the value may not be there.
unfoldable pub insert_value :
    CredentialValuesBuilder
    → String
    → UrsaCryptoResult CredentialValue
    → UrsaCryptoResult (Unit {0}) × CredentialValuesBuilder
insert_value builder attr (ok value) =
    (ok tt, record { attrs_values = Maps.insert attr value builder.attrs_values })
insert_value builder attr (err kind) = (err kind, builder)
insert_value builder attr panicked = (panicked, builder)

unfoldable pub add_value_known :
    CredentialValuesBuilder
    → String
    → BigNumber
    → UrsaCryptoResult (Unit {0}) × CredentialValuesBuilder
add_value_known builder attr value = insert_value builder attr (ok (CredentialValue.known value))

unfoldable pub add_value_hidden :
    CredentialValuesBuilder
    → String
    → BigNumber
    → UrsaCryptoResult (Unit {0}) × CredentialValuesBuilder
add_value_hidden builder attr value = insert_value builder attr (ok (CredentialValue.hidden value))

unfoldable pub add_value_commitment :
    CredentialValuesBuilder
    → String
    → BigNumber
    → BigNumber
    → UrsaCryptoResult (Unit {0}) × CredentialValuesBuilder
add_value_commitment builder attr value blinding_factor =
    insert_value builder attr (ok (CredentialValue.commitment value blinding_factor))

-- `BigNumber::from_dec`, a call of the crate, is a parameter.
module _ (from_dec : String → UrsaCryptoResult BigNumber) where
  unfoldable pub add_dec_known :
      CredentialValuesBuilder
      → String
      → String
      → UrsaCryptoResult (Unit {0}) × CredentialValuesBuilder
  add_dec_known builder attr value =
      insert_value builder attr (from_dec value >>= λ v. ok (CredentialValue.known v))

  unfoldable pub add_dec_hidden :
      CredentialValuesBuilder
      → String
      → String
      → UrsaCryptoResult (Unit {0}) × CredentialValuesBuilder
  add_dec_hidden builder attr value =
      insert_value builder attr (from_dec value >>= λ v. ok (CredentialValue.hidden v))

  unfoldable pub add_dec_commitment :
      CredentialValuesBuilder
      → String
      → String
      → String
      → UrsaCryptoResult (Unit {0}) × CredentialValuesBuilder
  add_dec_commitment builder attr value blinding_factor = insert_value builder attr (
      from_dec value >>= λ v. from_dec blinding_factor >>= λ b. ok (CredentialValue.commitment v b))

unfoldable pub finalize_values : CredentialValuesBuilder → CredentialValues
finalize_values builder = record { attrs_values = builder.attrs_values }

pub record SubProofRequestBuilder : Type 0 where
  pub value : SubProofRequest

unfoldable pub new_sub_proof_request_builder : SubProofRequestBuilder
new_sub_proof_request_builder = record { value = record { revealed_attrs = []; predicates = [] } }

unfoldable pub add_revealed_attr : SubProofRequestBuilder → String → SubProofRequestBuilder
add_revealed_attr builder attr = record {
  value = record builder.value { revealed_attrs = insert attr builder.value.revealed_attrs };
}

-- The four texts of a condition.
unfoldable pub parse_type : String → Option PredicateType
parse_type p_type =
    if Text.◌==◌ p_type "GE"
    then some PredicateType.ge
    else if Text.◌==◌ p_type "LE"
    then some PredicateType.le
    else if Text.◌==◌ p_type "GT"
    then some PredicateType.gt
    else if Text.◌==◌ p_type "LT"
    then some PredicateType.lt
    else none

-- `predicates.insert(predicate)`
unfoldable pub insert_predicate : Predicate → List Predicate → List Predicate
insert_predicate predicate predicates =
    if has_predicate predicate predicates then predicates else predicates ++ (predicate ∷ [])

unfoldable pub add_typed_predicate :
    SubProofRequestBuilder
    → String
    → Option PredicateType
    → ℤ
    → UrsaCryptoResult (Unit {0}) × SubProofRequestBuilder
add_typed_predicate builder attr_name none value = (err invalid_structure, builder)
add_typed_predicate builder attr_name (some p_type) value = (
  ok tt,
  record {
    value = record builder.value {
      predicates =
          insert_predicate (record { attr_name = attr_name; p_type = p_type; bound = value })
            builder.value.predicates;
    };
  },
)

unfoldable pub add_predicate :
    SubProofRequestBuilder
    → String
    → String
    → ℤ
    → UrsaCryptoResult (Unit {0}) × SubProofRequestBuilder
add_predicate builder attr_name p_type value =
    add_typed_predicate builder attr_name (parse_type p_type) value

unfoldable pub finalize_request : SubProofRequestBuilder → SubProofRequest
finalize_request builder = builder.value
