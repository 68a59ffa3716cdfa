-- ===== src/Examples/InputClaims.antt =====
-- The theorems on the builders of the inputs applied to calls of which some fail.
use text.Mathlib.Text.{◌==◌}
use smartchaindb_experiment.Base.{String, none, List, [], ◌∷◌, ◌≡◌, if◌then◌else◌}
use smartchaindb_experiment.Base.Int.{pos}
use smartchaindb_experiment.Base.Maps.{lookup, keys}
use smartchaindb_experiment.Base.Sets.{contains, Distinct}
use smartchaindb_experiment.Base.Outcome.{UrsaCryptoResult, ok, err, invalid_structure}
use smartchaindb_experiment.Bn.{BigNumber}
use smartchaindb_experiment.Cl.Types.{Predicate}
use smartchaindb_experiment.Cl.Verifier.Checks.{has_predicate}
use smartchaindb_experiment.Cl.Inputs.{
  new_credential_values_builder, finalize_values, new_sub_proof_request_builder, finalize_request,
}
use smartchaindb_experiment.Cl.Inputs.Values.{
  ValueCall, call_values, last_value, finalize-call_values,
}
use smartchaindb_experiment.Cl.Inputs.Request.{
  RequestCall, call_requests, any_call, reveals, asks, IsRequest, finalize-call_requests,
}

-- Only "28" is a number.
abbrev from_dec : String → UrsaCryptoResult BigNumber
from_dec text = if text == "28" then ok (pos 28) else err invalid_structure

abbrev calls : List ValueCall
calls =
    ValueCall.dec_known "age" "28"
    ∷ ValueCall.dec_known "age" "old"
    ∷ ValueCall.value_hidden "master_secret" (pos 5)
    ∷ []

finalize-call_values_example :
    Distinct (
      keys
        (finalize_values (call_values from_dec calls new_credential_values_builder)).attrs_values)
    × ((j : String)
        → lookup j
            (finalize_values
              (call_values from_dec calls new_credential_values_builder)).attrs_values
          ≡ last_value from_dec j calls none)
finalize-call_values_example = finalize-call_values from_dec calls

abbrev asked_calls : List RequestCall
asked_calls =
    RequestCall.revealed_attr "name"
    ∷ RequestCall.predicate "age" "GE" (pos 18)
    ∷ RequestCall.predicate "age" "EQ" (pos 18)
    ∷ RequestCall.predicate "age" "GE" (pos 18)
    ∷ []

finalize-call_requests_example :
    IsRequest (call_requests asked_calls new_sub_proof_request_builder)
    × ((j : String)
        → contains j
            (finalize_request
              (call_requests asked_calls new_sub_proof_request_builder)).revealed_attrs
          ≡ any_call (reveals j) asked_calls)
    × ((p : Predicate)
        → has_predicate p
            (finalize_request (call_requests asked_calls new_sub_proof_request_builder)).predicates
          ≡ any_call (asks p) asked_calls)
finalize-call_requests_example = finalize-call_requests asked_calls
