-- ===== src/Cl/Equality/Unrevealed.antt =====
-- The attributes that stay hidden: prover and verifier build the set in different orders.
use smartchaindb_experiment.Base.{String, ◌≡◌, true, arith}
use smartchaindb_experiment.Base.Sets.{
  contains, union, Distinct, contains-union, contains-difference, union-Distinct,
  difference-Distinct,
}
use smartchaindb_experiment.Cl.Types.{CredentialSchema, NonCredentialSchema, SubProofRequest}
use smartchaindb_experiment.Cl.Equality.Defs.{unrevealed_by_prover, unrevealed_by_verifier}

module _ (non_cred_schema : NonCredentialSchema) (cred_schema : CredentialSchema)
    (request : SubProofRequest) where
  -- Both sets hold the same names.
  pub unrevealed_same :
      (j : String)
      → contains j (unrevealed_by_prover non_cred_schema cred_schema request)
        ≡ contains j (unrevealed_by_verifier non_cred_schema cred_schema request)
  unfolding unrevealed_by_prover unrevealed_by_verifier
  unrevealed_same j = ground (
    arith,
    contains-difference j (union non_cred_schema.attrs cred_schema.attrs) request.revealed_attrs,
    contains-difference j (union cred_schema.attrs non_cred_schema.attrs) request.revealed_attrs,
    contains-union j non_cred_schema.attrs cred_schema.attrs,
    contains-union j cred_schema.attrs non_cred_schema.attrs,
  )

  pub unrevealed_names :
      (j : String)
      → contains j (unrevealed_by_verifier non_cred_schema cred_schema request) ≡ true
      → contains j (union cred_schema.attrs non_cred_schema.attrs) ≡ true
  unfolding unrevealed_by_verifier
  unrevealed_names j h = ground (
    arith,
    contains-difference j (union cred_schema.attrs non_cred_schema.attrs) request.revealed_attrs,
  )

  pub by_prover-Distinct :
      Distinct non_cred_schema.attrs
      → Distinct (unrevealed_by_prover non_cred_schema cred_schema request)
  unfolding unrevealed_by_prover
  by_prover-Distinct h =
      difference-Distinct (union non_cred_schema.attrs cred_schema.attrs) request.revealed_attrs
        (union-Distinct non_cred_schema.attrs cred_schema.attrs h)

  pub by_verifier-Distinct :
      Distinct cred_schema.attrs
      → Distinct (unrevealed_by_verifier non_cred_schema cred_schema request)
  unfolding unrevealed_by_verifier
  by_verifier-Distinct h =
      difference-Distinct (union cred_schema.attrs non_cred_schema.attrs) request.revealed_attrs
        (union-Distinct cred_schema.attrs non_cred_schema.attrs h)
