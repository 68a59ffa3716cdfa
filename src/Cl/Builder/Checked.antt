-- ===== src/Cl/Builder/Checked.antt =====
-- What the builder's check of its parameters establishes.
use text.Mathlib.TextEquality.{eq_iff}
use smartchaindb_experiment.Base.{String, true, List, [], ◌∷◌, ◌≡◌, refl, arith}
use smartchaindb_experiment.Base.Maps.{keys}
use smartchaindb_experiment.Base.Sets.{
  contains, union, subset, Distinct, subset-contains, contains-union,
}
use smartchaindb_experiment.Base.Outcome.{ok}
use smartchaindb_experiment.Cl.Types.{
  CredentialSchema, NonCredentialSchema, CredentialValues, CredentialPrimaryPublicKey,
  SubProofRequest,
}
use smartchaindb_experiment.Cl.Credential.{Within, IsConsistent}
use smartchaindb_experiment.Cl.Builder.Primary.{check_credential, names_of}

-- A list whose members are all in another is a subset of it.
pub subset_of_contains :
    (xs ys : List String)
    → ((j : String) → contains j xs ≡ true → contains j ys ≡ true)
    → subset xs ys ≡ true
subset_of_contains [] ys h = refl
subset_of_contains (x ∷ xs) ys h =
    let later = subset_of_contains xs ys (λ j m. h j (ground arith)) in
    let here : contains x ys ≡ true = h x (ground (arith, eq_iff x x)) in ground arith

-- The three tests.
check_credential-subset :
    (values : CredentialValues) (request : SubProofRequest) (cred_schema : CredentialSchema)
    → (non_cred_schema : NonCredentialSchema)
    → check_credential values request cred_schema non_cred_schema ≡ ok tt
    → (subset (union non_cred_schema.attrs cred_schema.attrs) (keys values.attrs_values) ≡ true)
      × (subset (keys values.attrs_values) (union non_cred_schema.attrs cred_schema.attrs) ≡ true)
      × (subset request.revealed_attrs (keys values.attrs_values) ≡ true)
      × (subset (names_of request.predicates) (keys values.attrs_values) ≡ true)
unfolding check_credential
check_credential-subset values request cred_schema non_cred_schema h = ground arith

-- When the check returns, the key has a number for every name of the schemas, and no name stands
-- twice in a schema or in the request, then schemas, values and request are consistent, as the
-- completeness of the proofs asks, and every predicate is about an attribute that has a value.
pub check_credential-IsConsistent :
    (pk : CredentialPrimaryPublicKey) (values : CredentialValues) (request : SubProofRequest)
    → (cred_schema : CredentialSchema) (non_cred_schema : NonCredentialSchema)
    → check_credential values request cred_schema non_cred_schema ≡ ok tt
    → Within pk.r (union cred_schema.attrs non_cred_schema.attrs)
    → Distinct cred_schema.attrs
    → Distinct non_cred_schema.attrs
    → Distinct request.revealed_attrs
    → IsConsistent pk cred_schema non_cred_schema values.attrs_values request
      × Within values.attrs_values (names_of request.predicates)
check_credential-IsConsistent pk values request cred_schema non_cred_schema h in_key d d' d'' =
    let (down, up, revealed, predicates) =
      check_credential-subset values request cred_schema non_cred_schema h in
    (
      record {
        cred_distinct = d;
        non_cred_distinct = d';
        revealed_distinct = d'';
        revealed_known =
            subset_of_contains request.revealed_attrs
              (union cred_schema.attrs non_cred_schema.attrs)
              (λ j m. ground (
                arith,
                contains-union j cred_schema.attrs non_cred_schema.attrs,
                contains-union j non_cred_schema.attrs cred_schema.attrs,
                subset-contains j _ _ up (subset-contains j _ _ revealed m),
              ));
        in_key = in_key;
        in_values = λ j m.
            subset-contains j (union non_cred_schema.attrs cred_schema.attrs)
              (keys values.attrs_values) down
              (ground (
                arith,
                contains-union j cred_schema.attrs non_cred_schema.attrs,
                contains-union j non_cred_schema.attrs cred_schema.attrs,
              ));
      },
      λ j m.
          subset-contains j (names_of request.predicates) (keys values.attrs_values) predicates m,
    )
