-- ===== src/Cl/Credential.antt =====
-- What the proofs ask of a key, a signature, a request and the values that go together.
use text.Mathlib.TextEquality.{eq_iff}
use smartchaindb_experiment.Base.{arith, ◌∷◌, [], String, List, ◌≡◌, sym, true, none, some}
use smartchaindb_experiment.Base.Int.{pos}
use smartchaindb_experiment.Base.Maps.{Map, lookup, keys, contains_key, lookup_of_contains_key}
use smartchaindb_experiment.Base.Entries.{Entries, Entries-of_lookup}
use smartchaindb_experiment.Base.Sets.{contains, union, subset, Distinct}
use smartchaindb_experiment.Bn.{BigNumber, OpenSsl, Residues}
use smartchaindb_experiment.Cl.Types.{
  CredentialSchema, NonCredentialSchema, CredentialValue, value, CredentialPrimaryPublicKey,
  PrimaryCredentialSignature, SubProofRequest,
}
use smartchaindb_experiment.Cl.Teq.Laws.{KeyRep, teq_product, Covers, Gives}

-- The number of a name, or zero.
abbrev pub number_at : Map BigNumber → String → BigNumber
number_at m k = elim (lookup k m) [ none ↦ pos 0 | some x ↦ x ]

-- The value of an attribute, or zero.
unfoldable pub value_at : Map CredentialValue → String → BigNumber
value_at m k = elim (lookup k m) [ none ↦ pos 0 | some x ↦ value x ]

pub value_at-lookup :
    (m : Map CredentialValue) (k : String) (x : CredentialValue)
    → lookup k m ≡ some x
    → value x ≡ value_at m k
unfolding value_at
value_at-lookup m k x e = rw (e, value_at)

pub lookup-number_at :
    (m : Map BigNumber) (k : String) → contains_key k m ≡ true → lookup k m ≡ some (number_at m k)
lookup-number_at m k h = let (x, e) = lookup_of_contains_key k m h in rw (e, number_at)

pub number_at-lookup :
    (m : Map BigNumber) (k : String) (x : BigNumber) → lookup k m ≡ some x → number_at m k ≡ x
number_at-lookup m k x e = rw (e, number_at)

-- With no name twice, every entry is the number of its name.
pub Entries-number_at : (m : Map BigNumber) → Distinct (keys m) → Entries m (number_at m)
Entries-number_at m d =
    Entries-of_lookup m (number_at m) d (λ k x e. sym (number_at-lookup m k x e))

-- Every name of one list is a name of a map.
abbrev pub Within {ℓ} : {V : Type ℓ} → Map V → List String → Type 0
Within m ks = (k : String) → contains k ks ≡ true → contains_key k m ≡ true

-- A signature on the values of the named attributes: Z is the product of A^e, S^v, Rctxt^m2 and the
-- powers r_k^m_k.
pub record IsSigned (lib : OpenSsl) (pk : CredentialPrimaryPublicKey) (residues : Residues lib pk.n)
    (key : KeyRep lib pk residues) (sig : PrimaryCredentialSignature) (values : Map CredentialValue)
    (names : List String) : Type 0 where
  pub a : residues.group.Carrier
  pub a-Rep : residues.Rep sig.a a
  pub signed : key.z ≡ teq_product lib pk residues key a sig.e sig.v (value_at values) sig.m_2 names

-- The schemas' names and the request's: no name twice, each in the key and each with a value.
pub record IsConsistent (pk : CredentialPrimaryPublicKey) (cred_schema : CredentialSchema)
    (non_cred_schema : NonCredentialSchema) (values : Map CredentialValue)
    (request : SubProofRequest) : Type 0 where
  pub cred_distinct : Distinct cred_schema.attrs
  pub non_cred_distinct : Distinct non_cred_schema.attrs
  pub revealed_distinct : Distinct request.revealed_attrs
  pub revealed_known :
      subset request.revealed_attrs (union cred_schema.attrs non_cred_schema.attrs) ≡ true
  pub in_key : Within pk.r (union cred_schema.attrs non_cred_schema.attrs)
  pub in_values : Within values (union cred_schema.attrs non_cred_schema.attrs)

Within-tail {ℓ} :
    {V : Type ℓ} (m : Map V) (k : String) (ks : List String) → Within m (k ∷ ks) → Within m ks
Within-tail m k ks h j e = h j (ground (arith, eq_iff k j))

Within-head {ℓ} :
    {V : Type ℓ} (m : Map V) (k : String) (ks : List String)
    → Within m (k ∷ ks)
    → contains_key k m ≡ true
Within-head m k ks h = h k (ground (arith, eq_iff k k))

pub Within-Covers {ℓ} : {V : Type ℓ} (m : Map V) (ks : List String) → Within m ks → Covers m ks
Within-Covers m [] h = tt
Within-Covers m (k ∷ ks) h =
    (lookup_of_contains_key k m (Within-head m k ks h), Within-Covers m ks (Within-tail m k ks h))

pub Within-Gives : (m : Map BigNumber) (ks : List String) → Within m ks → Gives m (number_at m) ks
Within-Gives m [] h = tt
Within-Gives m (k ∷ ks) h =
    (lookup-number_at m k (Within-head m k ks h), Within-Gives m ks (Within-tail m k ks h))

-- A map that answers with a function's values on a list of names gives them.
pub Gives-of_lookup {ℓ} :
    {V : Type ℓ} (m : Map V) (f : String → V) (ks : List String)
    → ((j : String) → contains j ks ≡ true → lookup j m ≡ some (f j))
    → Gives m f ks
Gives-of_lookup m f [] h = tt
Gives-of_lookup m f (k ∷ ks) h = (
  h k (ground (arith, eq_iff k k)),
  Gives-of_lookup m f ks (λ j e. h j (ground (arith, eq_iff k j))),
)
