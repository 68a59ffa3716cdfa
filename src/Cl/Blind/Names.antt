-- ===== src/Cl/Blind/Names.antt =====
-- The names of the hidden and of the committed attributes.
use text.Mathlib.Text.{◌==◌}
use text.Mathlib.TextEquality.{eq_iff}
use smartchaindb_experiment.Base.{
  String, true, false, List, [], ◌∷◌, ◌≡◌, refl, none, some, ap₂, inl, inr, arith, Bool-cases,
}
use smartchaindb_experiment.Base.Int.{pos}
use smartchaindb_experiment.Base.Maps.{Map, lookup, keys, contains_key}
use smartchaindb_experiment.Base.Sets.{contains, Distinct}
use smartchaindb_experiment.Group.{AbGroup, prod}
use smartchaindb_experiment.Bn.{BigNumber}
use smartchaindb_experiment.Cl.Types.{CredentialValue, is_hidden}
use smartchaindb_experiment.Cl.Blind.{hidden_names}

unfoldable pub committed_names : Map CredentialValue → List String
committed_names [] = []
committed_names ((attr, CredentialValue.commitment v b) ∷ values) = attr ∷ committed_names values
committed_names ((attr, CredentialValue.known v) ∷ values) = committed_names values
committed_names ((attr, CredentialValue.hidden v) ∷ values) = committed_names values

unfoldable pub blinding_of : CredentialValue → BigNumber
blinding_of (CredentialValue.commitment v b) = b
blinding_of (CredentialValue.known v) = pos 0
blinding_of (CredentialValue.hidden v) = pos 0

-- The blinding factor of a committed attribute, or zero.
unfoldable pub blinding_at : Map CredentialValue → String → BigNumber
blinding_at m k = elim (lookup k m) [ none ↦ pos 0 | some x ↦ blinding_of x ]

pub hidden_names-keys :
    (m : Map CredentialValue) (j : String)
    → contains j (hidden_names m) ≡ true
    → contains_key j m ≡ true
unfolding hidden_names is_hidden
hidden_names-keys [] j h = ground arith
hidden_names-keys ((k, CredentialValue.known v) ∷ m) j h = ground (arith, hidden_names-keys m j)
hidden_names-keys ((k, CredentialValue.hidden v) ∷ m) j h = ground (arith, hidden_names-keys m j)
hidden_names-keys ((k, CredentialValue.commitment v b) ∷ m) j h =
    ground (arith, hidden_names-keys m j)

pub committed_names-keys :
    (m : Map CredentialValue) (j : String)
    → contains j (committed_names m) ≡ true
    → contains_key j m ≡ true
unfolding committed_names
committed_names-keys [] j h = ground arith
committed_names-keys ((k, CredentialValue.known v) ∷ m) j h =
    ground (arith, committed_names-keys m j)
committed_names-keys ((k, CredentialValue.hidden v) ∷ m) j h =
    ground (arith, committed_names-keys m j)
committed_names-keys ((k, CredentialValue.commitment v b) ∷ m) j h =
    ground (arith, committed_names-keys m j)

-- A product depends only on the values at its names.
pub prod_congr :
    (g : AbGroup) (f f' : String → g.Carrier) (names : List String)
    → ((j : String) → contains j names ≡ true → f j ≡ f' j)
    → prod g f names ≡ prod g f' names
unfolding prod
prod_congr g f f' [] h = refl
prod_congr g f f' (k ∷ names) h =
    ap₂ g.◌⊙◌ (h k (ground (arith, eq_iff k k)))
      (prod_congr g f f' names (λ j e. h j (ground (arith, eq_iff k j))))

clash :
    (k j : String) (names : List String)
    → (k == j) ≡ true
    → contains k names ≡ false
    → contains j names ≡ true
    → ⊥
clash k j names same absent there = ground (arith, eq_iff k j)

-- A name of the list of hidden attributes is that of a hidden attribute.
pub hidden_names-lookup :
    (m : Map CredentialValue) (j : String)
    → Distinct (keys m)
    → contains j (hidden_names m) ≡ true
    → (v : BigNumber) × (lookup j m ≡ some (CredentialValue.hidden v))
unfolding hidden_names is_hidden
hidden_names-lookup [] j d h = ground arith
hidden_names-lookup ((k, CredentialValue.known w) ∷ m) j d h = elim (Bool-cases (k == j)) [
  | inl e ↦ absurd (clash k j (keys m) e d.0 (hidden_names-keys m j h))
  | inr e ↦ rw e (hidden_names-lookup m j d.1 h)
]
hidden_names-lookup ((k, CredentialValue.commitment w b) ∷ m) j d h = elim (Bool-cases (k == j)) [
  | inl e ↦ absurd (clash k j (keys m) e d.0 (hidden_names-keys m j h))
  | inr e ↦ rw e (hidden_names-lookup m j d.1 h)
]
hidden_names-lookup ((k, CredentialValue.hidden w) ∷ m) j d h = elim (Bool-cases (k == j)) [
  | inl e ↦ (w, rw e refl)
  | inr e ↦ rw e (hidden_names-lookup m j d.1 (rw e at h))
]

pub committed_names-lookup :
    (m : Map CredentialValue) (j : String)
    → Distinct (keys m)
    → contains j (committed_names m) ≡ true
    → (v b : BigNumber) × (lookup j m ≡ some (CredentialValue.commitment v b))
unfolding committed_names
committed_names-lookup [] j d h = ground arith
committed_names-lookup ((k, CredentialValue.known w) ∷ m) j d h = elim (Bool-cases (k == j)) [
  | inl e ↦ absurd (clash k j (keys m) e d.0 (committed_names-keys m j h))
  | inr e ↦ rw e (committed_names-lookup m j d.1 h)
]
committed_names-lookup ((k, CredentialValue.hidden w) ∷ m) j d h = elim (Bool-cases (k == j)) [
  | inl e ↦ absurd (clash k j (keys m) e d.0 (committed_names-keys m j h))
  | inr e ↦ rw e (committed_names-lookup m j d.1 h)
]
committed_names-lookup ((k, CredentialValue.commitment w b) ∷ m) j d h =
    elim (Bool-cases (k == j)) [
      | inl e ↦ (w, b, rw e refl)
      | inr e ↦ rw e (committed_names-lookup m j d.1 (rw e at h))
    ]
