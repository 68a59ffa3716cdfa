-- ===== src/Base/Maps.antt =====
-- Maps from attribute names (`BTreeMap<String, V>`, `HashMap<String, V>`), as association lists in
-- the order of the iteration, about which nothing is assumed.
use Prim.Native.String.{String}
use mathlib.Core.Path.{◌≡◌, refl}
use mathlib.Core.Bool.{Bool, true, ◌||◌}
use mathlib.Core.Option.{Option, none, some}
use mathlib.Core.List.{List, [], ◌∷◌}
use native.Mathlib.Omega.{arith}
use text.Mathlib.Text.{◌==◌}
use text.Mathlib.TextEquality.{eq_iff}
use mathlib.Core.Logic.{inl, inr}
use smartchaindb_experiment.Base.Tests.{if◌then◌else◌, Bool-cases}
use smartchaindb_experiment.Base.Sets.{contains}

abbrev pub Map {ℓ} : Type ℓ → Type ℓ
Map V = List (String × V)

module _ {ℓ} {V : Type ℓ} where
  abbrev pub lookup : String → Map V → Option V
  lookup name [] = none
  lookup name ((other, x) ∷ later) = if other == name then some x else lookup name later

  -- The entry of a name that is there keeps its place.
  abbrev pub insert : String → V → Map V → Map V
  insert name x [] = (name, x) ∷ []
  insert name x ((other, y) ∷ later) =
      (other, if other == name then x else y)
      ∷ (if other == name then later else insert name x later)

  abbrev pub keys : Map V → List String
  keys [] = []
  keys ((j, v) ∷ m) = j ∷ keys m

  abbrev pub contains_key : String → Map V → Bool
  contains_key k m = contains k (keys m)

  pub lookup-insert :
      (name j : String) (x : V) (entries : Map V)
      → lookup j (insert name x entries) ≡ (if name == j then some x else lookup j entries)
  lookup-insert name j x [] = refl
  lookup-insert name j x ((other, y) ∷ later) =
      ground (arith, lookup-insert name j x later, eq_iff other name, eq_iff other j, eq_iff name j)

  pub contains_key-insert :
      (k j : String) (v : V) (m : Map V)
      → contains_key j (insert k v m) ≡ (k == j || contains_key j m)
  contains_key-insert k j v [] = refl
  contains_key-insert k j v ((i, w) ∷ m) =
      ground (arith, eq_iff k j, eq_iff i k, eq_iff i j, contains_key-insert k j v m)

  pub lookup_of_contains_key :
      (k : String) (m : Map V) → contains_key k m ≡ true → (v : V) × (lookup k m ≡ some v)
  lookup_of_contains_key k [] h = ground arith
  lookup_of_contains_key k ((j, w) ∷ m) h = elim (Bool-cases (j == k)) [
    | inl e ↦ (w, rw e)
    | inr e ↦ let (v, p) = lookup_of_contains_key k m (rw e at h) in (v, rw e p)
  ]

  pub contains_key_of_lookup :
      (k : String) (v : V) (m : Map V) → lookup k m ≡ some v → contains_key k m ≡ true
  contains_key_of_lookup k v [] h = ground arith
  contains_key_of_lookup k v ((j, w) ∷ m) h = ground (arith, contains_key_of_lookup k v m)
