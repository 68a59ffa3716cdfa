-- ===== src/Base/Entries.antt =====
-- Maps every entry of which has the value that a function gives its name.
use text.Mathlib.Text.{◌==◌}
use text.Mathlib.TextEquality.{eq_iff}
use smartchaindb_experiment.Base.{
  String, List, [], ◌∷◌, map, ◌≡◌, refl, sym, ap, ap₂, ◌∙◌, true, false, Option, some, inl, inr,
  arith, Bool-cases,
}
use smartchaindb_experiment.Base.Maps.{
  Map, lookup, insert, keys, contains_key, contains_key-insert, lookup_of_contains_key,
}
use smartchaindb_experiment.Base.Sets.{contains, Distinct}

abbrev pub entry_values {ℓ} : {V : Type ℓ} → Map V → List V
entry_values [] = []
entry_values ((k, x) ∷ m) = x ∷ entry_values m

module _ {ℓ} {V : Type ℓ} where
  abbrev pub Entries : Map V → (String → V) → Type ℓ
  Entries [] f = Unit
  Entries ((k, x) ∷ m) f = (x ≡ f k) × Entries m f

  pub insert-Entries :
      (k : String) (x : V) (m : Map V) (f : String → V)
      → Entries m f
      → x ≡ f k
      → Entries (insert k x m) f
  insert-Entries k x [] f h e = (e, tt)
  insert-Entries k x ((j, y) ∷ m) f h e = elim (Bool-cases (j == k)) [
    | inl same ↦ rw same (e ∙ ap f (sym ((eq_iff j k).0 same)), h.1)
    | inr other ↦ rw other (h.0, insert-Entries k x m f h.1 e)
  ]

  pub keys-insert-Distinct :
      (k : String) (x : V) (m : Map V) → Distinct (keys m) → Distinct (keys (insert k x m))
  keys-insert-Distinct k x [] h = (refl, tt)
  keys-insert-Distinct k x ((j, y) ∷ m) h =
      ground
        (arith, keys-insert-Distinct k x m h.1, contains_key-insert k j x m, eq_iff j k, eq_iff k j)

  some_injective : (x y : V) → ◌≡◌ {A = Option V} (some x) (some y) → x ≡ y
  some_injective x y p = cc

  pub Entries-lookup :
      (m : Map V) (f : String → V) (k : String) (x : V)
      → Entries m f
      → lookup k m ≡ some x
      → x ≡ f k
  Entries-lookup [] f k x h e = ground arith
  Entries-lookup ((j, y) ∷ m) f k x h e = elim (Bool-cases (j == k)) [
    | inl same ↦ sym (some_injective y x (rw same at e)) ∙ h.0 ∙ ap f ((eq_iff j k).0 same)
    | inr other ↦ Entries-lookup m f k x h.1 (rw other at e)
  ]

  pub lookup-Entries :
      (m : Map V) (f : String → V) (k : String)
      → Entries m f
      → contains_key k m ≡ true
      → lookup k m ≡ some (f k)
  lookup-Entries m f k h c =
      let (x, e) = lookup_of_contains_key k m c in e ∙ ap some (Entries-lookup m f k x h e)

  -- With no name twice, an entry's value is what the name is looked up to.
  pub Entries-of_lookup :
      (m : Map V) (f : String → V)
      → Distinct (keys m)
      → ((k : String) (x : V) → lookup k m ≡ some x → x ≡ f k)
      → Entries m f
  Entries-of_lookup [] f d h = tt
  Entries-of_lookup ((j, y) ∷ m) f d h = (
    h j y (ground (arith, eq_iff j j)),
    Entries-of_lookup m f d.1 (λ k x e. elim (Bool-cases (j == k)) [
      | inl same ↦ absurd (absent j k x m d.0 same e)
      | inr other ↦ h k x (rw other e)
    ]),
  )
    where
      absent :
          (j' k' : String) (x' : V) (m' : Map V)
          → contains j' (keys m') ≡ false
          → (j' == k') ≡ true
          → lookup k' m' ≡ some x'
          → ⊥
      absent j' k' x' [] d' same e = ground arith
      absent j' k' x' ((i, y') ∷ m') d' same e =
          ground (arith, eq_iff i j', eq_iff j' k', eq_iff i k', absent j' k' x' m')

  pub entry_values-Entries :
      (m : Map V) (f : String → V) → Entries m f → entry_values m ≡ map f (keys m)
  entry_values-Entries [] f h = refl
  entry_values-Entries ((k, x) ∷ m) f h = ap₂ (λ y ys. y ∷ ys) h.0 (entry_values-Entries m f h.1)
