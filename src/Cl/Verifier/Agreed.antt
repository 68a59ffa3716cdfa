-- ===== src/Cl/Verifier/Agreed.antt =====
-- When the verifier's checks pass: a proof of the predicates that were asked for, and sub proofs
-- that agree on the common attributes.
use text.Mathlib.Text
use text.Mathlib.TextEquality.{eq_iff}
use smartchaindb_experiment.Base.{
  String, true, Bool-cases, inl, inr, Option, none, some, List, [], ◌∷◌, ◌≡◌, refl, ap, ◌∙◌, sym,
  arith,
}
use smartchaindb_experiment.Base.Int.{==ℤ_refl}
use smartchaindb_experiment.Base.Maps.{Map, insert, lookup, lookup-insert}
use smartchaindb_experiment.Base.Sets.{contains}
use smartchaindb_experiment.Base.Outcome.{ok}
use smartchaindb_experiment.Bn.{BigNumber}
use smartchaindb_experiment.Cl.Types.{Predicate, PredicateType}
use smartchaindb_experiment.Cl.Verifier.State.{Common}
use smartchaindb_experiment.Cl.Verifier.Checks.{
  same_type, same_predicate, has_predicate, all_in, same_predicates,
}
use smartchaindb_experiment.Cl.Verifier.Verify.{check_entry, check_attribute, check_common}

same_type_refl : (t : PredicateType) → same_type t t ≡ true
unfolding same_type
same_type_refl PredicateType.ge = refl
same_type_refl PredicateType.le = refl
same_type_refl PredicateType.gt = refl
same_type_refl PredicateType.lt = refl

same_predicate_refl : (p : Predicate) → same_predicate p p ≡ true
unfolding same_predicate
same_predicate_refl p =
    rw (same_type_refl p.p_type, ==ℤ_refl p.bound) (ground (arith, eq_iff p.attr_name p.attr_name))

has_predicate-later :
    (p q : Predicate) (qs : List Predicate)
    → has_predicate p qs ≡ true
    → has_predicate p (q ∷ qs) ≡ true
unfolding has_predicate
has_predicate-later p q qs h = elim (Bool-cases (same_predicate q p)) [
  | inl e ↦ rw (e, has_predicate) refl
  | inr e ↦ rw (e, has_predicate) h
]

all_in-later :
    (q : Predicate) (ps qs : List Predicate) → all_in ps qs ≡ true → all_in ps (q ∷ qs) ≡ true
unfolding all_in
all_in-later q [] qs h = refl
all_in-later q (p ∷ ps) qs h = ground (arith, has_predicate-later p q qs, all_in-later q ps qs)

all_in_refl : (ps : List Predicate) → all_in ps ps ≡ true
unfolding all_in has_predicate
all_in_refl [] = refl
all_in_refl (p ∷ ps) =
    rw (all_in, has_predicate, same_predicate_refl p) (all_in-later p ps ps (all_in_refl ps))

pub same_predicates_refl : (ps : List Predicate) → same_predicates ps ps ≡ true
unfolding same_predicates
same_predicates_refl ps = rw (all_in_refl ps) refl

-- No number of a map is another than a function's.
abbrev pub Fits : (String → BigNumber) → Common → Type 0
Fits f common = (j : String) (v : BigNumber) → lookup j common ≡ some (some v) → v ≡ f j

some_injective :
    (v x : BigNumber) → ◌≡◌ {A = Option (Option BigNumber)} (some (some v)) (some (some x)) → x ≡ v
some_injective v x p = cc

check_entry-Fits :
    (f : String → BigNumber) (attr_name : String) (entry : Option (Option BigNumber))
    → (common : Common) → lookup attr_name common ≡ entry
    → Fits f common
    → (after : Common) × (check_entry attr_name (f attr_name) entry common ≡ (ok tt, after))
      × Fits f after
unfolding check_entry
check_entry-Fits f attr_name none common found fits = (common, refl, fits)
check_entry-Fits f attr_name (some none) common found fits = (
  insert attr_name (some (f attr_name)) common,
  refl,
  λ j v h. elim (Bool-cases (Text.◌==◌ attr_name j)) [
    | inl e ↦
        some_injective (f attr_name) v
          (sym (rw e at (lookup-insert attr_name j (some (f attr_name)) common)) ∙ h)
        ∙ ap f ((eq_iff attr_name j).0 e)
    | inr e ↦ fits j v (sym (rw e at (lookup-insert attr_name j (some (f attr_name)) common)) ∙ h)
  ],
)
check_entry-Fits f attr_name (some (some v)) common found fits =
    (common, rw (fits attr_name v found, check_entry, ==ℤ_refl (f attr_name)) refl, fits)

-- Where a sub proof has a function's value for each name of a list and the map holds no other,
-- the check of the list passes, and the map still holds no other.
pub check_common-Fits :
    (f : String → BigNumber) (attr_names : List String) (m : Map BigNumber) (common : Common)
    → ((j : String) → contains j attr_names ≡ true → lookup j m ≡ some (f j))
    → Fits f common
    → (after : Common) × (check_common attr_names m common ≡ (ok tt, after)) × Fits f after
unfolding check_common check_attribute
check_common-Fits f [] m common has fits = (common, refl, fits)
check_common-Fits f (attr_name ∷ attr_names) m common has fits =
    let (between, first, fits') =
      check_entry-Fits f attr_name (lookup attr_name common) common refl fits in
    let (after, rest, fits'') =
      check_common-Fits f attr_names m between (λ j h. has j (ground (arith, eq_iff attr_name j)))
        fits' in
    (after, rw (has attr_name (ground (arith, eq_iff attr_name attr_name)), first) rest, fits'')
