-- ===== src/Cl/Verifier/Common.antt =====
-- What the verifier's checks of the common attributes leave in its map.
use mathlib.Core.Path.{subst}
use text.Mathlib.Text.{◌==◌}
use text.Mathlib.TextEquality.{eq_iff}
use smartchaindb_experiment.Base.{
  true, List, [], ◌∷◌, String, Option, none, some, ◌≡◌, refl, sym, ap, ◌∙◌, arith, Bool-cases, inl,
  inr,
}
use smartchaindb_experiment.Base.Int.{◌==ℤ◌, ==ℤ→eq}
use smartchaindb_experiment.Base.Maps.{
  Map, lookup, insert, contains_key, lookup-insert, contains_key-insert, contains_key_of_lookup,
  lookup_of_contains_key,
}
use smartchaindb_experiment.Base.Sets.{contains}
use smartchaindb_experiment.Base.Outcome.{UrsaCryptoResult, ok, err, proof_rejected}
use smartchaindb_experiment.Bn.{BigNumber}
use smartchaindb_experiment.Cl.Verifier.State.{Common, bind-ok}
use smartchaindb_experiment.Cl.Verifier.Verify.{check_entry, check_attribute, check_common}

-- The same names, and the numbers that are there stay.
pub record Extends (before after : Common) : Type 0 where
  pub same_keys : (j : String) → contains_key j after ≡ contains_key j before
  pub keeps :
      (j : String) (v : BigNumber)
      → lookup j before ≡ some (some v)
      → lookup j after ≡ some (some v)

pub Extends-refl : (common : Common) → Extends common common
Extends-refl common = record { same_keys = λ j. refl; keeps = λ j v h. h }

pub Extends-trans : (a b c : Common) → Extends a b → Extends b c → Extends a c
Extends-trans a b c p q = record {
  same_keys = λ j. q.same_keys j ∙ p.same_keys j;
  keeps = λ j v h. q.keeps j v (p.keeps j v h);
}

-- Every common attribute of a list has the number of the map m.
abbrev pub Agrees : List String → Map BigNumber → Common → Type 0
Agrees attr_names m common =
    (j : String)
    → contains j attr_names ≡ true
    → contains_key j common ≡ true
    → (v : BigNumber) × (lookup j m ≡ some v) × (lookup j common ≡ some (some v))

Extends-insert :
    (attr_name : String) (m_hat : BigNumber) (common : Common)
    → lookup attr_name common ≡ some none
    → Extends common (insert attr_name (some m_hat) common)
Extends-insert attr_name m_hat common found = record {
  same_keys = λ j. ground (
    arith,
    contains_key-insert attr_name j (some m_hat) common,
    eq_iff attr_name j,
    contains_key_of_lookup attr_name none common found,
  );
  keeps = λ j v h. elim (Bool-cases (attr_name == j)) [
    | inl e ↦ cc ((eq_iff attr_name j).0 e, found, h)
    | inr e ↦ lookup-insert attr_name j (some m_hat) common ∙ rw e h
  ];
}

err_differs : ¬ (◌≡◌ {A = UrsaCryptoResult (Unit {0})} (err proof_rejected) (ok tt))
err_differs p = cc

-- What the check of one attribute leaves, when it returns.
abbrev After : String → BigNumber → Common → Common → Type 0
After attr_name m_hat common after =
    Extends common after
    × (contains_key attr_name common ≡ true → lookup attr_name after ≡ some (some m_hat))

check_entry-ok :
    (attr_name : String) (m_hat : BigNumber) (entry : Option (Option BigNumber))
    → (common after : Common) → lookup attr_name common ≡ entry
    → check_entry attr_name m_hat entry common ≡ (ok tt, after)
    → After attr_name m_hat common after
unfolding check_entry
check_entry-ok attr_name m_hat none common after found h =
    subst (After attr_name m_hat common) (ap (λ r. r.1) h)
      (Extends-refl common, λ c. let (x, e) = lookup_of_contains_key attr_name common c in cc)
check_entry-ok attr_name m_hat (some none) common after found h =
    subst (After attr_name m_hat common) (ap (λ r. r.1) h) (
      Extends-insert attr_name m_hat common found,
      λ c.
          lookup-insert attr_name attr_name (some m_hat) common
          ∙ ground (arith, eq_iff attr_name attr_name),
    )
check_entry-ok attr_name m_hat (some (some v)) common after found h =
    elim (Bool-cases (v ==ℤ m_hat)) [
      | inl e ↦
          subst (After attr_name m_hat common) (ap (λ r. r.1) (rw (e, check_entry) at h))
            (Extends-refl common, λ c. found ∙ ap (λ x. some (some x)) (==ℤ→eq v m_hat e))
      | inr e ↦ absurd (err_differs (ap (λ r. r.0) (rw (e, check_entry) at h)))
    ]

check_attribute-ok :
    (attr_name : String) (found : Option BigNumber) (common after : Common)
    → check_attribute attr_name found common ≡ (ok tt, after)
    → (m_hat : BigNumber) × (found ≡ some m_hat) × After attr_name m_hat common after
unfolding check_attribute
check_attribute-ok attr_name none common after h = absurd (err_differs (ap (λ r. r.0) h))
check_attribute-ok attr_name (some m_hat) common after h =
    (m_hat, refl, check_entry-ok attr_name m_hat (lookup attr_name common) common after refl h)

-- When the checks return, no number was changed, and each attribute of the list that is common has
-- the number of the sub proof.
pub check_common-ok :
    (attr_names : List String) (m : Map BigNumber) (common after : Common)
    → check_common attr_names m common ≡ (ok tt, after)
    → Extends common after × Agrees attr_names m after
unfolding check_common
check_common-ok [] m common after h =
    (subst (Extends common) (ap (λ r. r.1) h) (Extends-refl common), λ j c. ground arith)
check_common-ok (attr_name ∷ attr_names) m common after h =
    let (_, between, first, rest) =
      bind-ok (check_attribute attr_name (lookup attr_name m)) (λ _. check_common attr_names m)
        common after tt h in
    let (m_hat, found, left) =
      check_attribute-ok attr_name (lookup attr_name m) common between first in
    let (extends, has) = left in
    let (extends', agrees) = check_common-ok attr_names m between after rest in
    (
      Extends-trans common between after extends extends',
      λ j c k. elim (Bool-cases (attr_name == j)) [
        | inl e ↦
            let same = (eq_iff attr_name j).0 e in
            (
              m_hat,
              ap (λ i. lookup i m) (sym same) ∙ found,
              ap (λ i. lookup i after) (sym same)
                  ∙ extends'.keeps attr_name m_hat (
                      has (
                        sym (extends.same_keys attr_name)
                        ∙ sym (extends'.same_keys attr_name)
                        ∙ ap (λ i. contains_key i after) same
                        ∙ k)),
            )
        | inr e ↦ agrees j (ground arith) k
      ],
    )
