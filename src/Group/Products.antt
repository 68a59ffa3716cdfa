-- ===== src/Group/Products.antt =====
-- Products over a set of attribute names: the order in which a hash set is walked does not matter.
use text.Mathlib.Text.{◌==◌}
use text.Mathlib.TextEquality.{eq_iff}
use smartchaindb_experiment.Base.{
  String, true, ◌&&◌, not, List, [], ◌∷◌, ◌≡◌, refl, sym, ap, ap₂, ◌∙◌, inl, inr, arith,
  if◌then◌else◌, Bool-cases,
}
use smartchaindb_experiment.Base.Int.{ℤ, ◌+ℤ◌, ◌*ℤ◌}
use smartchaindb_experiment.Base.Sets.{contains, difference, Distinct, subset, subset-contains}
use smartchaindb_experiment.Group.Defs.{AbGroup}
use smartchaindb_experiment.Group.Defs
use smartchaindb_experiment.Group.Powers.{zpow, zpow_response, zpow-mul_distrib, zpow-one}

abbrev remove : String → List String → List String
remove x [] = []
remove x (y ∷ ys) = if y == x then ys else y ∷ remove x ys

abbrev intersect : List String → List String → List String
intersect [] ys = []
intersect (x ∷ xs) ys = if contains x ys then x ∷ intersect xs ys else intersect xs ys

contains-remove :
    (j x : String) (ys : List String)
    → Distinct ys
    → contains j (remove x ys) ≡ (contains j ys && not (x == j))
contains-remove j x [] h = refl
contains-remove j x (y ∷ ys) h =
    ground (arith, eq_iff y x, eq_iff y j, eq_iff x j, contains-remove j x ys h.1)

remove-Distinct : (x : String) (ys : List String) → Distinct ys → Distinct (remove x ys)
remove-Distinct x [] h = tt
remove-Distinct x (y ∷ ys) h =
    ground (arith, eq_iff y x, eq_iff x y, remove-Distinct x ys h.1, contains-remove y x ys h.1)

contains-intersect :
    (j : String) (xs ys : List String)
    → contains j (intersect xs ys) ≡ (contains j xs && contains j ys)
contains-intersect j [] ys = refl
contains-intersect j (x ∷ xs) ys = ground (arith, eq_iff x j, contains-intersect j xs ys)

intersect-Distinct : (xs ys : List String) → Distinct xs → Distinct (intersect xs ys)
intersect-Distinct [] ys h = tt
intersect-Distinct (x ∷ xs) ys h =
    ground (arith, intersect-Distinct xs ys h.1, contains-intersect x xs ys)

contains_self : (x : String) (xs : List String) → contains x (x ∷ xs) ≡ true
contains_self x xs = ground (arith, eq_iff x x)

module _ (g : AbGroup) where
  open g use {Carrier, one, ◌⊙◌, inv, assoc, comm, one-mul, inv-mul}

  infixl 60 ◌⊙◌
  unfoldable pub prod : (String → Carrier) → List String → Carrier
  prod f [] = one
  prod f (x ∷ xs) = f x ⊙ prod f xs

  -- Responses c * m_k + t_k over a set: the product of the secrets' powers, raised to c, times the
  -- product of the masks' powers.
  pub prod_response :
      (r : String → Carrier) (c : ℤ) (m t : String → ℤ) (xs : List String)
      → prod (λ k. zpow g (r k) (c *ℤ m k +ℤ t k)) xs
        ≡ zpow g (prod (λ k. zpow g (r k) (m k)) xs) c ⊙ prod (λ k. zpow g (r k) (t k)) xs
  unfolding prod
  prod_response r c m t [] = sym (ap (λ a. a ⊙ one) (zpow-one g c) ∙ one-mul one)
  prod_response r c m t (x ∷ xs) =
      ap₂ ◌⊙◌ (zpow_response g (r x) c (m x) (t x)) (prod_response r c m t xs)
      ∙ Defs.interchange g _ _ _ _
      ∙ ap (λ a. a ⊙ (zpow g (r x) (t x) ⊙ prod (λ k. zpow g (r k) (t k)) xs))
          (sym (zpow-mul_distrib g _ _ c))

  prod-remove :
      (f : String → Carrier) (x : String) (ys : List String)
      → contains x ys ≡ true
      → prod f ys ≡ f x ⊙ prod f (remove x ys)
  unfolding prod
  prod-remove f x [] h = ground arith
  prod-remove f x (y ∷ ys) h = elim (Bool-cases (y == x)) [
    | inl e ↦ rw e (ap (λ k. f k ⊙ prod f ys) ((eq_iff y x).0 e))
    | inr e ↦ rw e (
        ap (λ a. f y ⊙ a) (prod-remove f x ys (rw e at h))
        ∙ Defs.left_comm g (f y) (f x) (prod f (remove x ys)))
  ]

  -- Two lists of the same names, each with no name twice, have the same product.
  pub prod_same :
      (f : String → Carrier) (xs ys : List String)
      → Distinct xs
      → Distinct ys
      → ((j : String) → contains j xs ≡ contains j ys)
      → prod f xs ≡ prod f ys
  unfolding prod
  prod_same f [] [] hx hy same = refl
  prod_same f [] (y ∷ ys) hx hy same = cc (same y, contains_self y ys)
  prod_same f (x ∷ xs) ys hx hy same =
      ap (λ a. f x ⊙ a)
        (prod_same f xs (remove x ys) hx.1 (remove-Distinct x ys hy)
          (λ j. ground (arith, same j, contains-remove j x ys hy, eq_iff x j)))
      ∙ sym (prod-remove f x ys (sym (same x) ∙ contains_self x xs))

  prod_partition :
      (f : String → Carrier) (xs ys : List String)
      → prod f xs ≡ prod f (difference xs ys) ⊙ prod f (intersect xs ys)
  unfolding prod
  prod_partition f [] ys = sym (one-mul one)
  prod_partition f (x ∷ xs) ys = elim (Bool-cases (contains x ys)) [
    | inl e ↦ rw e (ap (λ a. f x ⊙ a) (prod_partition f xs ys) ∙ Defs.left_comm g _ _ _)
    | inr e ↦ rw e (ap (λ a. f x ⊙ a) (prod_partition f xs ys) ∙ sym (assoc _ _ _))
  ]

  -- The product over a set splits into that over a subset and that over the rest.
  pub prod_split :
      (f : String → Carrier) (xs ys : List String)
      → Distinct xs
      → Distinct ys
      → subset ys xs ≡ true
      → prod f xs ≡ prod f (difference xs ys) ⊙ prod f ys
  prod_split f xs ys hx hy sub =
      prod_partition f xs ys
      ∙ ap (λ a. prod f (difference xs ys) ⊙ a)
          (prod_same f (intersect xs ys) ys (intersect-Distinct xs ys hx) hy
            (λ j. ground (arith, contains-intersect j xs ys, subset-contains j ys xs sub)))
