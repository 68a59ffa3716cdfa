-- ===== src/Group/Powers.antt =====
-- Powers with natural and with integer exponents, and their laws.
use native.Mathlib.Nat.{zero-add, suc-add, zero-mul, suc-mul}
use smartchaindb_experiment.Base.{ℕ, zero, suc, ◌+◌, ◌*◌, ◌≡◌, refl, sym, ap, ap₂, ◌∙◌, arith}
use smartchaindb_experiment.Base.Int.{
  ℤ, pos_part, neg_part, ◌+ℤ◌, ◌*ℤ◌, neg_ℤ, +ℤ_parts, *ℤ_parts, neg_ℤ_parts,
}
use smartchaindb_experiment.Group.Defs.{AbGroup}
use smartchaindb_experiment.Group.Defs

module _ (g : AbGroup) where
  open g use {Carrier, one, ◌⊙◌, inv, assoc, comm, one-mul, inv-mul}

  infixl 60 ◌⊙◌
  unfoldable pub npow : Carrier → ℕ → Carrier
  npow x zero = one
  npow x (suc k) = x ⊙ npow x k

  -- x^p x^-n
  unfoldable pub ratio : Carrier → ℕ → ℕ → Carrier
  ratio x p n = npow x p ⊙ npow (inv x) n

  -- x to an integer power.
  unfoldable pub zpow : Carrier → ℤ → Carrier
  zpow x e = ratio x (pos_part e) (neg_part e)

  ratio_unfold : (x : Carrier) (p n : ℕ) → ratio x p n ≡ npow x p ⊙ npow (inv x) n
  unfolding ratio
  ratio_unfold x p n = refl

  pub npow-add : (x : Carrier) (k j : ℕ) → npow x (k + j) ≡ npow x k ⊙ npow x j
  unfolding npow
  npow-add x zero j = rw (zero-add, one-mul)
  npow-add x (suc k) j = rw (suc-add, npow, npow-add x k j) (sym (assoc x _ _))

  pub npow-mul_distrib : (x y : Carrier) (k : ℕ) → npow (x ⊙ y) k ≡ npow x k ⊙ npow y k
  unfolding npow
  npow-mul_distrib x y zero = sym (one-mul one)
  npow-mul_distrib x y (suc k) =
      ap (λ t. (x ⊙ y) ⊙ t) (npow-mul_distrib x y k) ∙ Defs.interchange g x y (npow x k) (npow y k)

  pub npow-one : (k : ℕ) → npow one k ≡ one
  unfolding npow
  npow-one zero = refl
  npow-one (suc k) = one-mul _ ∙ npow-one k

  pub npow-inv : (x : Carrier) (k : ℕ) → npow (inv x) k ≡ inv (npow x k)
  npow-inv x k =
      Defs.inv_unique g (npow x k) (npow (inv x) k)
        (sym (npow-mul_distrib x (inv x) k) ∙ ap (λ t. npow t k) (Defs.mul-inv g x) ∙ npow-one k)

  pub npow-mul : (x : Carrier) (k j : ℕ) → npow x (k * j) ≡ npow (npow x j) k
  unfolding npow
  npow-mul x zero j = rw zero-mul
  npow-mul x (suc k) j =
      ap (npow x) (suc-mul k j)
      ∙ npow-add x (k * j) j
      ∙ comm _ _
      ∙ ap (λ t. npow x j ⊙ t) (npow-mul x k j)

  pub ratio-mul :
      (x : Carrier) (p n p' n' : ℕ) → ratio x p n ⊙ ratio x p' n' ≡ ratio x (p + p') (n + n')
  unfolding ratio
  ratio-mul x p n p' n' =
      Defs.interchange g _ _ _ _ ∙ sym (ap₂ ◌⊙◌ (npow-add x p p') (npow-add (inv x) n n'))

  pub ratio_self : (x : Carrier) (k : ℕ) → ratio x k k ≡ one
  unfolding ratio
  ratio_self x k = ap (λ t. npow x k ⊙ t) (npow-inv x k) ∙ Defs.mul-inv g (npow x k)

  -- Only the difference of the two exponents counts.
  pub ratio_congr : (x : Carrier) (p n p' n' : ℕ) → p + n' ≡ p' + n → ratio x p n ≡ ratio x p' n'
  ratio_congr x p n p' n' h =
      sym (Defs.mul-one g _)
      ∙ ap (λ t. ratio x p n ⊙ t) (sym (ratio_self x n'))
      ∙ ratio-mul x p n n' n'
      ∙ ap (λ t. ratio x t (n + n')) h
      ∙ ap (λ t. ratio x (p' + n) t) swap
      ∙ sym (ratio-mul x p' n' n n)
      ∙ ap (λ t. ratio x p' n' ⊙ t) (ratio_self x n)
      ∙ Defs.mul-one g _
    where
      swap : n + n' ≡ n' + n
      swap = omega arith

  pub inv-ratio : (x : Carrier) (p n : ℕ) → inv (ratio x p n) ≡ ratio x n p
  inv-ratio x p n = sym (
      Defs.inv_unique g (ratio x p n) (ratio x n p)
        (ratio-mul x p n n p ∙ ap (λ t. ratio x t (n + p)) (omega arith) ∙ ratio_self x (n + p)))

  pub npow-ratio : (x : Carrier) (k p n : ℕ) → npow (ratio x p n) k ≡ ratio x (k * p) (k * n)
  unfolding ratio
  npow-ratio x k p n =
      npow-mul_distrib _ _ k ∙ sym (ap₂ ◌⊙◌ (npow-mul x k p) (npow-mul (inv x) k n))

  pub zpow-add : (x : Carrier) (a b : ℤ) → zpow x (a +ℤ b) ≡ zpow x a ⊙ zpow x b
  unfolding zpow
  zpow-add x a b =
      ratio_congr x (pos_part (a +ℤ b)) (neg_part (a +ℤ b)) (pos_part a + pos_part b)
        (neg_part a + neg_part b) (omega (arith, +ℤ_parts a b))
      ∙ sym (ratio-mul x (pos_part a) (neg_part a) (pos_part b) (neg_part b))

  pub zpow-neg : (x : Carrier) (a : ℤ) → zpow x (neg_ℤ a) ≡ inv (zpow x a)
  unfolding zpow
  zpow-neg x a =
      ratio_congr x (pos_part (neg_ℤ a)) (neg_part (neg_ℤ a)) (neg_part a) (pos_part a)
        (omega (arith, neg_ℤ_parts a))
      ∙ sym (inv-ratio x (pos_part a) (neg_part a))

  pub zpow-mul_distrib : (x y : Carrier) (a : ℤ) → zpow (x ⊙ y) a ≡ zpow x a ⊙ zpow y a
  unfolding zpow ratio
  zpow-mul_distrib x y a =
      ap₂ ◌⊙◌ (npow-mul_distrib x y (pos_part a)) (
        ap (λ t. npow t (neg_part a)) (Defs.inv-mul_distrib g x y)
        ∙ npow-mul_distrib (inv x) (inv y) (neg_part a))
      ∙ Defs.interchange g _ _ _ _

  pub zpow-one : (a : ℤ) → zpow one a ≡ one
  unfolding zpow ratio
  zpow-one a =
      ap₂ ◌⊙◌ (npow-one (pos_part a)) (
        ap (λ t. npow t (neg_part a)) (sym (Defs.inv_unique g one one (one-mul one)))
        ∙ npow-one (neg_part a))
      ∙ one-mul one

  pub zpow-inv : (x : Carrier) (a : ℤ) → zpow (inv x) a ≡ inv (zpow x a)
  zpow-inv x a =
      Defs.inv_unique g (zpow x a) (zpow (inv x) a)
        (sym (zpow-mul_distrib x (inv x) a) ∙ ap (λ t. zpow t a) (Defs.mul-inv g x) ∙ zpow-one a)

  -- x^(ab) = (x^b)^a
  pub zpow-mul : (x : Carrier) (a b : ℤ) → zpow x (a *ℤ b) ≡ zpow (zpow x b) a
  unfolding zpow
  zpow-mul x a b =
      ratio_congr x (pos_part (a *ℤ b)) (neg_part (a *ℤ b))
        (pos_part a * pos_part b + neg_part a * neg_part b)
        (pos_part a * neg_part b + neg_part a * pos_part b) (omega (arith, *ℤ_parts a b))
      ∙ sym (ratio-mul x _ _ _ _)
      ∙ sym (
          ap₂ ◌⊙◌ (npow-ratio x (pos_part a) (pos_part b) (neg_part b)) (
            ap (λ t. npow t (neg_part a)) (inv-ratio x (pos_part b) (neg_part b))
            ∙ npow-ratio x (neg_part a) (neg_part b) (pos_part b)))
      ∙ sym (ratio_unfold (zpow x b) (pos_part a) (neg_part a))

  -- A response c * secret + mask is the secret's power raised to c, times the mask's power.
  pub zpow_response :
      (x : Carrier) (c s m : ℤ) → zpow x (c *ℤ s +ℤ m) ≡ zpow (zpow x s) c ⊙ zpow x m
  zpow_response x c s m = zpow-add x (c *ℤ s) m ∙ ap (λ t. t ⊙ zpow x m) (zpow-mul x c s)
