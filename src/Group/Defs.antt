-- ===== src/Group/Defs.antt =====
-- Commutative groups, as the code uses them: the invertible residues of a modulus, which `BigNumber`
-- computes with, and the points of the curve groups.
use smartchaindb_experiment.Base.{◌≡◌, ◌∙◌, sym, ap}

pub record AbGroup : Type 1 where
  pub Carrier : Type 0
  infixl 60 ◌⊙◌
  pub one : Carrier
  pub ◌⊙◌ : Carrier → Carrier → Carrier
  pub inv : Carrier → Carrier
  pub assoc : (a b c : Carrier) → (a ⊙ b) ⊙ c ≡ a ⊙ (b ⊙ c)
  pub comm : (a b : Carrier) → a ⊙ b ≡ b ⊙ a
  pub one-mul : (a : Carrier) → one ⊙ a ≡ a
  pub inv-mul : (a : Carrier) → inv a ⊙ a ≡ one

module _ (g : AbGroup) where
  open g use {Carrier, one, ◌⊙◌, inv, assoc, comm, one-mul, inv-mul}

  infixl 60 ◌⊙◌
  pub mul-one : (a : Carrier) → a ⊙ one ≡ a
  mul-one a = comm a one ∙ one-mul a

  pub mul-inv : (a : Carrier) → a ⊙ inv a ≡ one
  mul-inv a = comm a (inv a) ∙ inv-mul a

  pub left_comm : (a b c : Carrier) → a ⊙ (b ⊙ c) ≡ b ⊙ (a ⊙ c)
  left_comm a b c = sym (assoc a b c) ∙ ap (λ x. x ⊙ c) (comm a b) ∙ assoc b a c

  -- (ab)(cd) = (ac)(bd)
  pub interchange : (a b c d : Carrier) → (a ⊙ b) ⊙ (c ⊙ d) ≡ (a ⊙ c) ⊙ (b ⊙ d)
  interchange a b c d =
      assoc a b (c ⊙ d) ∙ ap (λ x. a ⊙ x) (left_comm b c d) ∙ sym (assoc a c (b ⊙ d))

  pub mul_cancel_left : (a b : Carrier) → inv a ⊙ (a ⊙ b) ≡ b
  mul_cancel_left a b = sym (assoc (inv a) a b) ∙ ap (λ x. x ⊙ b) (inv-mul a) ∙ one-mul b

  pub mul_cancel_right : (a b : Carrier) → (a ⊙ b) ⊙ inv b ≡ a
  mul_cancel_right a b = assoc a b (inv b) ∙ ap (λ x. a ⊙ x) (mul-inv b) ∙ mul-one a

  -- An inverse is determined by what it cancels.
  pub inv_unique : (a b : Carrier) → a ⊙ b ≡ one → b ≡ inv a
  inv_unique a b h = sym (mul_cancel_left a b) ∙ ap (λ x. inv a ⊙ x) h ∙ mul-one (inv a)

  pub inv-inv : (a : Carrier) → inv (inv a) ≡ a
  inv-inv a = sym (inv_unique (inv a) a (inv-mul a))

  pub inv-mul_distrib : (a b : Carrier) → inv (a ⊙ b) ≡ inv a ⊙ inv b
  inv-mul_distrib a b = sym (
      inv_unique (a ⊙ b) (inv a ⊙ inv b) (
        interchange a b (inv a) (inv b)
        ∙ ap (λ x. x ⊙ (b ⊙ inv b)) (mul-inv a)
        ∙ one-mul (b ⊙ inv b)
        ∙ mul-inv b))
