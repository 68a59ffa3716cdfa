-- ===== src/Cl/Inequality/Algebra.antt =====
-- The equations behind an honest inequality proof, in the group of the residues.
use smartchaindb_experiment.Base.{String, List, [], ◌∷◌, ◌≡◌, sym, ap, ap₂, ◌∙◌}
use smartchaindb_experiment.Base.Int.{*ℤ_comm, ℤ, pos, ◌+ℤ◌, ◌-ℤ◌, ◌*ℤ◌, neg_ℤ, int_laws}
use smartchaindb_experiment.Group.{
  AbGroup, npow, ratio, zpow, prod, prod_response, interchange, left_comm, zpow_response,
  zpow-mul_distrib, zpow-add, zpow-inv, zpow-neg, mul_cancel_left, inv-mul_distrib, mul-one,
}

sub_add_cancel : (a b : ℤ) → (a -ℤ b) +ℤ b ≡ a
sub_add_cancel a b = omega int_laws

-- The sum of u_k^2, and that of u_k r_k which the prover adds up from the first on.
abbrev pub sq_sum : (String → ℤ) → List String → ℤ → ℤ
sq_sum u [] acc = acc
sq_sum u (k ∷ ks) acc = sq_sum u ks (u k *ℤ u k +ℤ acc)

abbrev pub ur_sum : (String → ℤ) → (String → ℤ) → List String → ℤ → ℤ
ur_sum u r [] acc = acc
ur_sum u r (k ∷ ks) acc = ur_sum u r ks (u k *ℤ r k +ℤ acc)

module _ (g : AbGroup) where
  open g use {Carrier, one, ◌⊙◌, inv, assoc, comm, one-mul}

  infixl 60 ◌⊙◌
  -- inv x (x y) = y
  inv_cancel : (x y : Carrier) → inv x ⊙ (x ⊙ y) ≡ y
  inv_cancel x y = mul_cancel_left g x y

  zpow-zero : (x : Carrier) → zpow g x (pos 0) ≡ one
  unfolding zpow ratio npow
  zpow-zero x = one-mul one

  pair_response :
      (z s : Carrier) (c u u' r r' : ℤ)
      → zpow g z (c *ℤ u +ℤ u') ⊙ zpow g s (c *ℤ r +ℤ r')
        ≡ zpow g (zpow g z u ⊙ zpow g s r) c ⊙ (zpow g z u' ⊙ zpow g s r')
  pair_response z s c u u' r r' =
      ap₂ ◌⊙◌ (zpow_response g z c u u') (zpow_response g s c r r')
      ∙ interchange g _ _ _ _
      ∙ ap (λ t. t ⊙ (zpow g z u' ⊙ zpow g s r')) (sym (zpow-mul_distrib g _ _ c))

  -- A commitment divided out of the responses leaves the masks' commitment.
  pub commitment_cancel :
      (z s : Carrier) (c u u' r r' : ℤ)
      → inv (zpow g (zpow g z u ⊙ zpow g s r) c)
          ⊙ (zpow g z (c *ℤ u +ℤ u') ⊙ zpow g s (c *ℤ r +ℤ r'))
        ≡ zpow g z u' ⊙ zpow g s r'
  commitment_cancel z s c u u' r r' =
      ap (λ t. inv (zpow g (zpow g z u ⊙ zpow g s r) c) ⊙ t) (pair_response z s c u u' r r')
      ∙ inv_cancel _ _

  -- For "at least": z^δ' times the commitment to δ is a commitment to the attribute m.
  pub delta_cancel :
      (z s : Carrier) (c m m' r r' δ δ' : ℤ)
      → δ' +ℤ δ ≡ m
      → inv (zpow g (zpow g z δ' ⊙ (zpow g z δ ⊙ zpow g s r)) c)
          ⊙ (zpow g z (c *ℤ m +ℤ m') ⊙ zpow g s (c *ℤ r +ℤ r'))
        ≡ zpow g z m' ⊙ zpow g s r'
  delta_cancel z s c m m' r r' δ δ' h =
      ap (λ t. inv (zpow g t c) ⊙ (zpow g z (c *ℤ m +ℤ m') ⊙ zpow g s (c *ℤ r +ℤ r')))
        (sym (assoc _ _ _) ∙ ap (λ t. t ⊙ zpow g s r) (sym (zpow-add g z δ' δ) ∙ ap (zpow g z) h))
      ∙ commitment_cancel z s c m m' r r'

  -- For "at most": z^δ' divided by the commitment to δ.
  pub delta_cancel_less :
      (z s : Carrier) (c m m' r r' δ δ' : ℤ)
      → δ' -ℤ δ ≡ m
      → inv (zpow g (zpow g z δ' ⊙ inv (zpow g z δ ⊙ zpow g s r)) c)
          ⊙ (zpow g z (c *ℤ m +ℤ m') ⊙ zpow g s (neg_ℤ (c *ℤ r +ℤ r')))
        ≡ zpow g z m' ⊙ zpow g s (neg_ℤ r')
  delta_cancel_less z s c m m' r r' δ δ' h =
      ap₂ (λ t q. inv (zpow g t c) ⊙ (zpow g z (c *ℤ m +ℤ m') ⊙ q)) base
        (zpow-neg g s (c *ℤ r +ℤ r') ∙ sym (zpow-inv g s (c *ℤ r +ℤ r')))
      ∙ commitment_cancel z (inv s) c m m' r r'
      ∙ ap (λ t. zpow g z m' ⊙ t) (zpow-inv g s r' ∙ sym (zpow-neg g s r'))
    where
      difference : zpow g z δ' ⊙ inv (zpow g z δ) ≡ zpow g z m
      difference =
          ap (λ t. zpow g z δ' ⊙ t) (sym (zpow-neg g z δ))
          ∙ sym (zpow-add g z δ' (neg_ℤ δ))
          ∙ ap (zpow g z) (sym add_neg ∙ h)
        where
          add_neg : δ' -ℤ δ ≡ δ' +ℤ neg_ℤ δ
          add_neg = omega int_laws

      base : zpow g z δ' ⊙ inv (zpow g z δ ⊙ zpow g s r) ≡ zpow g z m ⊙ zpow g (inv s) r
      base =
          ap (λ t. zpow g z δ' ⊙ t) (inv-mul_distrib g (zpow g z δ) (zpow g s r))
          ∙ sym (assoc _ _ _)
          ∙ ap₂ ◌⊙◌ difference (sym (zpow-inv g s r))

  -- The powers t_k^u_k of the commitments to u_k commit to the sum of the squares.
  prod_squares :
      (z s : Carrier) (u r : String → ℤ) (ks : List String) (a b : ℤ)
      → (zpow g z a ⊙ zpow g s b) ⊙ prod g (λ k. zpow g (zpow g z (u k) ⊙ zpow g s (r k)) (u k)) ks
        ≡ zpow g z (sq_sum u ks a) ⊙ zpow g s (ur_sum u r ks b)
  unfolding prod
  prod_squares z s u r [] a b = mul-one g _
  prod_squares z s u r (k ∷ ks) a b =
      sym (assoc _ _ _)
      ∙ ap (λ t. t ⊙ prod g (λ k. zpow g (zpow g z (u k) ⊙ zpow g s (r k)) (u k)) ks)
          (comm _ _ ∙ sym (zpow-mul_one_more))
      ∙ prod_squares z s u r ks (u k *ℤ u k +ℤ a) (u k *ℤ r k +ℤ b)
    where
      zpow-mul_one_more :
          zpow g z (u k *ℤ u k +ℤ a) ⊙ zpow g s (u k *ℤ r k +ℤ b)
          ≡ zpow g (zpow g z (u k) ⊙ zpow g s (r k)) (u k) ⊙ (zpow g z a ⊙ zpow g s b)
      zpow-mul_one_more = pair_response z s (u k) (u k) a (r k) b

  -- Dividing the commitment to δ out of the last product.
  pub squares_cancel :
      (z s : Carrier) (c : ℤ) (u u' r : String → ℤ) (ks : List String) (r_delta a' δ : ℤ)
      → sq_sum u ks (pos 0) ≡ δ
      → inv (zpow g (zpow g z δ ⊙ zpow g s r_delta) c)
          ⊙ (zpow g s ((r_delta -ℤ ur_sum u r ks (pos 0)) *ℤ c +ℤ a')
              ⊙ prod g (λ k. zpow g (zpow g z (u k) ⊙ zpow g s (r k)) (c *ℤ u k +ℤ u' k)) ks)
        ≡ zpow g s a' ⊙ prod g (λ k. zpow g (zpow g z (u k) ⊙ zpow g s (r k)) (u' k)) ks
  squares_cancel z s c u u' r ks r_delta a' δ h =
      ap (λ t. inv (zpow g (zpow g z δ ⊙ zpow g s r_delta) c) ⊙ t)
        (ap₂ ◌⊙◌
            (ap (λ x. zpow g s (x +ℤ a')) (*ℤ_comm (r_delta -ℤ sum) c)
              ∙ zpow_response g s c (r_delta -ℤ sum) a')
            (prod_response g t c u u' ks)
          ∙ interchange g _ _ _ _
          ∙ ap (λ x. x ⊙ (zpow g s a' ⊙ prod g (λ k. zpow g (t k) (u' k)) ks))
              (sym (zpow-mul_distrib g _ _ c) ∙ ap (λ x. zpow g x c) whole))
      ∙ mul_cancel_left g _ _
    where
      sum : ℤ
      sum = ur_sum u r ks (pos 0)

      t : String → Carrier
      t k = zpow g z (u k) ⊙ zpow g s (r k)

      secrets : prod g (λ k. zpow g (t k) (u k)) ks ≡ zpow g z δ ⊙ zpow g s sum
      secrets =
          sym (one-mul _)
          ∙ ap (λ x. x ⊙ prod g (λ k. zpow g (t k) (u k)) ks)
              (sym (ap₂ ◌⊙◌ (zpow-zero z) (zpow-zero s) ∙ one-mul one))
          ∙ prod_squares z s u r ks (pos 0) (pos 0)
          ∙ ap (λ x. zpow g z x ⊙ zpow g s sum) h

      whole :
          zpow g s (r_delta -ℤ sum) ⊙ prod g (λ k. zpow g (t k) (u k)) ks
          ≡ zpow g z δ ⊙ zpow g s r_delta
      whole =
          ap (λ x. zpow g s (r_delta -ℤ sum) ⊙ x) secrets
          ∙ left_comm g _ _ _
          ∙ ap (λ x. zpow g z δ ⊙ x)
              (sym (zpow-add g s (r_delta -ℤ sum) sum) ∙ ap (zpow g s) (sub_add_cancel r_delta sum))
