-- ===== src/Cl/Teq/Algebra.antt =====
-- The equations between the products of an equality proof, in the group of the residues.
use smartchaindb_experiment.Base.{String, List, ◌≡◌, sym, ap, ap₂, ◌∙◌, true}
use smartchaindb_experiment.Base.Int.{ℤ, ◌+ℤ◌, ◌-ℤ◌, ◌*ℤ◌, int_laws}
use smartchaindb_experiment.Base.Sets.{contains, Distinct, subset, difference}
use smartchaindb_experiment.Group.{
  zpow, prod, prod_response, prod_same, prod_split, interchange, left_comm, mul_cancel_right,
  zpow_response, zpow-mul_distrib, zpow-mul, zpow-add, zpow-inv,
}
use smartchaindb_experiment.Bn.{OpenSsl, Residues}
use smartchaindb_experiment.Cl.Types.{CredentialPrimaryPublicKey}
use smartchaindb_experiment.Cl.Teq.Laws.{KeyRep, teq_product}

sub_add_cancel : (a b : ℤ) → (a -ℤ b) +ℤ b ≡ a
sub_add_cancel a b = omega int_laws

module _ (lib : OpenSsl) (pk : CredentialPrimaryPublicKey) (residues : Residues lib pk.n)
    (key : KeyRep lib pk residues) where
  open residues use {group}
  open group use {Carrier, ◌⊙◌, inv, assoc, comm}

  infixl 60 ◌⊙◌
  -- Responses challenge * secret + mask split the product into the secrets' and the masks'.
  pub teq_product_response :
      (a : Carrier) (c e e' v v' : ℤ) (m m' : String → ℤ) (m2 m2' : ℤ) (ks : List String)
      → teq_product lib pk residues key a
          (c *ℤ e +ℤ e')
          (c *ℤ v +ℤ v')
          (λ k. c *ℤ m k +ℤ m' k)
          (c *ℤ m2 +ℤ m2')
          ks
        ≡ zpow group (teq_product lib pk residues key a e v m m2 ks) c
          ⊙ teq_product lib pk residues key a e' v' m' m2' ks
  unfolding teq_product
  teq_product_response a c e e' v v' m m' m2 m2' ks =
      ap₂ ◌⊙◌ (zpow_response group key.rctxt c m2 m2') (
        ap₂ ◌⊙◌ (zpow_response group key.s c v v') (
          ap₂ ◌⊙◌ (prod_response group key.r c m m' ks) (zpow_response group a c e e')
          ∙ pair c _ _ _ _)
        ∙ pair c _ _ _ _)
      ∙ pair c _ _ _ _
    where
      pair :
          (c' : ℤ) (x x' y y' : Carrier)
          → (zpow group x c' ⊙ x') ⊙ (zpow group y c' ⊙ y') ≡ zpow group (x ⊙ y) c' ⊙ (x' ⊙ y')
      pair c' x x' y y' =
          interchange group _ _ _ _ ∙ ap (λ t. t ⊙ (x' ⊙ y')) (sym (zpow-mul_distrib group x y c'))

  -- The product over a set of names does not depend on their order.
  pub teq_product_same :
      (a : Carrier) (e v : ℤ) (m : String → ℤ) (m2 : ℤ) (xs ys : List String)
      → Distinct xs
      → Distinct ys
      → ((j : String) → contains j xs ≡ contains j ys)
      → teq_product lib pk residues key a e v m m2 xs
        ≡ teq_product lib pk residues key a e v m m2 ys
  unfolding teq_product
  teq_product_same a e v m m2 xs ys hx hy same =
      ap (λ t. zpow group key.rctxt m2 ⊙ (zpow group key.s v ⊙ (t ⊙ zpow group a e)))
        (prod_same group (λ k. zpow group (key.r k) (m k)) xs ys hx hy same)

  -- The product of the signature is that of the randomised signature over the names that stay
  -- hidden, times what the verifier computes from the revealed ones.
  pub teq_product_randomised :
      (a : Carrier) (e start v r : ℤ) (m : String → ℤ) (m2 : ℤ) (names revealed : List String)
      → Distinct names
      → Distinct revealed
      → subset revealed names ≡ true
      → teq_product lib pk residues key a e v m m2 names
        ≡ teq_product lib pk residues key
            (zpow group key.s r ⊙ a)
            (e -ℤ start)
            (v -ℤ e *ℤ r)
            m
            m2
            (difference names revealed)
          ⊙ (prod group (λ k. zpow group (key.r k) (m k)) revealed
              ⊙ zpow group (zpow group key.s r ⊙ a) start)
  unfolding teq_product
  teq_product_randomised a e start v r m m2 names revealed hn hr sub = sym (
      assoc _ _ _
      ∙ ap (λ t. zpow group key.rctxt m2 ⊙ t)
          (assoc _ _ _
            ∙ ap (λ t. zpow group key.s (v -ℤ e *ℤ r) ⊙ t)
                (interchange group _ _ _ _
                  ∙ ap₂ ◌⊙◌
                      (sym (
                        prod_split group (λ k. zpow group (key.r k) (m k)) names revealed hn hr
                          sub))
                      (sym (zpow-add group (zpow group key.s r ⊙ a) (e -ℤ start) start)
                        ∙ ap (zpow group (zpow group key.s r ⊙ a)) (sub_add_cancel e start)
                        ∙ zpow-mul_distrib group (zpow group key.s r) a e)
                  ∙ left_comm group _ _ _)
            ∙ sym (assoc _ _ _)
            ∙ ap (λ t. t ⊙ (prod group (λ k. zpow group (key.r k) (m k)) names ⊙ zpow group a e))
                (ap (λ t. zpow group key.s (v -ℤ e *ℤ r) ⊙ t) (sym (zpow-mul group key.s e r))
                  ∙ sym (zpow-add group key.s (v -ℤ e *ℤ r) (e *ℤ r))
                  ∙ ap (zpow group key.s) (sub_add_cancel v (e *ℤ r)))))

  -- Dividing out the known part by the challenge leaves the masks' product.
  pub response_cancel :
      (z w rar t : Carrier) (c : ℤ)
      → z ≡ w ⊙ rar
      → (zpow group w c ⊙ t) ⊙ zpow group (inv (z ⊙ inv rar)) c ≡ t
  response_cancel z w rar t c h =
      ap (λ x. (zpow group w c ⊙ t) ⊙ zpow group (inv x) c)
        (ap (λ y. y ⊙ inv rar) h ∙ mul_cancel_right group w rar)
      ∙ ap (λ x. (zpow group w c ⊙ t) ⊙ x) (zpow-inv group w c)
      ∙ ap (λ x. x ⊙ inv (zpow group w c)) (comm _ _)
      ∙ mul_cancel_right group t (zpow group w c)
