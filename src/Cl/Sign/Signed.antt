-- ===== src/Cl/Sign/Signed.antt =====
-- What the issuer's signature is: together with the blinding of the secrets, a signature on all the
-- values.
use smartchaindb_experiment.Base.{String, true, false, List, [], ◌∷◌, ◌≡◌, refl, sym, ap, ap₂, ◌∙◌}
use smartchaindb_experiment.Base.Int.{*ℤ_comm, ℤ, pos, ◌+ℤ◌, ◌*ℤ◌, ◌==ℤ◌}
use smartchaindb_experiment.Base.Maps.{Map, keys}
use smartchaindb_experiment.Base.Sets.{contains, Distinct}
use smartchaindb_experiment.Base.Outcome.{ok}
use smartchaindb_experiment.Group.{
  AbGroup, npow, zpow, prod, prod_same, ratio, mul-one, mul-inv, zpow-mul, zpow-add, zpow-one,
  zpow-inv, zpow-mul_distrib, inv_unique,
}
use smartchaindb_experiment.Bn.{
  BigNumber, OpenSsl, Residues, inverse, mod_exp-Rep, mod_mul-Rep, mod_div-Rep,
}
use smartchaindb_experiment.Cl.Types.{
  CredentialValue, CredentialValues, CredentialPrimaryPublicKey, CredentialPrimaryPrivateKey,
}
use smartchaindb_experiment.Cl.Credential.{value_at, Within}
use smartchaindb_experiment.Cl.Teq.Laws.{KeyRep, teq_product}
use smartchaindb_experiment.Cl.Blind.{hidden_names}
use smartchaindb_experiment.Cl.Blind.Names.{prod_congr}
use smartchaindb_experiment.Cl.Blind.Honest.{own_Entries}
use smartchaindb_experiment.Cl.Sign.{sign_primary_credential}
use smartchaindb_experiment.Cl.Sign.Names.{
  known_names, signed_names, signed_names-Distinct, prod-signed_names, value_power,
  known_loop-product,
}

module _ (g : AbGroup) (m : ℤ) where
  open g use {Carrier, one, ◌⊙◌, inv, comm, assoc, one-mul}

  infixl 60 ◌⊙◌
  -- An element whose m-th power is one.
  abbrev pub HasOrder : Carrier → Type 0
  HasOrder x = zpow g x m ≡ one

  pub mul-HasOrder : (x y : Carrier) → HasOrder x → HasOrder y → HasOrder (x ⊙ y)
  mul-HasOrder x y p q = zpow-mul_distrib g x y m ∙ ap₂ ◌⊙◌ p q ∙ one-mul one

  pub zpow-HasOrder : (x : Carrier) (a : ℤ) → HasOrder x → HasOrder (zpow g x a)
  zpow-HasOrder x a p =
      sym (zpow-mul g x m a)
      ∙ ap (zpow g x) (*ℤ_comm m a)
      ∙ zpow-mul g x a m
      ∙ ap (λ y. zpow g y a) p
      ∙ zpow-one g a

  pub inv-HasOrder : (x : Carrier) → HasOrder x → HasOrder (inv x)
  inv-HasOrder x p = zpow-inv g x m ∙ ap inv p ∙ sym (inv_unique g one one (one-mul one))

  pub prod-HasOrder :
      (f : String → Carrier) (names : List String)
      → ((k : String) → HasOrder (f k))
      → HasOrder (prod g f names)
  unfolding prod
  prod-HasOrder f [] h = zpow-one g m
  prod-HasOrder f (k ∷ names) h =
      mul-HasOrder (f k) (prod g f names) (h k) (prod-HasOrder f names h)

  -- An exponent counts modulo m.
  pub zpow-add_multiple : (x : Carrier) (a k : ℤ) → HasOrder x → zpow g x (a +ℤ k *ℤ m) ≡ zpow g x a
  zpow-add_multiple x a k p =
      zpow-add g x a (k *ℤ m)
      ∙ ap (λ y. zpow g x a ⊙ y) (zpow-mul g x k m ∙ ap (λ y. zpow g y k) p ∙ zpow-one g k)
      ∙ mul-one g (zpow g x a)

  zpow-pos_one : (x : Carrier) → zpow g x (pos 1) ≡ x
  unfolding zpow ratio npow
  zpow-pos_one x = mul-one g (x ⊙ one) ∙ mul-one g x

  -- Raised to the inverse of e modulo m and then to e, such an element is itself.
  pub root_power :
      (x : Carrier) (e d k : ℤ) → HasOrder x → e *ℤ d ≡ pos 1 +ℤ k *ℤ m → zpow g (zpow g x d) e ≡ x
  root_power x e d k p h =
      sym (zpow-mul g x e d) ∙ ap (zpow g x) h ∙ zpow-add_multiple x (pos 1) k p ∙ zpow-pos_one x

-- A private key for a public one: the numbers of the public key have an order that divides p * q,
-- as squares modulo (2p + 1)(2q + 1) have, and no residue that has an inverse is zero.
pub record IsKeyPair (lib : OpenSsl) (pk : CredentialPrimaryPublicKey)
    (sk : CredentialPrimaryPrivateKey) (residues : Residues lib pk.n) (key : KeyRep lib pk residues)
    : Type 0 where
  pub val_nonzero : (a : residues.group.Carrier) → (residues.val a ==ℤ pos 0) ≡ false
  pub z_order : HasOrder residues.group (sk.p *ℤ sk.q) key.z
  pub s_order : HasOrder residues.group (sk.p *ℤ sk.q) key.s
  pub rctxt_order : HasOrder residues.group (sk.p *ℤ sk.q) key.rctxt
  pub r_order : (k : String) → HasOrder residues.group (sk.p *ℤ sk.q) (key.r k)

-- What the issuer knows of the prover's values.
pub record IsKnownPart (issuer prover : Map CredentialValue) : Type 0 where
  pub same_known : known_names issuer ≡ known_names prover
  pub same_values :
      (j : String) → contains j (known_names prover) ≡ true → value_at issuer j ≡ value_at prover j

module _ (lib : OpenSsl) (pk : CredentialPrimaryPublicKey) (residues : Residues lib pk.n)
    (key : KeyRep lib pk residues) (sk : CredentialPrimaryPrivateKey)
    (pair : IsKeyPair lib pk sk residues key) (values : Map CredentialValue) where
  open residues use {group, val, Rep, val-Rep}
  open group use {Carrier, ◌⊙◌, inv, comm, assoc, one-mul}

  infixl 60 ◌⊙◌
  abbrev pub order : ℤ
  order = sk.p *ℤ sk.q

  abbrev pub known_product : Carrier
  known_product = prod group (value_power lib pk residues key values) (known_names values)

  abbrev pub hidden_product : Carrier
  hidden_product = prod group (value_power lib pk residues key values) (hidden_names values)

  -- What the signature's root is of: Z divided by everything else.
  abbrev pub quotient : BigNumber → BigNumber → BigNumber → Carrier
  quotient v_prime v context =
      key.z
      ⊙ inv (
          known_product
          ⊙ ((zpow group key.s v ⊙ (zpow group key.s v_prime ⊙ hidden_product))
              ⊙ zpow group key.rctxt context))

  pub quotient-HasOrder :
      (v_prime v context : BigNumber) → HasOrder group order (quotient v_prime v context)
  quotient-HasOrder v_prime v context =
      let powers : (k : String) → HasOrder group order (value_power lib pk residues key values k) =
        λ k. zpow-HasOrder group order (key.r k) (value_at values k) (pair.r_order k) in
      mul-HasOrder group order key.z _ pair.z_order (
        inv-HasOrder group order _ (
          mul-HasOrder group order _ _ (prod-HasOrder group order _ (known_names values) powers) (
            mul-HasOrder group order _ _
              (mul-HasOrder group order _ _ (zpow-HasOrder group order key.s v pair.s_order) (
                mul-HasOrder group order _ _ (zpow-HasOrder group order key.s v_prime pair.s_order)
                  (prod-HasOrder group order _ (hidden_names values) powers)))
              (zpow-HasOrder group order key.rctxt context pair.rctxt_order))))

  rearrange :
      (k a b h c q : Carrier) → (k ⊙ ((a ⊙ (b ⊙ h)) ⊙ c)) ⊙ q ≡ c ⊙ ((b ⊙ a) ⊙ ((h ⊙ k) ⊙ q))
  rearrange k a b h c q =
      ap (λ x. x ⊙ q) (comm k ((a ⊙ (b ⊙ h)) ⊙ c))
      ∙ assoc ((a ⊙ (b ⊙ h)) ⊙ c) k q
      ∙ ap (λ x. x ⊙ (k ⊙ q)) (comm (a ⊙ (b ⊙ h)) c)
      ∙ assoc c (a ⊙ (b ⊙ h)) (k ⊙ q)
      ∙ ap (λ x. c ⊙ x)
          (ap (λ x. x ⊙ (k ⊙ q)) (sym (assoc a b h) ∙ ap (λ x. x ⊙ h) (comm a b))
            ∙ assoc (b ⊙ a) h (k ⊙ q)
            ∙ ap (λ x. (b ⊙ a) ⊙ x) (sym (assoc h k q)))

  divide : (x z : Carrier) → x ⊙ (z ⊙ inv x) ≡ z
  divide x z =
      ap (λ y. x ⊙ y) (comm z (inv x))
      ∙ sym (assoc x (inv x) z)
      ∙ ap (λ y. y ⊙ z) (mul-inv group x)
      ∙ one-mul z

  -- Z is the product that a root of the quotient makes with the hidden and the known values, once the
  -- blinding is added to v.
  pub root-teq_product :
      (a : Carrier) (v_prime v context e : BigNumber) (names : List String)
      → zpow group a e ≡ quotient v_prime v context
      → Distinct (keys values)
      → Distinct names
      → ((j : String) → contains j names ≡ contains j (signed_names values))
      → key.z ≡ teq_product lib pk residues key a e (v_prime +ℤ v) (value_at values) context names
  unfolding teq_product
  root-teq_product a v_prime v context e names root distinct distinct' same =
      sym (divide _ key.z)
      ∙ rearrange known_product (zpow group key.s v) (zpow group key.s v_prime) hidden_product
          (zpow group key.rctxt context) (quotient v_prime v context)
      ∙ ap (λ x. zpow group key.rctxt context ⊙ x)
          (ap₂ ◌⊙◌ (sym (zpow-add group key.s v_prime v)) (
            ap₂ ◌⊙◌
              (sym (prod-signed_names group (value_power lib pk residues key values) values)
                ∙ prod_same group (value_power lib pk residues key values) (signed_names values)
                    names (signed_names-Distinct values distinct) distinct' (λ j. sym (same j)))
              (sym root)))

  -- The issuer returns a root of the quotient, and the quotient.
  pub sign_primary_credential-root :
      (issuer_values : CredentialValues)
      → IsKnownPart issuer_values.attrs_values values
      → Distinct (keys issuer_values.attrs_values)
      → Within pk.r (known_names values)
      → (u v_prime v context e d : BigNumber) → Rep u (zpow group key.s v_prime ⊙ hidden_product)
      → (u ==ℤ pos 0) ≡ false
      → inverse lib e order ≡ ok d
      → sign_primary_credential lib pk sk context issuer_values v u e
        ≡ ok (val (zpow group (quotient v_prime v context) d), val (quotient v_prime v context))
  unfolding sign_primary_credential
  sign_primary_credential-root issuer_values known distinct in_key u v_prime v context e d u-Rep
        nonzero inverted =
      let m = issuer_values.attrs_values in
      let s_v = zpow group key.s v in
      let big_u = zpow group key.s v_prime ⊙ hidden_product in
      let r_c = zpow group key.rctxt context in
      let before = (s_v ⊙ big_u) ⊙ r_c in
      let issuer_product : prod group (value_power lib pk residues key m) (known_names m)
          ≡ known_product =
        ap (prod group (value_power lib pk residues key m)) known.same_known
        ∙ prod_congr group _ _ (known_names values)
            (λ j h. ap (zpow group (key.r j)) (known.same_values j h)) in
      let rx = known_product ⊙ before in
      rw
        (
          mod_exp-Rep lib pk.n residues pk.s key.s v key.s-Rep,
          nonzero,
          mod_mul-Rep lib pk.n residues (val s_v) u s_v big_u (val-Rep s_v) u-Rep,
          mod_exp-Rep lib pk.n residues pk.rctxt key.rctxt context key.rctxt-Rep,
          mod_mul-Rep lib pk.n residues (val (s_v ⊙ big_u)) (val r_c) (s_v ⊙ big_u) r_c
              (val-Rep (s_v ⊙ big_u)) (val-Rep r_c),
          known_loop-product lib pk residues key m m before (own_Entries m distinct)
              (λ j h. in_key j (sym (ap (contains j) known.same_known) ∙ h)),
          issuer_product,
          mod_div-Rep lib pk.n residues pk.z (val rx) key.z rx key.z-Rep (val-Rep rx),
          inverted,
          mod_exp-Rep lib pk.n residues (val (quotient v_prime v context))
              (quotient v_prime v context) d (val-Rep (quotient v_prime v context)),
        )
        refl
