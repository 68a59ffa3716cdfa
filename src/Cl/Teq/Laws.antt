-- ===== src/Cl/Teq/Laws.antt =====
-- What `calc_teq` computes, as a product of powers of the residues of the public key.
use smartchaindb_experiment.Base.{String, List, [], ◌∷◌, ◌≡◌, sym, ap, ◌∙◌, some}
use smartchaindb_experiment.Base.Int.{ℤ}
use smartchaindb_experiment.Base.Outcome.{ok}
use smartchaindb_experiment.Base.Maps.{Map, lookup}
use smartchaindb_experiment.Group.{zpow, prod, left_comm}
use smartchaindb_experiment.Bn.{BigNumber, OpenSsl, Residues, mod_exp-Rep, mod_mul-Rep}
use smartchaindb_experiment.Cl.Types.{CredentialPrimaryPublicKey}
use smartchaindb_experiment.Cl.Teq.{teq_loop, calc_teq}

-- The residues that the numbers of a public key stand for.
pub record KeyRep (lib : OpenSsl) (pk : CredentialPrimaryPublicKey) (residues : Residues lib pk.n)
    : Type 0 where
  pub z : residues.group.Carrier
  pub s : residues.group.Carrier
  pub rctxt : residues.group.Carrier
  pub r : String → residues.group.Carrier
  pub z-Rep : residues.Rep pk.z z
  pub s-Rep : residues.Rep pk.s s
  pub rctxt-Rep : residues.Rep pk.rctxt rctxt
  pub r-Rep : (k : String) (x : BigNumber) → lookup k pk.r ≡ some x → residues.Rep x (r k)

-- Every name of a list has a number in a map.
abbrev pub Covers {ℓ} : {V : Type ℓ} → Map V → List String → Type ℓ
Covers m [] = Unit
Covers m (k ∷ ks) = ((x : _) × (lookup k m ≡ some x)) × Covers m ks

-- A map gives the names of a list the values of a function.
abbrev pub Gives {ℓ} : {V : Type ℓ} → Map V → (String → V) → List String → Type ℓ
Gives m f [] = Unit
Gives m f (k ∷ ks) = (lookup k m ≡ some (f k)) × Gives m f ks

module _ (lib : OpenSsl) (pk : CredentialPrimaryPublicKey) (residues : Residues lib pk.n)
    (key : KeyRep lib pk residues) where
  open residues use {group, val, Rep, val-Rep}
  open group use {Carrier, ◌⊙◌, assoc, one-mul}

  infixl 60 ◌⊙◌
  unfoldable pub teq_product : Carrier → ℤ → ℤ → (String → ℤ) → ℤ → List String → Carrier
  teq_product a e v m m2 ks =
      zpow group key.rctxt m2
      ⊙ (zpow group key.s v ⊙ (prod group (λ k. zpow group (key.r k) (m k)) ks ⊙ zpow group a e))

  teq_loop-product :
      (m_tilde : Map BigNumber) (m : String → ℤ) (ks : List String) (acc : Carrier)
      → Covers pk.r ks
      → Gives m_tilde m ks
      → teq_loop lib pk m_tilde ks (val acc)
        ≡ ok (val (prod group (λ k. zpow group (key.r k) (m k)) ks ⊙ acc))
  unfolding teq_loop prod
  teq_loop-product m_tilde m [] acc cover gives = ap (λ a. ok (val a)) (sym (one-mul acc))
  teq_loop-product m_tilde m (k ∷ ks) acc ((x, e), cover) (g, gives) =
      rw
        (
          e,
          g,
          mod_exp-Rep lib pk.n residues x (key.r k) (m k) (key.r-Rep k x e),
          mod_mul-Rep lib pk.n residues _ _ _ _ (val-Rep (zpow group (key.r k) (m k)))
              (val-Rep acc),
        )
        (teq_loop-product m_tilde m ks (zpow group (key.r k) (m k) ⊙ acc) cover gives
          ∙ ap (λ a. ok (val a)) (left_comm group _ _ _ ∙ sym (assoc _ _ _)))

  -- With every name in the key and in the map of the exponents, `calc_teq` returns the product.
  pub calc_teq-product :
      (x : BigNumber) (a : Carrier) (e v : ℤ) (m_tilde : Map BigNumber) (m : String → ℤ) (m2 : ℤ)
      → (ks : List String) → Rep x a
      → Covers pk.r ks
      → Gives m_tilde m ks
      → calc_teq lib pk x e v m_tilde m2 ks ≡ ok (val (teq_product a e v m m2 ks))
  unfolding calc_teq teq_product
  calc_teq-product x a e v m_tilde m m2 ks p cover gives =
      rw
        (
          mod_exp-Rep lib pk.n residues x a e p,
          teq_loop-product m_tilde m ks (zpow group a e) cover gives,
          mod_exp-Rep lib pk.n residues pk.s key.s v key.s-Rep,
          mod_mul-Rep lib pk.n residues _ _ _ _ (val-Rep (zpow group key.s v))
              (val-Rep (prod group (λ k. zpow group (key.r k) (m k)) ks ⊙ zpow group a e)),
          mod_exp-Rep lib pk.n residues pk.rctxt key.rctxt m2 key.rctxt-Rep,
        )
        (mod_mul-Rep lib pk.n residues _ _ _ _ (val-Rep (zpow group key.rctxt m2)) (val-Rep _))
