-- ===== src/Bn/Laws.antt =====
-- The modular operations on invertible residues: a commutative group for each modulus.
use smartchaindb_experiment.Base.{ℕ, suc, ◌≡◌, arith, true, false}
use smartchaindb_experiment.Base.Int.{ℤ, pos, negsuc, ◌*ℤ◌, neg_ℤ}
use smartchaindb_experiment.Base.Outcome.{ok}
use smartchaindb_experiment.Group.{AbGroup, npow, ratio, zpow, mul-one}
use smartchaindb_experiment.Bn.Defs.{
  OpenSsl, BigNumber, mod_exp, mod_mul, mod_div, inverse, get_pedersen_commitment, set_negative,
  is_negative,
}

-- What the crate documents of its modular operations, for one modulus n: the residues that have an
-- inverse form a commutative group, `Rep x a` says that the integer x stands for the residue a, and
-- each operation returns the canonical integer of the residue that is meant.
pub record Residues (lib : OpenSsl) (n : BigNumber) : Type 1 where
  pub group : AbGroup
  pub val : group.Carrier → BigNumber
  pub Rep : BigNumber → group.Carrier → Type 0
  pub val_injective : (a b : group.Carrier) → val a ≡ val b → a ≡ b
  pub val-Rep : (a : group.Carrier) → Rep (val a) a
  pub one-Rep : Rep (pos 1) group.one
  pub mul-Rep :
      (x y : BigNumber) (a b : group.Carrier) → Rep x a → Rep y b → Rep (x *ℤ y) (group.◌⊙◌ a b)
  pub ssl_mod_mul_law :
      (x y : BigNumber) (a b : group.Carrier)
      → Rep x a
      → Rep y b
      → lib.ssl_mod_mul x y n ≡ ok (val (group.◌⊙◌ a b))
  pub ssl_mod_exp_law :
      (x : BigNumber) (a : group.Carrier) (k : ℕ)
      → Rep x a
      → lib.ssl_mod_exp x (pos k) n ≡ ok (val (npow group a k))
  pub ssl_mod_inverse_law :
      (x : BigNumber) (a : group.Carrier)
      → Rep x a
      → lib.ssl_mod_inverse x n ≡ ok (val (group.inv a))

is_negative-pos : (k : ℕ) → is_negative (pos k) ≡ false
unfolding is_negative
is_negative-pos k = ground arith

is_negative-negsuc : (k : ℕ) → is_negative (negsuc k) ≡ true
unfolding is_negative
is_negative-negsuc k = ground arith

set_negative-negsuc : (k : ℕ) → set_negative false (negsuc k) ≡ pos (suc k)
unfolding set_negative neg_ℤ
set_negative-negsuc k = ground arith

-- A number of no sign is negated, and a negative one stays.
pub set_negative-pos : (k : ℕ) → set_negative true (pos k) ≡ neg_ℤ (pos k)
unfolding set_negative
set_negative-pos k = ground arith

module _ (lib : OpenSsl) (n : BigNumber) (residues : Residues lib n) where
  open residues use {
    group, val, Rep, val-Rep, mul-Rep, ssl_mod_mul_law, ssl_mod_exp_law, ssl_mod_inverse_law,
  }
  open group use {Carrier, one, ◌⊙◌, inv, one-mul}

  infixl 60 ◌⊙◌
  pub mod_mul-Rep :
      (x y : BigNumber) (a b : Carrier) → Rep x a → Rep y b → mod_mul lib x y n ≡ ok (val (a ⊙ b))
  unfolding mod_mul
  mod_mul-Rep x y a b p q = ssl_mod_mul_law x y a b p q

  pub inverse-Rep : (x : BigNumber) (a : Carrier) → Rep x a → inverse lib x n ≡ ok (val (inv a))
  unfolding inverse
  inverse-Rep x a p = ssl_mod_inverse_law x a p

  zpow-pos : (a : Carrier) (k : ℕ) → zpow group a (pos k) ≡ npow group a k
  unfolding zpow ratio npow
  zpow-pos a k = mul-one group (npow group a k)

  zpow-negsuc : (a : Carrier) (k : ℕ) → zpow group a (negsuc k) ≡ npow group (inv a) (suc k)
  unfolding zpow ratio npow
  zpow-negsuc a k = one-mul (npow group (inv a) (suc k))

  -- A power with an exponent of either sign.
  pub mod_exp-Rep :
      (x : BigNumber) (a : Carrier) (e : ℤ)
      → Rep x a
      → mod_exp lib x e n ≡ ok (val (zpow group a e))
  unfolding mod_exp
  mod_exp-Rep x a (pos k) p = rw (is_negative-pos k, zpow-pos a k) (ssl_mod_exp_law x a k p)
  mod_exp-Rep x a (negsuc k) p =
      rw (is_negative-negsuc k, inverse-Rep x a p, set_negative-negsuc k, zpow-negsuc a k)
        (ssl_mod_exp_law (val (inv a)) (inv a) (suc k) (val-Rep (inv a)))

  pub mod_div-Rep :
      (x y : BigNumber) (a b : Carrier)
      → Rep x a
      → Rep y b
      → mod_div lib x y n ≡ ok (val (a ⊙ inv b))
  unfolding mod_div inverse
  mod_div-Rep x y a b p q =
      rw (ssl_mod_inverse_law y b q) (ssl_mod_mul_law x (val (inv b)) a (inv b) p (val-Rep (inv b)))

  pub get_pedersen_commitment-Rep :
      (x y : BigNumber) (a b : Carrier) (m r : ℤ)
      → Rep x a
      → Rep y b
      → get_pedersen_commitment lib x m y r n ≡ ok (val (zpow group a m ⊙ zpow group b r))
  unfolding get_pedersen_commitment
  get_pedersen_commitment-Rep x y a b m r p q =
      rw (mod_exp-Rep x a m p, mod_exp-Rep y b r q)
        (mod_mul-Rep _ _ _ _ (val-Rep (zpow group a m)) (val-Rep (zpow group b r)))
