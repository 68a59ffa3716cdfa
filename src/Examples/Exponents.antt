-- ===== src/Examples/Exponents.antt =====
-- Arithmetic modulo p * q on exponents, as the example's operations do it.
use native.Mathlib.Nat.{div-add-mod}
use smartchaindb_experiment.Base.{ℕ, suc, ◌+◌, ◌*◌, ◌/◌, ◌≡◌, refl, ap, ◌∙◌, arith}
use smartchaindb_experiment.Base.Int.{
  ℤ, pos, pos_part, neg_part, sub_ℕ, ◌+ℤ◌, ◌-ℤ◌, ◌*ℤ◌, eq_of_parts, +ℤ_parts, *ℤ_parts,
}
use smartchaindb_experiment.Cl.Sign.Correct.{ExponentLaws}
use smartchaindb_experiment.Examples.Zmod.{zmod, residue, residue_lem}

sub_ℕ-parts : (a b : ℕ) → pos_part (sub_ℕ a b) + b ≡ a + neg_part (sub_ℕ a b)
sub_ℕ-parts a b = ground arith

-- A number differs from its residue by a multiple of the modulus.
pub residue-quotient :
    (k : ℕ) (x : ℤ) → (j : ℤ) × (pos (residue (suc (suc k)) x) +ℤ j *ℤ pos (suc (suc k)) ≡ x)
residue-quotient k x =
    let m = suc (suc k) in
    let total = pos_part x + neg_part x * suc k in
    let j = sub_ℕ (total / m) (neg_part x) in
    (
      j,
      eq_of_parts (pos (residue m x) +ℤ j *ℤ pos m) x (
          balance (pos_part x) (neg_part x) (residue m x) (total / m) (pos_part j) (neg_part j)
            (pos_part (j *ℤ pos m)) (neg_part (j *ℤ pos m)) _ _
            (ap (λ t. m * (total / m) + t) (residue_lem k x) ∙ div-add-mod total m)
            (sub_ℕ-parts (total / m) (neg_part x)) (*ℤ_parts j (pos m))
            (+ℤ_parts (pos (residue m x)) (j *ℤ pos m))),
    )
  where
    balance :
        (p n r t jp jn mp mn sp sn : ℕ)
        → suc (suc k) * t + r ≡ p + n * suc k
        → jp + n ≡ t + jn
        → mp + (jp * 0 + jn * suc (suc k)) ≡ mn + (jp * suc (suc k) + jn * 0)
        → sp + 0 + mn ≡ sn + r + mp
        → sp + n ≡ p + sn
    balance p n r t jp jn mp mn sp sn a b c d = omega (arith, ap (λ (x : ℕ). x * suc (suc k)) b)

pub exponent_laws : (k : ℕ) → ExponentLaws zmod (pos (suc (suc k)))
exponent_laws k = record {
  mod_mul_law = λ x y.
      let (j, e) = residue-quotient k (x *ℤ y) in
      (pos (residue (suc (suc k)) (x *ℤ y)), j, refl, e);
  mod_sub_law = λ x y.
      let (j, e) = residue-quotient k (x -ℤ y) in
      (pos (residue (suc (suc k)) (x -ℤ y)), j, refl, e);
}
