-- ===== src/Cl/Revocation/Range.antt =====
-- The indices of a registry: within the bound no sum or difference of `u32` wraps.
use smartchaindb_experiment.Base.{
  ℕ, zero, suc, ◌+◌, ◌-◌, ◌*◌, ◌≤◌, ◌<◌, ◌==◌, ==→eq, true, false, Bool-cases, inl, inr, ◌≡◌, refl,
  arith,
}
use smartchaindb_experiment.Base.Indices.{holds, NoRepeat, u32_modulus}
use smartchaindb_experiment.Cl.Revocation.Witness.{witness_index, up_to}

pub witness_index_in_range :
    (max_cred_num rev_idx j : ℕ)
    → 2 * max_cred_num + 1 < u32_modulus
    → rev_idx ≤ max_cred_num
    → j ≤ max_cred_num
    → witness_index max_cred_num rev_idx j ≡ max_cred_num + 1 - j + rev_idx
unfolding witness_index
witness_index_in_range max_cred_num rev_idx j small hi le = ground arith

pub up_to-holds : (i bound : ℕ) → holds i (up_to bound) ≡ true → (1 ≤ i) × (i ≤ bound)
unfolding up_to
up_to-holds i zero h = ground arith
up_to-holds i (suc bound) h = elim (Bool-cases (suc bound == i)) [
  | inl e ↦ let same = ==→eq (suc bound) i e in (omega arith, omega arith)
  | inr e ↦ let (lo, hi) = up_to-holds i bound (rw e at h) in (lo, omega arith)
]

pub holds-up_to : (i bound : ℕ) → 1 ≤ i → i ≤ bound → holds i (up_to bound) ≡ true
unfolding up_to
holds-up_to i zero lo hi = absurd (omega arith)
holds-up_to i (suc bound) lo hi = ground (arith, holds-up_to i bound lo)

above_up_to : (i bound : ℕ) → bound < i → holds i (up_to bound) ≡ false
unfolding up_to
above_up_to i zero h = refl
above_up_to i (suc bound) h = ground (arith, above_up_to i bound)

pub up_to-NoRepeat : (bound : ℕ) → NoRepeat (up_to bound)
unfolding up_to
up_to-NoRepeat zero = tt
up_to-NoRepeat (suc bound) = (above_up_to (suc bound) bound (omega arith), up_to-NoRepeat bound)
