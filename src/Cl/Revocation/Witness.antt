-- ===== src/Cl/Revocation/Witness.antt =====
-- `Witness::new` and `Witness::update` of ursa_Master/libursa/src/cl/mod.rs.
use smartchaindb_experiment.Base.{
  ℕ, zero, suc, List, [], ◌∷◌, Bool, true, false, ◌==◌, if◌then◌else◌,
}
use smartchaindb_experiment.Base.Indices.{add_u32, sub_u32, minus, remove}
use smartchaindb_experiment.Base.Outcome.{UrsaCryptoResult, ok, ◌>>=◌}
use smartchaindb_experiment.Cl.Revocation.Delta.{Points, RevocationRegistryDelta}

-- max_cred_num + 1 - j + rev_idx
unfoldable pub witness_index : ℕ → ℕ → ℕ → ℕ
witness_index max_cred_num rev_idx j = add_u32 (sub_u32 (add_u32 max_cred_num 1) j) rev_idx

-- `(1..=max_cred_num)`, in some order.
unfoldable pub up_to : ℕ → List ℕ
up_to zero = []
up_to (suc i) = suc i ∷ up_to i

module _ (points : Points) where
  open points use {group}
  open group use {Carrier, ◌⊙◌, inv, one}

  infixl 60 ◌⊙◌
  pub record Witness : Type 0 where
    pub omega : Carrier

  module _ (access_tail : ℕ → UrsaCryptoResult Carrier) where
    -- `for j in issued { access_tail(index, |tail| omega = omega.add(tail)) }`
    unfoldable pub add_tails : ℕ → ℕ → List ℕ → Carrier → UrsaCryptoResult Carrier
    add_tails max_cred_num rev_idx [] acc = ok acc
    add_tails max_cred_num rev_idx (j ∷ js) acc = do
      tail ← access_tail (witness_index max_cred_num rev_idx j)
      add_tails max_cred_num rev_idx js (acc ⊙ tail)

    -- The loop that skips the credential's own index.
    unfoldable pub add_other_tails : ℕ → ℕ → List ℕ → Carrier → UrsaCryptoResult Carrier
    add_other_tails max_cred_num rev_idx [] acc = ok acc
    add_other_tails max_cred_num rev_idx (j ∷ js) acc = elim (rev_idx == j) [
      | true ↦ add_other_tails max_cred_num rev_idx js acc
      | false ↦ do
        tail ← access_tail (witness_index max_cred_num rev_idx j)
        add_other_tails max_cred_num rev_idx js (acc ⊙ tail)
    ]

    unfoldable pub issued_from : ℕ → Bool → RevocationRegistryDelta points → List ℕ
    issued_from max_cred_num issuance_by_default delta =
        if issuance_by_default then minus (up_to max_cred_num) delta.revoked else delta.issued

    -- `Witness::new`
    unfoldable pub new_witness :
        ℕ → ℕ → Bool → RevocationRegistryDelta points → UrsaCryptoResult Witness
    new_witness rev_idx max_cred_num issuance_by_default delta = do
      omega ←
          add_tails max_cred_num rev_idx
            (remove rev_idx (issued_from max_cred_num issuance_by_default delta)) one
      ok (record { omega = omega })

    -- `Witness::update`
    unfoldable pub update_witness :
        Witness → ℕ → ℕ → RevocationRegistryDelta points → UrsaCryptoResult Witness
    update_witness witness rev_idx max_cred_num delta = do
      omega_denom ← add_other_tails max_cred_num rev_idx delta.revoked one
      omega_num ← add_other_tails max_cred_num rev_idx delta.issued one
      ok (record { omega = witness.omega ⊙ (omega_num ⊙ inv omega_denom) })
