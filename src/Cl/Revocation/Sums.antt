-- ===== src/Cl/Revocation/Sums.antt =====
-- The sum of the points of the valid indices: what an accumulator and a witness are meant to be.
use smartchaindb_experiment.Base.{
  ℕ, zero, suc, ◌≤◌, ◌==◌, ==→eq, Bool, true, false, ◌&&◌, ◌||◌, not, Bool-cases, List, [], ◌∷◌,
  ◌≡◌, refl, sym, ap, ap₂, ◌∙◌, inl, inr, arith,
}
use smartchaindb_experiment.Base.Indices.{holds, NoRepeat}
use smartchaindb_experiment.Group.{AbGroup, interchange, left_comm, mul-one, mul_cancel_right}

-- Every index of a list is from 1 to the bound.
abbrev pub InRange : ℕ → List ℕ → Type 0
InRange bound js = (i : ℕ) → holds i js ≡ true → (1 ≤ i) × (i ≤ bound)

module _ (g : AbGroup) where
  open g use {Carrier, one, ◌⊙◌, inv, assoc, comm, one-mul}

  infixl 60 ◌⊙◌
  abbrev pub pick : Bool → Carrier → Carrier
  pick true x = x
  pick false x = one

  -- The points of the indices from 1 to the bound that are valid.
  unfoldable pub sum_of : (ℕ → Carrier) → (ℕ → Bool) → ℕ → Carrier
  sum_of f valid zero = one
  sum_of f valid (suc i) = pick (valid (suc i)) (f (suc i)) ⊙ sum_of f valid i

  pub sum_of-congr :
      (f : ℕ → Carrier) (valid valid' : ℕ → Bool) (bound : ℕ)
      → ((i : ℕ) → 1 ≤ i → i ≤ bound → valid i ≡ valid' i)
      → sum_of f valid bound ≡ sum_of f valid' bound
  unfolding sum_of
  sum_of-congr f valid valid' zero h = refl
  sum_of-congr f valid valid' (suc i) h =
      ap₂ (λ b x. pick b (f (suc i)) ⊙ x) (h (suc i) (omega arith) (omega arith))
        (sum_of-congr f valid valid' i (λ j lo hi. h j lo (omega arith)))

  pub sum_of-none :
      (f : ℕ → Carrier) (valid : ℕ → Bool) (bound : ℕ)
      → ((i : ℕ) → 1 ≤ i → i ≤ bound → valid i ≡ false)
      → sum_of f valid bound ≡ one
  unfolding sum_of
  sum_of-none f valid zero h = refl
  sum_of-none f valid (suc i) h =
      ap (λ b. pick b (f (suc i)) ⊙ sum_of f valid i) (h (suc i) (omega arith) (omega arith))
      ∙ one-mul _
      ∙ sum_of-none f valid i (λ j lo hi. h j lo (omega arith))

  -- One more valid index.
  pub sum_of-insert :
      (f : ℕ → Carrier) (valid valid' : ℕ → Bool) (x bound : ℕ)
      → 1 ≤ x
      → x ≤ bound
      → valid x ≡ false
      → ((i : ℕ) → valid' i ≡ (x == i || valid i))
      → sum_of f valid' bound ≡ f x ⊙ sum_of f valid bound
  unfolding sum_of
  sum_of-insert f valid valid' x zero lo hi new h = absurd (omega arith)
  sum_of-insert f valid valid' x (suc i) lo hi new h = elim (Bool-cases (x == suc i)) [
    | inl e ↦
        let same : x ≡ suc i = ==→eq x (suc i) e in
        let old : valid (suc i) ≡ false = ap valid (sym same) ∙ new in
        ap₂ (λ b t. pick b (f (suc i)) ⊙ t) (h (suc i) ∙ ap (λ b. b || valid (suc i)) e)
          (sum_of-congr f valid' valid i (λ j jlo jhi. h j ∙ ground arith))
        ∙ ap₂ (λ y t. f y ⊙ t) (sym same)
            (sym (ap (λ b. pick b (f (suc i)) ⊙ sum_of f valid i) old ∙ one-mul _))
    | inr e ↦
        ap₂ (λ b t. pick b (f (suc i)) ⊙ t) (h (suc i) ∙ ap (λ b. b || valid (suc i)) e)
          (sum_of-insert f valid valid' x i lo (ground arith) new h)
        ∙ left_comm g _ _ _
  ]

  -- The points of a list of indices, added up as the loops do.
  unfoldable pub sum_list : (ℕ → Carrier) → List ℕ → Carrier → Carrier
  sum_list f [] acc = acc
  sum_list f (j ∷ js) acc = sum_list f js (acc ⊙ f j)

  pub sum_list-sum_of :
      (f : ℕ → Carrier) (js : List ℕ) (bound : ℕ) (acc : Carrier)
      → NoRepeat js
      → InRange bound js
      → sum_list f js acc ≡ acc ⊙ sum_of f (λ i. holds i js) bound
  unfolding sum_list
  sum_list-sum_of f [] bound acc h range =
      sym (ap (λ t. acc ⊙ t) (sum_of-none f (λ i. false) bound (λ i lo hi. refl)) ∙ mul-one g acc)
  sum_list-sum_of f (j ∷ js) bound acc h range =
      let (lo, hi) = range j (ground arith) in
      sum_list-sum_of f js bound (acc ⊙ f j) h.1 (λ i m. range i (ground arith))
      ∙ assoc _ _ _
      ∙ ap (λ t. acc ⊙ t)
          (sym (
            sum_of-insert f (λ i. holds i js) (λ i. holds i (j ∷ js)) j bound lo hi h.0
              (λ i. refl)))

  -- After a delta: the new sum and what is revoked are the old sum and what is issued.
  pub sum_of-balance :
      (f : ℕ → Carrier) (valid issued revoked : ℕ → Bool) (bound : ℕ)
      → ((i : ℕ) → issued i ≡ true → valid i ≡ false)
      → ((i : ℕ) → revoked i ≡ true → valid i ≡ true)
      → sum_of f (λ i. issued i || (valid i && not (revoked i))) bound ⊙ sum_of f revoked bound
        ≡ sum_of f valid bound ⊙ sum_of f issued bound
  unfolding sum_of
  sum_of-balance f valid issued revoked zero new old = refl
  sum_of-balance f valid issued revoked (suc i) new old =
      interchange g _ _ _ _
      ∙ ap₂ ◌⊙◌
          (balance (valid (suc i)) (issued (suc i)) (revoked (suc i)) (new (suc i)) (old (suc i)))
          (sum_of-balance f valid issued revoked i new old)
      ∙ interchange g _ _ _ _
    where
      balance :
          (v s r : Bool)
          → (s ≡ true → v ≡ false)
          → (r ≡ true → v ≡ true)
          → pick (s || (v && not r)) (f (suc i)) ⊙ pick r (f (suc i))
            ≡ pick v (f (suc i)) ⊙ pick s (f (suc i))
      balance false false false n o = refl
      balance false true false n o = comm _ _
      balance true false false n o = refl
      balance true false true n o = comm _ _
      balance false s true n o = ground (arith, o refl)
      balance true true r n o = ground (arith, n refl)

  -- The new sum is the old one, with what is issued added and what is revoked subtracted.
  pub sum_of-change :
      (f : ℕ → Carrier) (valid issued revoked : ℕ → Bool) (bound : ℕ)
      → ((i : ℕ) → issued i ≡ true → valid i ≡ false)
      → ((i : ℕ) → revoked i ≡ true → valid i ≡ true)
      → sum_of f valid bound ⊙ (sum_of f issued bound ⊙ inv (sum_of f revoked bound))
        ≡ sum_of f (λ i. issued i || (valid i && not (revoked i))) bound
  sum_of-change f valid issued revoked bound new old =
      sym (assoc _ _ _)
      ∙ ap (λ t. t ⊙ inv (sum_of f revoked bound))
          (sym (sum_of-balance f valid issued revoked bound new old))
      ∙ mul_cancel_right g _ _
