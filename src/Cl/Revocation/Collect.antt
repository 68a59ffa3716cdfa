-- ===== src/Cl/Revocation/Collect.antt =====
-- `SimpleTailsAccessor::new` collects all the tails of a generator.
use smartchaindb_experiment.Base.{
  ℕ, zero, suc, ◌+◌, ◌*◌, ◌<◌, ◌%◌, List, [], ◌∷◌, ◌++◌, ◌≡◌, refl, sym, ap, ◌∙◌, some, none, arith,
  true, false, leb,
}
use smartchaindb_experiment.Base.Indices.{add_u32, u32_modulus}
use smartchaindb_experiment.Base.Outcome.{ok}
use smartchaindb_experiment.Cl.Revocation.Delta.{Points}
use smartchaindb_experiment.Cl.Revocation.Tails.{
  Scalars, new_tail, RevocationTailsGenerator, new_tails_generator, try_next, count, collect_loop,
  new_simple_tails_accessor, access_tail, get_elem?,
}

append_none {ℓ} : {A : Type ℓ} (xs : List A) → xs ++ [] ≡ xs
append_none [] = refl
append_none (x ∷ xs) = ap (λ ys. x ∷ ys) (append_none xs)

module _ {A : Type 0} (tail : ℕ → A) where
  -- The tails of the given number of indices, from the first one on.
  abbrev pub tails_from : ℕ → ℕ → List A
  tails_from i zero = []
  tails_from i (suc k) = tail i ∷ tails_from (suc i) k

  get_elem?-tails_from : (i k j : ℕ) → j < k → get_elem? (tails_from i k) j ≡ some (tail (i + j))
  get_elem?-tails_from i zero j h = absurd (omega arith)
  get_elem?-tails_from i (suc k) zero h = ap (λ x. some (tail x)) (omega arith)
  get_elem?-tails_from i (suc k) (suc j) h =
      get_elem?-tails_from (suc i) k j (omega arith) ∙ ap (λ x. some (tail x)) (omega arith)

  append-tails_from :
      (done : List A) (i k : ℕ)
      → (done ++ (tail i ∷ [])) ++ tails_from (suc i) k ≡ done ++ tails_from i (suc k)
  append-tails_from [] i k = refl
  append-tails_from (x ∷ done) i k = ap (λ xs. x ∷ xs) (append-tails_from done i k)

module _ (points : Points) (scalars : Scalars points) (tail : ℕ → points.group.Carrier)
    (g_dash : points.group.Carrier) (gamma : scalars.GroupOrderElement) (size : ℕ)
    (small : size < u32_modulus)
    (tails : (i : ℕ) → i < size → new_tail points scalars i g_dash gamma ≡ ok (tail i)) where
  abbrev generator_at : ℕ → RevocationTailsGenerator points scalars
  generator_at i = record { size = size; current_index = i; g_dash = g_dash; gamma = gamma }

  try_next_end : try_next points scalars (generator_at size) ≡ ok (none, generator_at size)
  unfolding try_next
  try_next_end = rw (ended, try_next) refl
    where
      ended : leb size size ≡ true
      ended = ground arith

  try_next-tail :
      (i : ℕ)
      → i < size
      → try_next points scalars (generator_at i) ≡ ok (some (tail i), generator_at (suc i))
  unfolding try_next
  try_next-tail i lt = rw (more, try_next, tails i lt, successor) refl
    where
      more : leb size i ≡ false
      more = ground arith

      successor : add_u32 i 1 ≡ suc i
      successor = ground arith

  -- From the index i on, with k tails left.
  collect_loop-tails_from :
      (k i fuel : ℕ) (done : List points.group.Carrier)
      → i + k ≡ size
      → k < fuel
      → collect_loop points scalars fuel (generator_at i) done
        ≡ ok (some (done ++ tails_from tail i k, generator_at size))
  unfolding collect_loop
  collect_loop-tails_from k i zero done e h = absurd (omega arith)
  collect_loop-tails_from zero i (suc fuel) done e h =
      let last : i ≡ size = omega arith in
      rw (last, try_next_end)
        (ap (λ xs. ok (some (xs, generator_at size))) (sym (append_none done)))
  collect_loop-tails_from (suc k) i (suc fuel) done e h = rw (try_next-tail i (omega arith)) (
      collect_loop-tails_from k (suc i) fuel (done ++ (tail i ∷ [])) (omega arith) (omega arith)
      ∙ ap (λ xs. ok (some (xs, generator_at size))) (append-tails_from tail done i k))

-- `SimpleTailsAccessor::new`, on the generator that `RevocationTailsGenerator::new` makes for
-- max_cred_num credentials, ends: it returns an accessor to the tails of the indices 0 to
-- 2 * max_cred_num, each under its index, and leaves none in the generator. No size overflows, and
-- the curve library computes each of those tails.
pub new_simple_tails_accessor-access_tail :
    (points : Points) (scalars : Scalars points) (tail : ℕ → points.group.Carrier)
    (g_dash : points.group.Carrier) (gamma : scalars.GroupOrderElement) (max_cred_num : ℕ)
    → 2 * max_cred_num + 1 < u32_modulus
    → ((i : ℕ) → i < 2 * max_cred_num + 1 → new_tail points scalars i g_dash gamma ≡ ok (tail i))
    → (accessor : List points.group.Carrier) × (generator : RevocationTailsGenerator points scalars)
      × (new_simple_tails_accessor points scalars
            (new_tails_generator points scalars max_cred_num gamma g_dash)
          ≡ ok (some (accessor, generator)))
      × (count points scalars generator ≡ 0)
      × ((i : ℕ) → i < 2 * max_cred_num + 1 → access_tail points scalars accessor i ≡ ok (tail i))
unfolding new_simple_tails_accessor new_tails_generator count access_tail
new_simple_tails_accessor-access_tail points scalars tail g_dash gamma max_cred_num small tails = (
  tails_from tail 0 (2 * max_cred_num + 1),
  record {
    size = 2 * max_cred_num + 1;
    current_index = 2 * max_cred_num + 1;
    g_dash = g_dash;
    gamma = gamma;
  },
  rw sized (
      collect_loop-tails_from points scalars tail g_dash gamma (2 * max_cred_num + 1) small tails
        (2 * max_cred_num + 1) 0 (suc (2 * max_cred_num + 1)) [] (omega arith) (omega arith)),
  ground arith,
  λ i lt.
      rw (get_elem?-tails_from tail 0 (2 * max_cred_num + 1) i lt)
        (ap (λ j. ok (tail j)) (omega arith)),
)
  where
    sized : add_u32 ((2 * max_cred_num) % u32_modulus) 1 ≡ 2 * max_cred_num + 1
    sized = ground arith
