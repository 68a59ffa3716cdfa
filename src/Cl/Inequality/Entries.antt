-- ===== src/Cl/Inequality/Entries.antt =====
-- What the verifier makes of each entry of the list of an inequality proof.
use smartchaindb_experiment.Base.{
  ℕ, ◌*◌, String, List, [], ◌∷◌, ◌++◌, map, ◌≡◌, refl, some, true, false, arith, Bool,
  if◌then◌else◌,
}
use smartchaindb_experiment.Base.Int.{
  ℤ, pos, negsuc, ◌≤ℤ◌, ◌+ℤ◌, ◌-ℤ◌, ◌*ℤ◌, neg_ℤ, int_laws, eq_of_parts, *ℤ_parts,
}
use smartchaindb_experiment.Base.Outcome.{ok}
use smartchaindb_experiment.Base.Maps.{lookup}
use smartchaindb_experiment.Group.{zpow}
use smartchaindb_experiment.Bn.{
  BigNumber, OpenSsl, Residues, mod_exp-Rep, mod_mul-Rep, inverse-Rep, set_negative,
  set_negative-pos,
}
use smartchaindb_experiment.Cl.Types.{
  CredentialPrimaryPublicKey, Predicate, PredicateType, PrimaryPredicateInequalityProof,
}
use smartchaindb_experiment.Cl.Credential.{number_at}
use smartchaindb_experiment.Cl.Teq.Laws.{KeyRep, Gives}
use smartchaindb_experiment.Cl.Predicate.{
  IsI32, get_delta_prime, get_delta_prime_by, is_less, is_less_by,
}
use smartchaindb_experiment.Cl.Predicate.Delta.{
  Holds, HoldsBy, exact_delta, exact_delta_by, wrap_i32_in_range,
}
use smartchaindb_experiment.Cl.FourSquares.{Roots, roots_map}
use smartchaindb_experiment.Cl.FourSquares.Search.{sum_of_squares}
use smartchaindb_experiment.Cl.Tne.{iterations}
use smartchaindb_experiment.Cl.Tne.Laws.{commit}
use smartchaindb_experiment.Cl.Inequality.Verify.{
  divide_challenge, delta_or_inverse, divide_delta, divide_loop,
}
use smartchaindb_experiment.Cl.Inequality.Algebra.{delta_cancel, delta_cancel_less, sq_sum}
use smartchaindb_experiment.Cl.Inequality.Honest.{signed_by}

-- How the attribute comes back from the predicate's two numbers.
abbrev pub Recovers : Bool → ℤ → ℤ → ℤ → Type 0
Recovers false delta_prime delta x = delta_prime +ℤ delta ≡ x
Recovers true delta_prime delta x = delta_prime -ℤ delta ≡ x

get_delta_prime_by-Recovers :
    (p_type : PredicateType) (bound x : ℤ)
    → IsI32 bound
    → IsI32 x
    → HoldsBy p_type bound x
    → Recovers
        (is_less_by p_type)
        (get_delta_prime_by p_type bound)
        (exact_delta_by p_type bound x)
        x
unfolding get_delta_prime_by is_less_by
get_delta_prime_by-Recovers PredicateType.ge bound x hb hx holds = omega int_laws
get_delta_prime_by-Recovers PredicateType.gt bound x hb hx holds =
    rw (wrap_i32_in_range (bound +ℤ pos 1) (omega int_laws)) (omega int_laws)
get_delta_prime_by-Recovers PredicateType.le bound x hb hx holds = omega int_laws
get_delta_prime_by-Recovers PredicateType.lt bound x hb hx holds =
    rw (wrap_i32_in_range (bound -ℤ pos 1) (omega int_laws)) (omega int_laws)

pub get_delta_prime-Recovers :
    (predicate : Predicate) (x : ℤ)
    → IsI32 predicate.bound
    → IsI32 x
    → Holds predicate x
    → Recovers (is_less predicate) (get_delta_prime predicate) (exact_delta predicate x) x
unfolding is_less get_delta_prime
get_delta_prime-Recovers predicate x =
    get_delta_prime_by-Recovers predicate.p_type predicate.bound x

set_negative-nonneg : (x : ℤ) → pos 0 ≤ℤ x → set_negative true x ≡ neg_ℤ x
set_negative-nonneg (pos k) h = set_negative-pos k
set_negative-nonneg (negsuc k) h = absurd (omega arith)

pos_mul : (a b : ℕ) → pos a *ℤ pos b ≡ pos (a * b)
pos_mul a b = eq_of_parts (pos a *ℤ pos b) (pos (a * b)) (grind (arith, *ℤ_parts (pos a) (pos b)))

pub response_nonneg : (c s m : ℤ) → pos 0 ≤ℤ c → pos 0 ≤ℤ s → pos 0 ≤ℤ m → pos 0 ≤ℤ c *ℤ s +ℤ m
response_nonneg (pos c) (pos s) m hc hs hm = rw (pos_mul c s) (omega int_laws)
response_nonneg (pos c) (negsuc s) m hc hs hm = absurd (omega arith)
response_nonneg (negsuc c) s m hc hs hm = absurd (omega arith)

-- The roots' squares, added up as integers.
pub sq_sum-roots_map :
    (roots : Roots)
    → sq_sum (number_at (roots_map roots)) iterations (pos 0) ≡ pos (sum_of_squares roots)
unfolding roots_map
sq_sum-roots_map roots =
    rw
      (
        pos_mul roots.root_0 roots.root_0,
        pos_mul roots.root_1 roots.root_1,
        pos_mul roots.root_2 roots.root_2,
        pos_mul roots.root_3 roots.root_3,
      )
      (omega int_laws)

module _ (lib : OpenSsl) (pk : CredentialPrimaryPublicKey) (residues : Residues lib pk.n)
    (key : KeyRep lib pk residues) where
  open residues use {group, val, Rep, val-Rep, mul-Rep}
  open group use {Carrier, ◌⊙◌, inv}

  infixl 60 ◌⊙◌
  divide_challenge-Rep :
      (proof : PrimaryPredicateInequalityProof) (c : ℤ) (x : BigNumber) (a b : Carrier)
      → Rep x a
      → divide_challenge lib pk proof c x (val b) ≡ ok (val (inv (zpow group a c) ⊙ b))
  unfolding divide_challenge
  divide_challenge-Rep proof c x a b p =
      rw
        (
          mod_exp-Rep lib pk.n residues x a c p,
          inverse-Rep lib pk.n residues _ (zpow group a c) (val-Rep (zpow group a c)),
        )
        (mod_mul-Rep lib pk.n residues _ _ _ _ (val-Rep (inv (zpow group a c))) (val-Rep b))

  pub divide_loop-Rep :
      (proof : PrimaryPredicateInequalityProof) (c : ℤ) (t tau : String → Carrier)
      → (ks : List String) (rest rest' : List BigNumber) → Gives proof.t (λ k. val (t k)) ks
      → divide_delta lib pk proof c rest ≡ ok rest'
      → divide_loop lib pk proof c ks (map (λ k. val (tau k)) ks ++ rest)
        ≡ ok (map (λ k. val (inv (zpow group (t k) c) ⊙ tau k)) ks ++ rest')
  unfolding divide_loop
  divide_loop-Rep proof c t tau [] rest rest' gives h = h
  divide_loop-Rep proof c t tau (k ∷ ks) rest rest' (g, gives) h =
      rw
        (
          g,
          divide_challenge-Rep proof c (val (t k)) (t k) (tau k) (val-Rep (t k)),
          divide_loop-Rep proof c t tau ks rest rest' gives h,
        )
        refl

  -- The commitment to the difference, or its inverse.
  abbrev pub signed_commitment : Bool → Carrier → Carrier
  signed_commitment less t = if less then inv t else t

  delta_or_inverse-Rep :
      (proof : PrimaryPredicateInequalityProof) (c : ℤ) (less : Bool) (t : Carrier)
      → delta_or_inverse lib pk proof c less (val t) ≡ ok (val (signed_commitment less t))
  unfolding delta_or_inverse
  delta_or_inverse-Rep proof c false t = refl
  delta_or_inverse-Rep proof c true t = inverse-Rep lib pk.n residues (val t) t (val-Rep t)

  pub divide_delta-Rep :
      (proof : PrimaryPredicateInequalityProof) (c : ℤ) (t tau_delta tau_q : Carrier)
      → lookup "DELTA" proof.t ≡ some (val t)
      → divide_delta lib pk proof c (val tau_delta ∷ val tau_q ∷ [])
        ≡ ok (
            val (
              inv (
                zpow group
                  (zpow group key.z (get_delta_prime proof.predicate)
                    ⊙ signed_commitment (is_less proof.predicate) t)
                  c)
              ⊙ tau_delta)
            ∷ val (inv (zpow group t c) ⊙ tau_q)
            ∷ [])
  unfolding divide_delta
  divide_delta-Rep proof c t tau_delta tau_q found =
      let power = zpow group key.z (get_delta_prime proof.predicate) in
      let signed = signed_commitment (is_less proof.predicate) t in
      rw
        (
          found,
          delta_or_inverse-Rep proof c (is_less proof.predicate) t,
          mod_exp-Rep lib pk.n residues pk.z key.z (get_delta_prime proof.predicate) key.z-Rep,
          divide_challenge-Rep proof c (val power *ℤ val signed) (power ⊙ signed) tau_delta
              (mul-Rep _ _ _ _ (val-Rep power) (val-Rep signed)),
          divide_challenge-Rep proof c (val t) t tau_q (val-Rep t),
        )
        refl

  -- The entry ITERATION of the list, for a predicate of either direction.
  pub signed_cancel :
      (less : Bool) (c m m' r r' delta delta' : ℤ)
      → Recovers less delta' delta m
      → pos 0 ≤ℤ c
      → pos 0 ≤ℤ r
      → pos 0 ≤ℤ r'
      → inv (
            zpow group
              (zpow group key.z delta'
                ⊙ signed_commitment less (commit lib pk residues key delta r))
              c)
          ⊙ commit lib pk residues key (c *ℤ m +ℤ m') (signed_by less (c *ℤ r +ℤ r'))
        ≡ commit lib pk residues key m' (signed_by less r')
  signed_cancel false c m m' r r' delta delta' h hc hr hr' =
      delta_cancel group key.z key.s c m m' r r' delta delta' h
  signed_cancel true c m m' r r' delta delta' h hc hr hr' =
      rw
        (
          set_negative-nonneg (c *ℤ r +ℤ r') (response_nonneg c r r' hc hr hr'),
          set_negative-nonneg r' hr',
        )
        (delta_cancel_less group key.z key.s c m m' r r' delta delta' h)
