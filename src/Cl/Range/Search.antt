-- ===== src/Cl/Range/Search.antt =====
-- The search for a prime in a range: it returns the first prime that is drawn.
use smartchaindb_experiment.Base.{
  ℕ, zero, suc, ◌+◌, ◌<◌, ltb, if◌then◌else◌, true, false, none, some, ap₂, ◌∙◌, ◌≡◌, arith,
}
use smartchaindb_experiment.Base.Int.{pos, ◌≤ℤ◌, ltb_ℤ, ◌+ℤ◌, ◌-ℤ◌, int_laws, +ℤ_parts, -ℤ_parts}
use smartchaindb_experiment.Base.Outcome.{ok}
use smartchaindb_experiment.Bn.{BigNumber, OpenSsl}
use smartchaindb_experiment.Cl.Range

module _ (lib : OpenSsl) where
  -- The number that a draw gives.
  abbrev pub candidate : BigNumber → BigNumber → Range.Ranges → ℕ → BigNumber
  candidate start end d i = d i (end -ℤ start) +ℤ start

  -- The draws after a number of them.
  draws_equal :
      (d : Range.Ranges) (f g : ℕ → ℕ)
      → ((i : ℕ) → f i ≡ g i)
      → ◌≡◌ {A = Range.Ranges} (λ i. d (f i)) (λ i. d (g i))
  draws_equal d f g h = λ j i. d (h i j)

  prime_loop_first :
      (sub start : BigNumber) (k rounds : ℕ) (d : Range.Ranges)
      → ((i : ℕ) → i < k → lib.ssl_is_prime (d i sub +ℤ start) ≡ ok false)
      → lib.ssl_is_prime (d k sub +ℤ start) ≡ ok true
      → Range.prime_loop lib sub start rounds d
        ≡ (if ltb k rounds then some (ok (d k sub +ℤ start, λ i. d (k + suc i))) else none)
  unfolding Range.prime_loop
  prime_loop_first sub start k zero d composite prime = ground arith
  prime_loop_first sub start zero (suc rounds) d composite prime =
      rw (prime, Range.prime_loop)
        (ap₂ (λ t f. if t then some (ok (d 0 sub +ℤ start, f)) else none) {x = true}
          {y = ltb 0 (suc rounds)} (ground arith)
          (draws_equal d suc (λ i. 0 + suc i) (λ i. omega arith)))
  prime_loop_first sub start (suc k) (suc rounds) d composite prime =
      rw (composite 0 (omega arith), Range.prime_loop)
        (prime_loop_first sub start k rounds (Range.later d)
            (λ i j. composite (suc i) (omega (arith, j))) prime
          ∙ ap₂ (λ t f. if t then some (ok (d (suc k) sub +ℤ start, f)) else none)
              {x = ltb k rounds} {y = ltb (suc k) (suc rounds)} (ground arith)
              (draws_equal d (λ i. suc (k + suc i)) (λ i. suc k + suc i) (λ i. omega arith)))

  -- Let the k-th number drawn below `end` - `start`, counted from zero, be the first that gives a
  -- prime once `start` is added, and let it be in the range that was asked for. The loop of
  -- `generate_prime_in_range` has not returned after k rounds or fewer, and with more rounds it
  -- returns just that number, which is from `start` on and below `end`, and the draws that come after
  -- the k-th.
  pub generate_prime_in_range_first :
      (start end : BigNumber) (k rounds : ℕ) (d : Range.Ranges)
      → ((i : ℕ) → i < k → lib.ssl_is_prime (candidate start end d i) ≡ ok false)
      → lib.ssl_is_prime (candidate start end d k) ≡ ok true
      → pos 0 ≤ℤ d k (end -ℤ start)
      → ltb_ℤ (d k (end -ℤ start)) (end -ℤ start) ≡ true
      → (Range.generate_prime_in_range lib start end rounds d ≡ (
          if ltb k rounds then some (ok (candidate start end d k, λ i. d (k + suc i))) else none))
        × (start ≤ℤ candidate start end d k)
        × (ltb_ℤ (candidate start end d k) end ≡ true)
  unfolding Range.generate_prime_in_range
  generate_prime_in_range_first start end k rounds d composite prime low high = (
    prime_loop_first (end -ℤ start) start k rounds d composite prime,
    omega (int_laws, low),
    ground (arith, +ℤ_parts (d k (end -ℤ start)) start, -ℤ_parts end start, high),
  )
