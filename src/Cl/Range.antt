-- ===== src/Cl/Range.antt =====
-- Random numbers below a bound: `bn_rand_range`, `gen_x`, `random_qr` and `generate_prime_in_range`
-- of ursa_Master/libursa/src/cl/helpers.rs and of libursa/src/bn/openssl.rs. The generator is a
-- parameter: the numbers that it is going to return.
pub mod Search
use smartchaindb_experiment.Base.{ℕ, zero, suc, Bool, true, false, Option, none, some}
use smartchaindb_experiment.Base.Int.{pos, ◌+ℤ◌, ◌-ℤ◌, ◌*ℤ◌}
use smartchaindb_experiment.Base.Outcome.{UrsaCryptoResult, ok, panicked}
use smartchaindb_experiment.Base.Outcome
use smartchaindb_experiment.Bn.{BigNumber, OpenSsl}

-- The i-th number that will be drawn, for each bound that may be asked for.
abbrev pub Ranges : Type 0
Ranges = ℕ → BigNumber → BigNumber

-- A computation that draws numbers below bounds and may fail.
abbrev pub Ranged {ℓ} : Type ℓ → Type ℓ
Ranged A = Ranges → UrsaCryptoResult (A × Ranges)

infixl 5 ◌>>=◌
abbrev pub ◌>>=◌ {ℓ κ} : {A : Type ℓ} {B : Type κ} → Ranged A → (A → Ranged B) → Ranged B
◌>>=◌ m f d = Outcome.◌>>=◌ (m d) (λ r. f r.0 r.1)

abbrev pub lift {ℓ} : {A : Type ℓ} → UrsaCryptoResult A → Ranged A
lift m d = Outcome.◌>>=◌ m (λ a. ok (a, d))

-- The draws that are left after one.
abbrev pub later : Ranges → Ranges
later d = λ i. d (suc i)

-- `bn_rand_range`
unfoldable pub bn_rand_range : BigNumber → Ranged BigNumber
bn_rand_range bound d = ok (d 0 bound, later d)

-- `gen_x`: from 2 to p * q - 2.
unfoldable pub gen_x : BigNumber → BigNumber → Ranged BigNumber
unfolding bn_rand_range
gen_x p q = do x ← bn_rand_range (p *ℤ q -ℤ pos 3); lift (ok (x +ℤ pos 2))

module _ (lib : OpenSsl) where
  open lib use {ssl_modulus, ssl_is_prime}

  -- `random_qr`: the square of a number below n.
  unfoldable pub random_qr : BigNumber → Ranged BigNumber
  unfolding bn_rand_range
  random_qr n = do x ← bn_rand_range n; lift (ssl_modulus (x *ℤ x) n)

  -- The loop of `generate_prime_in_range`, which has no bound: rounds of it.
  unfoldable pub prime_loop :
      BigNumber → BigNumber → ℕ → Ranges → Option (UrsaCryptoResult (BigNumber × Ranges))
  prime_loop sub start zero d = none
  prime_loop sub start (suc rounds) d =
      let prime = d 0 sub +ℤ start in
      let again = prime_loop sub start rounds (later d) in tested (ssl_is_prime prime) prime again
    where
      tested :
          UrsaCryptoResult Bool
          → BigNumber
          → Option (UrsaCryptoResult (BigNumber × Ranges))
          → Option (UrsaCryptoResult (BigNumber × Ranges))
      tested (ok true) prime again = some (ok (prime, later d))
      tested (ok false) prime again = again
      tested (Outcome.err kind) prime again = some (Outcome.err kind)
      tested panicked prime again = some panicked

  -- `generate_prime_in_range`, with a number of rounds after which it has not returned.
  unfoldable pub generate_prime_in_range :
      BigNumber → BigNumber → ℕ → Ranges → Option (UrsaCryptoResult (BigNumber × Ranges))
  generate_prime_in_range start end rounds d = prime_loop (end -ℤ start) start rounds d
