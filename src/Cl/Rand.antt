-- ===== src/Cl/Rand.antt =====
-- Random numbers, `bn_rand` and `get_mtilde` of ursa_Master/libursa/src/cl/helpers.rs. The generator
-- is a parameter: the numbers that it is going to return.
use smartchaindb_experiment.Base.{ℕ, suc, String, true, false, List, [], ◌∷◌, ◌≡◌}
use smartchaindb_experiment.Base.Outcome.{UrsaCryptoResult, ok}
use smartchaindb_experiment.Base.Outcome
use smartchaindb_experiment.Base.Maps.{Map, insert, contains_key}
use smartchaindb_experiment.Bn.{BigNumber}
use smartchaindb_experiment.Cl.Types.{large_mvect}

-- The i-th number that will be drawn, for each size in bits that may be asked for.
abbrev pub Draws : Type 0
Draws = ℕ → ℕ → BigNumber

-- A computation that draws random numbers and may fail.
abbrev pub Rand {ℓ} : Type ℓ → Type ℓ
Rand A = Draws → UrsaCryptoResult (A × Draws)

infixl 5 ◌>>=◌ ◌>>◌
abbrev pub ◌>>=◌ {ℓ κ} : {A : Type ℓ} {B : Type κ} → Rand A → (A → Rand B) → Rand B
◌>>=◌ m f d = Outcome.◌>>=◌ (m d) (λ r. f r.0 r.1)

abbrev pub ◌>>◌ {ℓ} : {B : Type ℓ} → Rand (Unit {0}) → Rand B → Rand B
m >> k = m >>= λ _. k

abbrev pub lift {ℓ} : {A : Type ℓ} → UrsaCryptoResult A → Rand A
lift m d = Outcome.◌>>=◌ m (λ a. ok (a, d))

-- The draws that are left after one.
abbrev pub later : Draws → Draws
later d = λ i. d (suc i)

-- Every number of the one was a number of the other.
abbrev pub Among : Draws → Draws → Type 0
Among d d' = (i size : ℕ) → (k : ℕ) × (d' i size ≡ d k size)

-- `bn_rand`
unfoldable pub bn_rand : ℕ → Rand BigNumber
bn_rand size d = ok (d 0 size, later d)

-- `get_mtilde`: a mask for each attribute that has none yet.
unfoldable pub get_mtilde : List String → Map BigNumber → Rand (Map BigNumber)
unfolding bn_rand
get_mtilde [] mtilde = lift (ok mtilde)
get_mtilde (attr ∷ attrs) mtilde = elim (contains_key attr mtilde) [
  | true ↦ get_mtilde attrs mtilde
  | false ↦ do x ← bn_rand large_mvect; get_mtilde attrs (insert attr x mtilde)
]
