-- ===== src/Base/Indices.antt =====
-- Sets of indices (`HashSet<u32>`), as lists with no number twice, in the order of the iteration,
-- about which nothing is assumed; and the sums and differences of `u32`, which wrap around.
use Prim.Native.Nat.{ℕ, ◌+◌, ◌-◌, ◌%◌}
use mathlib.Core.Path.{◌≡◌, refl, ◌∙◌}
use mathlib.Core.Logic.{inl, inr}
use mathlib.Core.Bool.{Bool, false, ◌&&◌, ◌||◌, not}
use mathlib.Core.List.{List, [], ◌∷◌}
use native.Mathlib.Omega.{arith}
use smartchaindb_experiment.Base.Tests.{if◌then◌else◌, ◌==◌, ==→eq, Bool-cases}

abbrev pub u32_modulus : ℕ
u32_modulus = 4294967296

abbrev pub add_u32 : ℕ → ℕ → ℕ
add_u32 a b = (a + b) % u32_modulus

abbrev pub sub_u32 : ℕ → ℕ → ℕ
sub_u32 a b = (a + u32_modulus - b) % u32_modulus

abbrev pub holds : ℕ → List ℕ → Bool
holds i [] = false
holds i (j ∷ js) = j == i || holds i js

abbrev pub remove : ℕ → List ℕ → List ℕ
remove i [] = []
remove i (j ∷ js) = if j == i then remove i js else j ∷ remove i js

-- `xs.difference(&ys)`
abbrev pub minus : List ℕ → List ℕ → List ℕ
minus [] ys = []
minus (x ∷ xs) ys = if holds x ys then minus xs ys else x ∷ minus xs ys

-- `xs.extend(ys)`
abbrev pub extend : List ℕ → List ℕ → List ℕ
extend xs [] = xs
extend xs (y ∷ ys) = extend (if holds y xs then xs else y ∷ xs) ys

-- `for y in ys { xs.remove(y) }`
abbrev pub remove_all : List ℕ → List ℕ → List ℕ
remove_all [] xs = xs
remove_all (y ∷ ys) xs = remove_all ys (remove y xs)

-- No number stands twice.
abbrev pub NoRepeat : List ℕ → Type 0
NoRepeat [] = Unit
NoRepeat (j ∷ js) = (holds j js ≡ false) × NoRepeat js

pub holds-remove : (i j : ℕ) (js : List ℕ) → holds i (remove j js) ≡ (holds i js && not (j == i))
holds-remove i j [] = refl
holds-remove i j (k ∷ js) = ground (arith, holds-remove i j js)

pub holds-minus :
    (i : ℕ) (xs ys : List ℕ) → holds i (minus xs ys) ≡ (holds i xs && not (holds i ys))
holds-minus i [] ys = refl
holds-minus i (x ∷ xs) ys = elim (Bool-cases (x == i)) [
  | inl e ↦ rw (==→eq x i e) (ground (arith, holds-minus i xs ys))
  | inr e ↦ ground (arith, holds-minus i xs ys)
]

pub holds-extend : (i : ℕ) (xs ys : List ℕ) → holds i (extend xs ys) ≡ (holds i xs || holds i ys)
holds-extend i xs [] = ground arith
holds-extend i xs (y ∷ ys) =
    holds-extend i (if holds y xs then xs else y ∷ xs) ys
    ∙ elim (Bool-cases (y == i)) [ inl e ↦ rw (==→eq y i e) (ground arith) | inr e ↦ ground arith ]

pub holds-remove_all :
    (i : ℕ) (ys xs : List ℕ) → holds i (remove_all ys xs) ≡ (holds i xs && not (holds i ys))
holds-remove_all i [] xs = ground arith
holds-remove_all i (y ∷ ys) xs =
    ground (arith, holds-remove_all i ys (remove y xs), holds-remove i y xs)

pub remove-NoRepeat : (j : ℕ) (xs : List ℕ) → NoRepeat xs → NoRepeat (remove j xs)
remove-NoRepeat j [] h = tt
remove-NoRepeat j (x ∷ xs) h = ground (arith, remove-NoRepeat j xs h.1, holds-remove x j xs)

pub minus-NoRepeat : (xs ys : List ℕ) → NoRepeat xs → NoRepeat (minus xs ys)
minus-NoRepeat [] ys h = tt
minus-NoRepeat (x ∷ xs) ys h = ground (arith, minus-NoRepeat xs ys h.1, holds-minus x xs ys)

pub extend-NoRepeat : (xs ys : List ℕ) → NoRepeat xs → NoRepeat (extend xs ys)
extend-NoRepeat xs [] h = h
extend-NoRepeat xs (y ∷ ys) h =
    extend-NoRepeat (if holds y xs then xs else y ∷ xs) ys (ground arith)

pub remove_all-NoRepeat : (ys xs : List ℕ) → NoRepeat xs → NoRepeat (remove_all ys xs)
remove_all-NoRepeat [] xs h = h
remove_all-NoRepeat (y ∷ ys) xs h = remove_all-NoRepeat ys (remove y xs) (remove-NoRepeat y xs h)
