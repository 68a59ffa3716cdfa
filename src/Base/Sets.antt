-- ===== src/Base/Sets.antt =====
-- Sets of attribute names (`BTreeSet<String>`, `HashSet<String>`), as lists with no name twice. The
-- order of such a list is the order of the iteration, about which nothing is assumed.
use Prim.Native.String.{String}
use mathlib.Core.Path.{◌≡◌, refl}
use mathlib.Core.Bool.{Bool, true, false, ◌&&◌, ◌||◌, not}
use mathlib.Core.List.{List, [], ◌∷◌}
use native.Mathlib.Omega.{arith}
use text.Mathlib.Text.{◌==◌}
use text.Mathlib.TextEquality.{eq_iff}
use smartchaindb_experiment.Base.Tests.{if◌then◌else◌}

abbrev pub contains : String → List String → Bool
contains k [] = false
contains k (x ∷ xs) = x == k || contains k xs

abbrev pub insert : String → List String → List String
insert k [] = k ∷ []
insert k (x ∷ xs) = x ∷ (if x == k then xs else insert k xs)

-- The members of both, the first set's first.
abbrev pub union : List String → List String → List String
union xs [] = xs
union xs (y ∷ ys) = union (insert y xs) ys

abbrev pub difference : List String → List String → List String
difference [] ys = []
difference (x ∷ xs) ys = if contains x ys then difference xs ys else x ∷ difference xs ys

abbrev pub is_empty : List String → Bool
is_empty [] = true
is_empty (x ∷ xs) = false

-- `xs.difference(&ys).count() == 0`
abbrev pub subset : List String → List String → Bool
subset xs ys = is_empty (difference xs ys)

-- `xs == ys` for sets: the same members.
abbrev pub same_members : List String → List String → Bool
same_members xs ys = subset xs ys && subset ys xs

-- No name stands twice.
abbrev pub Distinct : List String → Type 0
Distinct [] = Unit
Distinct (x ∷ xs) = (contains x xs ≡ false) × Distinct xs

pub contains-insert :
    (j k : String) (xs : List String) → contains j (insert k xs) ≡ (k == j || contains j xs)
contains-insert j k [] = refl
contains-insert j k (x ∷ xs) =
    ground (arith, eq_iff x k, eq_iff x j, eq_iff k j, contains-insert j k xs)

pub contains-union :
    (j : String) (xs ys : List String) → contains j (union xs ys) ≡ (contains j xs || contains j ys)
contains-union j xs [] = ground arith
contains-union j xs (y ∷ ys) =
    ground (arith, contains-union j (insert y xs) ys, contains-insert j y xs)

pub contains-difference :
    (j : String) (xs ys : List String)
    → contains j (difference xs ys) ≡ (contains j xs && not (contains j ys))
contains-difference j [] ys = refl
contains-difference j (x ∷ xs) ys = ground (arith, eq_iff x j, contains-difference j xs ys)

pub insert-Distinct : (k : String) (xs : List String) → Distinct xs → Distinct (insert k xs)
insert-Distinct k [] h = (refl, tt)
insert-Distinct k (x ∷ xs) h =
    ground (arith, insert-Distinct k xs h.1, contains-insert x k xs, eq_iff x k, eq_iff k x)

pub union-Distinct : (xs ys : List String) → Distinct xs → Distinct (union xs ys)
union-Distinct xs [] h = h
union-Distinct xs (y ∷ ys) h = union-Distinct (insert y xs) ys (insert-Distinct y xs h)

pub difference-Distinct : (xs ys : List String) → Distinct xs → Distinct (difference xs ys)
difference-Distinct [] ys h = tt
difference-Distinct (x ∷ xs) ys h =
    ground (arith, difference-Distinct xs ys h.1, contains-difference x xs ys)

pub subset-contains :
    (j : String) (xs ys : List String)
    → subset xs ys ≡ true
    → contains j xs ≡ true
    → contains j ys ≡ true
subset-contains j [] ys h m = ground arith
subset-contains j (x ∷ xs) ys h m = ground (arith, eq_iff x j, subset-contains j xs ys)
