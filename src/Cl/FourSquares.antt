-- ===== src/Cl/FourSquares.antt =====
-- `four_squares` of ursa_Master/libursa/src/cl/helpers.rs: three nested loops, downwards, that are
-- all left as soon as the squares of the four roots sum to the number.
pub mod Search
use smartchaindb_experiment.Base.{
  ℕ, zero, suc, ◌+◌, ◌-◌, ◌*◌, ◌/◌, ◌==◌, leb, if◌then◌else◌, List, [], ◌∷◌, String,
}
use smartchaindb_experiment.Base.Int.{ℤ, pos, negsuc}
use smartchaindb_experiment.Base.Outcome.{UrsaCryptoResult, ok, err, invalid_structure}
use smartchaindb_experiment.Base.Maps.{Map}
use smartchaindb_experiment.Bn.{BigNumber}

-- `largest_square_less_than`: the integer square root. Below 2^31 the square root of an `f64` and
-- its `floor` are exact.
unfoldable pub largest_square_less_than : ℕ → ℕ
largest_square_less_than zero = 0
largest_square_less_than (suc delta) =
    let root = largest_square_less_than delta in
    if leb (suc root * suc root) (suc delta) then suc root else root

-- `[usize; 4]`
pub record Roots : Type 0 where
  pub root_0 : ℕ
  pub root_1 : ℕ
  pub root_2 : ℕ
  pub root_3 : ℕ

-- How the body of a loop ends: with `break 'outer`, or for the next iteration.
pub data Flow : Type 0 where
  break_outer : Roots → Flow
  next : Roots → Flow

-- The rest of a loop, unless it was left.
abbrev pub and_then : Flow → (Roots → Flow) → Flow
and_then (break_outer found) rest = break_outer found
and_then (next roots) rest = rest roots

-- `for i in (1..=bound).rev()`
unfoldable pub for_rev : (ℕ → Roots → Flow) → ℕ → Roots → Flow
for_rev body zero roots = next roots
for_rev body (suc i) roots = and_then (body (suc i) roots) (for_rev body i)

abbrev pub sq : ℕ → ℕ
sq x = x * x

-- The body for `roots[2]`, where `roots[0]` is i and `roots[1]` is j.
unfoldable pub third_body : ℕ → ℕ → ℕ → ℕ → Roots → Flow
third_body d i j k roots =
    if d == sq i + sq j + sq k
    then break_outer (record { root_0 = i; root_1 = j; root_2 = k; root_3 = 0 })
    else (let last = largest_square_less_than (d - sq i - sq j - sq k) in
        let roots' : Roots = record { root_0 = i; root_1 = j; root_2 = k; root_3 = last } in
        if d == sq i + sq j + sq k + sq last then break_outer roots' else next roots')

-- The body for `roots[1]`, where `roots[0]` is i.
unfoldable pub second_body : ℕ → ℕ → ℕ → Roots → Flow
second_body d i j roots =
    if d == sq i + sq j
    then break_outer (record { root_0 = i; root_1 = j; root_2 = 0; root_3 = 0 })
    else (let third = largest_square_less_than (d - sq i - sq j) in
        for_rev (third_body d i j) third
          (record { root_0 = i; root_1 = j; root_2 = third; root_3 = roots.root_3 }))

unfoldable pub first_body : ℕ → ℕ → Roots → Flow
first_body d i roots =
    if d == sq i
    then break_outer (record { root_0 = i; root_1 = 0; root_2 = 0; root_3 = 0 })
    else (let second = largest_square_less_than (d - sq i) in
        for_rev (second_body d i) second
          (record { root_0 = i; root_1 = second; root_2 = roots.root_2; root_3 = roots.root_3 }))

abbrev pub roots_of : Flow → Roots
roots_of (break_outer roots) = roots
roots_of (next roots) = roots

unfoldable pub search_roots : ℕ → Flow
search_roots d =
    let first = largest_square_less_than d in
    for_rev (first_body d) first (record { root_0 = first; root_1 = 0; root_2 = 0; root_3 = 0 })

unfoldable pub roots_map : Roots → Map BigNumber
roots_map roots =
    ("0", pos roots.root_0)
    ∷ ("1", pos roots.root_1)
    ∷ ("2", pos roots.root_2)
    ∷ ("3", pos roots.root_3)
    ∷ []

unfoldable pub four_squares : ℤ → UrsaCryptoResult (Map BigNumber)
four_squares (negsuc k) = err invalid_structure
four_squares (pos d) = ok (roots_map (roots_of (search_roots d)))
