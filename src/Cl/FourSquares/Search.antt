-- ===== src/Cl/FourSquares/Search.antt =====
-- The search of `four_squares` finds four roots for every sum of four squares.
use smartchaindb_experiment.Base.{
  ℕ, zero, suc, ◌+◌, ◌-◌, ◌≤◌, ◌<◌, ◌==◌, ◌≡◌, refl, ◌⊎◌, inl, inr, arith, leb, leb→le,
  leb_false→lt, Bool-cases, ==→eq, true, ap, ◌∙◌,
}
use smartchaindb_experiment.Base.Int.{pos}
use smartchaindb_experiment.Base.Outcome.{ok}
use smartchaindb_experiment.Cl.FourSquares.{
  largest_square_less_than, Roots, Flow, break_outer, next, for_rev, and_then, sq, third_body,
  second_body, first_body, search_roots, roots_of, roots_map, four_squares,
}

abbrev pub sum_of_squares : Roots → ℕ
sum_of_squares roots = sq roots.root_0 + sq roots.root_1 + sq roots.root_2 + sq roots.root_3

-- The root is the largest number with a square that is not above.
pub largest_square_less_than_bounds :
    (d : ℕ) → (sq (largest_square_less_than d) ≤ d) × (d < sq (suc (largest_square_less_than d)))
unfolding largest_square_less_than
largest_square_less_than_bounds zero = (omega arith, omega arith)
largest_square_less_than_bounds (suc d) =
    let (low, high) = largest_square_less_than_bounds d in ground arith

sq_mono : (a b : ℕ) → a ≤ b → sq a ≤ sq b
sq_mono a b h = grind arith

sq_lt : (a b : ℕ) → sq a < sq b → a < b
sq_lt a b h = elim (Bool-cases (leb b a)) [
  | inl e ↦ let le = sq_mono b a (leb→le b a e) in omega arith
  | inr e ↦ leb_false→lt b a e
]

-- Every number with a square that is not above is not above the root.
pub le-largest_square_less_than : (c d : ℕ) → sq c ≤ d → c ≤ largest_square_less_than d
le-largest_square_less_than c d h =
    let (low, high) = largest_square_less_than_bounds d in
    let lt = sq_lt c (suc (largest_square_less_than d)) (omega arith) in omega arith

-- The root of a square.
pub largest_square_less_than-sq : (c : ℕ) → largest_square_less_than (sq c) ≡ c
largest_square_less_than-sq c =
    let (low, high) = largest_square_less_than_bounds (sq c) in
    let lt = sq_lt (largest_square_less_than (sq c)) (suc c) (omega arith) in
    let ge = le-largest_square_less_than c (sq c) (omega arith) in omega arith

-- The loop ends with a break to roots that satisfy P.
abbrev pub Breaks : (Roots → Type 0) → Flow → Type 0
Breaks P (break_outer roots) = P roots
Breaks P (next roots) = ⊥

-- A break, if there is one, is to roots that satisfy P.
abbrev pub Sound : (Roots → Type 0) → Flow → Type 0
Sound P (break_outer roots) = P roots
Sound P (next roots) = Unit

and_then-Sound :
    (P : Roots → Type 0) (flow : Flow) (rest : Roots → Flow)
    → Sound P flow
    → ((roots : Roots) → Sound P (rest roots))
    → Sound P (and_then flow rest)
and_then-Sound P (break_outer found) rest h g = h
and_then-Sound P (next later) rest h g = g later

and_then-Breaks :
    (P : Roots → Type 0) (flow : Flow) (rest : Roots → Flow)
    → Sound P flow
    → (Breaks P flow) ⊎ ((roots : Roots) → Breaks P (rest roots))
    → Breaks P (and_then flow rest)
and_then-Breaks P (break_outer found) rest h g = h
and_then-Breaks P (next later) rest h (inl g) = absurd g
and_then-Breaks P (next later) rest h (inr g) = g later

for_rev-Sound :
    (P : Roots → Type 0) (body : ℕ → Roots → Flow)
    → ((i : ℕ) (roots : Roots) → Sound P (body i roots))
    → (bound : ℕ) (roots : Roots) → Sound P (for_rev body bound roots)
unfolding for_rev
for_rev-Sound P body each zero roots = tt
for_rev-Sound P body each (suc i) roots =
    and_then-Sound P (body (suc i) roots) (for_rev body i) (each (suc i) roots)
      (for_rev-Sound P body each i)

-- A loop of which the body breaks at some index breaks.
for_rev-Breaks :
    (P : Roots → Type 0) (body : ℕ → Roots → Flow)
    → ((i : ℕ) (roots : Roots) → Sound P (body i roots))
    → (target : ℕ) → 1 ≤ target
    → ((roots : Roots) → Breaks P (body target roots))
    → (bound : ℕ) (roots : Roots) → target ≤ bound
    → Breaks P (for_rev body bound roots)
unfolding for_rev
for_rev-Breaks P body each target positive hit zero roots le = absurd (omega arith)
for_rev-Breaks P body each target positive hit (suc i) roots le =
    and_then-Breaks P (body (suc i) roots) (for_rev body i) (each (suc i) roots)
      (elim (Bool-cases (suc i == target)) [
        | inl e ↦ inl (rw (==→eq (suc i) target e) (hit roots))
        | inr e ↦
            inr (λ later. for_rev-Breaks P body each target positive hit i later (ground arith))
      ])

-- The squares of the roots sum to d.
abbrev pub IsSplit : ℕ → Roots → Type 0
IsSplit d roots = sum_of_squares roots ≡ d

third_body-Sound : (d i j k : ℕ) (roots : Roots) → Sound (IsSplit d) (third_body d i j k roots)
unfolding third_body
third_body-Sound d i j k roots = ground arith

second_body-Sound : (d i j : ℕ) (roots : Roots) → Sound (IsSplit d) (second_body d i j roots)
unfolding second_body
second_body-Sound d i j roots = elim (Bool-cases (d == sq i + sq j)) [
  | inl e ↦ rw e (let h = ==→eq d (sq i + sq j) e in omega arith)
  | inr e ↦ rw e (
      for_rev-Sound (IsSplit d) (third_body d i j) (third_body-Sound d i j)
        (largest_square_less_than (d - sq i - sq j)) _)
]

first_body-Sound : (d i : ℕ) (roots : Roots) → Sound (IsSplit d) (first_body d i roots)
unfolding first_body
first_body-Sound d i roots = elim (Bool-cases (d == sq i)) [
  | inl e ↦ rw e (let h = ==→eq d (sq i) e in omega arith)
  | inr e ↦ rw e (
      for_rev-Sound (IsSplit d) (second_body d i) (second_body-Sound d i)
        (largest_square_less_than (d - sq i)) _)
]

third_body-Breaks :
    (d i j k last : ℕ) (roots : Roots)
    → d ≡ sq i + sq j + sq k + sq last
    → Breaks (IsSplit d) (third_body d i j k roots)
unfolding third_body
third_body-Breaks d i j k last roots h =
    let rest : d - sq i - sq j - sq k ≡ sq last = omega arith in
    let root : largest_square_less_than (d - sq i - sq j - sq k) ≡ last =
      ap largest_square_less_than rest ∙ largest_square_less_than-sq last in
    rw root (ground arith)

-- For the later bodies the roots that are sought stand largest first.
second_body-Breaks :
    (d i j c e : ℕ) (roots : Roots)
    → e ≤ c
    → d ≡ sq i + sq j + sq c + sq e
    → Breaks (IsSplit d) (second_body d i j roots)
unfolding second_body
second_body-Breaks d i j zero e roots le h = rw zero_case (grind arith)
  where
    zero_case : (d == sq i + sq j) ≡ true
    zero_case = grind arith
second_body-Breaks d i j (suc c) e roots le h = elim (Bool-cases (d == sq i + sq j)) [
  | inl q ↦ rw q (let h' = ==→eq d (sq i + sq j) q in omega arith)
  | inr q ↦ rw q (
      for_rev-Breaks (IsSplit d) (third_body d i j) (third_body-Sound d i j) (suc c) (omega arith)
        (λ roots'. third_body-Breaks d i j (suc c) e roots' h)
        (largest_square_less_than (d - sq i - sq j)) _
        (le-largest_square_less_than (suc c) (d - sq i - sq j) (omega arith)))
]

first_body-Breaks :
    (d i b c e : ℕ) (roots : Roots)
    → c ≤ b
    → e ≤ c
    → d ≡ sq i + sq b + sq c + sq e
    → Breaks (IsSplit d) (first_body d i roots)
unfolding first_body
first_body-Breaks d i zero c e roots le le' h = rw zero_case (grind arith)
  where
    zero_case : (d == sq i) ≡ true
    zero_case = grind arith
first_body-Breaks d i (suc b) c e roots le le' h = elim (Bool-cases (d == sq i)) [
  | inl q ↦ rw q (let h' = ==→eq d (sq i) q in omega arith)
  | inr q ↦ rw q (
      for_rev-Breaks (IsSplit d) (second_body d i) (second_body-Sound d i) (suc b) (omega arith)
        (λ roots'. second_body-Breaks d i (suc b) c e roots' le' h)
        (largest_square_less_than (d - sq i)) _
        (le-largest_square_less_than (suc b) (d - sq i) (omega arith)))
]

Breaks-roots_of : (P : Roots → Type 0) (flow : Flow) → Breaks P flow → P (roots_of flow)
Breaks-roots_of P (break_outer roots) h = h
Breaks-roots_of P (next roots) h = absurd h

-- The search splits every sum of four squares.
search_roots-IsSplit :
    (a b c e : ℕ)
    → b ≤ a
    → c ≤ b
    → e ≤ c
    → IsSplit (sq a + sq b + sq c + sq e) (roots_of (search_roots (sq a + sq b + sq c + sq e)))
unfolding search_roots for_rev largest_square_less_than
search_roots-IsSplit zero b c e ba cb ec =
    rw (none_above b (omega arith), none_above c (omega arith), none_above e (omega arith)) refl
  where
    none_above : (k : ℕ) → k ≤ 0 → k ≡ 0
    none_above k h = omega arith
search_roots-IsSplit (suc a) b c e ba cb ec =
    let d = sq (suc a) + sq b + sq c + sq e in
    Breaks-roots_of (IsSplit d) _ (
      for_rev-Breaks (IsSplit d) (first_body d) (first_body-Sound d) (suc a) (omega arith)
        (λ roots. first_body-Breaks d (suc a) b c e roots cb ec refl) (largest_square_less_than d) _
        (le-largest_square_less_than (suc a) d (omega arith)))

-- For every number that is a sum of four squares, written with the largest first, `four_squares`
-- returns roots under "0", "1", "2" and "3" whose squares sum to it.
pub four_squares-sum :
    (a b c e : ℕ)
    → b ≤ a
    → c ≤ b
    → e ≤ c
    → (roots : Roots) × (four_squares (pos (sq a + sq b + sq c + sq e)) ≡ ok (roots_map roots))
      × (sum_of_squares roots ≡ sq a + sq b + sq c + sq e)
unfolding four_squares
four_squares-sum a b c e ba cb ec = (
  roots_of (search_roots (sq a + sq b + sq c + sq e)),
  refl,
  search_roots-IsSplit a b c e ba cb ec,
)
