-- ===== src/Cl/Predicate/Delta.antt =====
-- The sign of `get_delta` decides the predicate while the difference fits an `i32`, and answers the
-- opposite when it does not.
use smartchaindb_experiment.Base.{◌≡◌, refl, ◌↔◌, ◌⊎◌, inl, inr, ◌∙◌, arith}
use smartchaindb_experiment.Base.Int.{ℤ, pos, negsuc, ◌+ℤ◌, ◌-ℤ◌, ◌≤ℤ◌, int_laws}
use smartchaindb_experiment.Cl.Types.{Predicate, PredicateType}
use smartchaindb_experiment.Cl.Predicate.{IsI32, wrap_i32, get_delta, get_delta_by}

-- What a predicate says of a value.
abbrev pub HoldsBy : PredicateType → ℤ → ℤ → Type 0
HoldsBy PredicateType.ge bound x = bound ≤ℤ x
HoldsBy PredicateType.gt bound x = bound +ℤ pos 1 ≤ℤ x
HoldsBy PredicateType.le bound x = x ≤ℤ bound
HoldsBy PredicateType.lt bound x = x +ℤ pos 1 ≤ℤ bound

abbrev pub Holds : Predicate → ℤ → Type 0
Holds predicate x = HoldsBy predicate.p_type predicate.bound x

-- The difference that `get_delta` is meant to be, with no bound on its size.
abbrev pub exact_delta_by : PredicateType → ℤ → ℤ → ℤ
exact_delta_by PredicateType.ge bound x = x -ℤ bound
exact_delta_by PredicateType.gt bound x = x -ℤ bound -ℤ pos 1
exact_delta_by PredicateType.le bound x = bound -ℤ x
exact_delta_by PredicateType.lt bound x = bound -ℤ x -ℤ pos 1

abbrev pub exact_delta : Predicate → ℤ → ℤ
exact_delta predicate x = exact_delta_by predicate.p_type predicate.bound x

-- An integer in range is not changed.
pub wrap_i32_in_range : (x : ℤ) → IsI32 x → wrap_i32 x ≡ x
unfolding wrap_i32
wrap_i32_in_range x h = ground arith

≤ℤ_total : (a b : ℤ) → (a ≤ℤ b) ⊎ (b +ℤ pos 1 ≤ℤ a)
≤ℤ_total a b = omega int_laws

-- The value of no `i32`.
abbrev pub IsOverflow : ℤ → Type 0
IsOverflow x = (x ≤ℤ negsuc 2147483648) ⊎ (pos 2147483648 ≤ℤ x)

-- Out of range by less than 2^32, the sign is the other one.
wrap_i32_out_of_range :
    (x : ℤ)
    → IsOverflow x
    → negsuc 4294967295 ≤ℤ x
    → x ≤ℤ pos 4294967295
    → (pos 0 ≤ℤ wrap_i32 x) ↔ (x ≤ℤ negsuc 0)
unfolding wrap_i32
wrap_i32_out_of_range x h low high = (λ n. ground arith, λ n. ground arith)

-- Subtracting one after a wrap or before it is the same.
wrap_i32_pred :
    (x : ℤ)
    → negsuc 4294967294 ≤ℤ x
    → x ≤ℤ pos 4294967295
    → wrap_i32 (wrap_i32 x -ℤ pos 1) ≡ wrap_i32 (x -ℤ pos 1)
unfolding wrap_i32 ◌-ℤ◌
wrap_i32_pred x low high = ground arith

-- `get_delta` wraps the exact difference, once in effect.
get_delta_by-wrap :
    (p_type : PredicateType) (bound x : ℤ)
    → IsI32 bound
    → IsI32 x
    → get_delta_by p_type bound x ≡ wrap_i32 (exact_delta_by p_type bound x)
unfolding get_delta_by
get_delta_by-wrap PredicateType.ge bound x hb hx = refl
get_delta_by-wrap PredicateType.gt bound x hb hx =
    wrap_i32_pred (x -ℤ bound) (omega int_laws) (omega int_laws)
get_delta_by-wrap PredicateType.le bound x hb hx = refl
get_delta_by-wrap PredicateType.lt bound x hb hx =
    wrap_i32_pred (bound -ℤ x) (omega int_laws) (omega int_laws)

exact_delta_by_bounds :
    (p_type : PredicateType) (bound x : ℤ)
    → IsI32 bound
    → IsI32 x
    → (negsuc 4294967295 ≤ℤ exact_delta_by p_type bound x)
      × (exact_delta_by p_type bound x ≤ℤ pos 4294967295)
exact_delta_by_bounds PredicateType.ge bound x hb hx = omega int_laws
exact_delta_by_bounds PredicateType.gt bound x hb hx = omega int_laws
exact_delta_by_bounds PredicateType.le bound x hb hx = omega int_laws
exact_delta_by_bounds PredicateType.lt bound x hb hx = omega int_laws

exact_delta_by-Holds :
    (p_type : PredicateType) (bound x : ℤ)
    → (pos 0 ≤ℤ exact_delta_by p_type bound x) ↔ HoldsBy p_type bound x
exact_delta_by-Holds PredicateType.ge bound x = (λ h. omega int_laws, λ h. omega int_laws)
exact_delta_by-Holds PredicateType.gt bound x = (λ h. omega int_laws, λ h. omega int_laws)
exact_delta_by-Holds PredicateType.le bound x = (λ h. omega int_laws, λ h. omega int_laws)
exact_delta_by-Holds PredicateType.lt bound x = (λ h. omega int_laws, λ h. omega int_laws)

-- While the exact difference fits an `i32`, `get_delta` is that difference, and it is not negative
-- exactly when the predicate holds of the value.
pub get_delta-Holds :
    (predicate : Predicate) (x : ℤ)
    → IsI32 predicate.bound
    → IsI32 x
    → IsI32 (exact_delta predicate x)
    → (get_delta predicate x ≡ exact_delta predicate x)
      × ((pos 0 ≤ℤ get_delta predicate x) ↔ Holds predicate x)
unfolding get_delta
get_delta-Holds predicate x hb hx fits =
    let e : get_delta_by predicate.p_type predicate.bound x ≡ exact_delta predicate x =
      get_delta_by-wrap predicate.p_type predicate.bound x hb hx
      ∙ wrap_i32_in_range (exact_delta predicate x) fits in
    (e, rw e (exact_delta_by-Holds predicate.p_type predicate.bound x))

-- Where the exact difference of two `i32` values does not fit an `i32`, the answer is reversed:
-- `get_delta` is not negative exactly when the predicate fails.
pub get_delta_overflow :
    (predicate : Predicate) (x : ℤ)
    → IsI32 predicate.bound
    → IsI32 x
    → IsOverflow (exact_delta predicate x)
    → (pos 0 ≤ℤ get_delta predicate x) ↔ (¬ Holds predicate x)
unfolding get_delta
get_delta_overflow predicate x hb hx over =
    rw (get_delta_by-wrap predicate.p_type predicate.bound x hb hx) (
      (λ n holds.
          let negative : exact_delta predicate x ≤ℤ negsuc 0 = flips.0 n in
          let positive : pos 0 ≤ℤ exact_delta predicate x = decides.1 holds in omega arith),
      λ fails. flips.1 (negative_of fails),
    )
  where
    decides : (pos 0 ≤ℤ exact_delta predicate x) ↔ Holds predicate x
    decides = exact_delta_by-Holds predicate.p_type predicate.bound x

    flips : (pos 0 ≤ℤ wrap_i32 (exact_delta predicate x)) ↔ (exact_delta predicate x ≤ℤ negsuc 0)
    flips =
        let (low, high) = exact_delta_by_bounds predicate.p_type predicate.bound x hb hx in
        wrap_i32_out_of_range (exact_delta predicate x) over low high

    negative_of : ¬ Holds predicate x → exact_delta predicate x ≤ℤ negsuc 0
    negative_of fails = elim (≤ℤ_total (pos 0) (exact_delta predicate x)) [
      | inl h ↦ absurd (fails (decides.0 h))
      | inr h ↦ omega int_laws
    ]
