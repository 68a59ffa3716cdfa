-- ===== src/Cl/Inputs/Request.antt =====
-- What any sequence of calls of `SubProofRequestBuilder` builds.
use mathlib.Core.Bool.{true≢false}
use mathlib.Core.Path.{subst}
use smartchaindb_experiment.Base.{
  String, Bool, Bool-cases, inl, inr, true, false, ◌||◌, ◌&&◌, Option, none, some, List, [], ◌∷◌,
  ◌++◌, ◌≡◌, refl, sym, ap, ◌∙◌, arith,
}
use text.Mathlib.Text.{◌==◌}
use text.Mathlib.TextEquality.{eq_iff}
use smartchaindb_experiment.Base.Int.{ℤ, ◌==ℤ◌, ==ℤ→eq}
use smartchaindb_experiment.Base.Sets.{Distinct, contains, contains-insert, insert-Distinct}
use smartchaindb_experiment.Cl.Types.{Predicate, PredicateType}
use smartchaindb_experiment.Cl.Verifier.Checks.{same_type, same_predicate, has_predicate}
use smartchaindb_experiment.Cl.Inputs.{
  SubProofRequestBuilder, new_sub_proof_request_builder, add_revealed_attr, parse_type,
  insert_predicate, add_typed_predicate, add_predicate, finalize_request,
}

-- A call of the builder: an attribute to reveal, or an attribute's name, the text of a condition and
-- a bound.
pub data RequestCall : Type 0 where
  revealed_attr : String → RequestCall
  predicate : String → String → ℤ → RequestCall

unfoldable pub call_request : RequestCall → SubProofRequestBuilder → SubProofRequestBuilder
call_request (revealed_attr attr) builder = add_revealed_attr builder attr
call_request (predicate attr_name p_type value) builder =
    (add_predicate builder attr_name p_type value).1

-- The calls one after the other, those that fail among them.
unfoldable pub call_requests : List RequestCall → SubProofRequestBuilder → SubProofRequestBuilder
call_requests [] builder = builder
call_requests (call ∷ calls) builder = call_requests calls (call_request call builder)

unfoldable pub reveals : String → RequestCall → Bool
reveals j (revealed_attr attr) = attr == j
reveals j (predicate attr_name p_type value) = false

-- The text that asks for a condition.
unfoldable pub text_of : PredicateType → String
text_of PredicateType.ge = "GE"
text_of PredicateType.le = "LE"
text_of PredicateType.gt = "GT"
text_of PredicateType.lt = "LT"

-- A call asks for a predicate by its attribute, the text of its condition and its bound.
unfoldable pub asks : Predicate → RequestCall → Bool
asks p (revealed_attr attr) = false
asks p (predicate attr_name p_type value) =
    attr_name == p.attr_name && p_type == text_of p.p_type && value ==ℤ p.bound

-- Some call of a list does.
abbrev pub any_call : (RequestCall → Bool) → List RequestCall → Bool
any_call f [] = false
any_call f (call ∷ calls) = f call || any_call f calls

-- No predicate stands twice.
abbrev pub NoneTwice : List Predicate → Type 0
NoneTwice [] = Unit
NoneTwice (p ∷ ps) = (has_predicate p ps ≡ false) × NoneTwice ps

same_type→eq : (s t : PredicateType) → same_type s t ≡ true → s ≡ t
unfolding same_type
same_type→eq s t h = ground (arith, h)

both : (a b : Bool) → (a && b) ≡ true → (a ≡ true) × (b ≡ true)
both a b h = ground (arith, h)

same_predicate→eq : (p q : Predicate) → same_predicate p q ≡ true → p ≡ q
unfolding same_predicate
same_predicate→eq p q h =
    let (names_types, bounds) = both _ _ h in
    let (names, types) = both _ _ names_types in
    let name = (eq_iff p.attr_name q.attr_name).0 names in
    let type = same_type→eq p.p_type q.p_type types in
    let bound = ==ℤ→eq p.bound q.bound bounds in
    λ i. record { attr_name = name i; p_type = type i; bound = bound i }

same_predicate_refl : (p : Predicate) → same_predicate p p ≡ true
unfolding same_predicate same_type
same_predicate_refl p = ground (arith, eq_iff p.attr_name p.attr_name)

same_predicate_swap : (p q : Predicate) → same_predicate p q ≡ false → same_predicate q p ≡ false
same_predicate_swap p q h = elim (Bool-cases (same_predicate q p)) [
  | inr e ↦ e
  | inl e ↦ absurd (
      true≢false
        (sym (same_predicate_refl p) ∙ ap (same_predicate p) (sym (same_predicate→eq q p e)) ∙ h))
]

has_predicate-append :
    (p q : Predicate) (ps : List Predicate)
    → has_predicate p (ps ++ (q ∷ [])) ≡ (has_predicate p ps || same_predicate q p)
unfolding has_predicate
has_predicate-append p q [] = ground arith
has_predicate-append p q (r ∷ ps) = ground (arith, has_predicate-append p q ps)

has_predicate_same :
    (p q : Predicate) (ps : List Predicate)
    → same_predicate q p ≡ true
    → has_predicate p ps ≡ has_predicate q ps
has_predicate_same p q ps h = ap (λ x. has_predicate x ps) (sym (same_predicate→eq q p h))

has_predicate-insert :
    (p q : Predicate) (ps : List Predicate)
    → has_predicate p (insert_predicate q ps) ≡ (has_predicate p ps || same_predicate q p)
unfolding insert_predicate
has_predicate-insert p q ps = ground (arith, has_predicate-append p q ps, has_predicate_same p q ps)

NoneTwice-append :
    (q : Predicate) (ps : List Predicate)
    → NoneTwice ps
    → has_predicate q ps ≡ false
    → NoneTwice (ps ++ (q ∷ []))
unfolding has_predicate
NoneTwice-append q [] h free = (refl, tt)
NoneTwice-append q (p ∷ ps) h free =
    ground (arith, has_predicate-append p q ps, same_predicate_swap p q, NoneTwice-append q ps h.1)

NoneTwice-insert :
    (q : Predicate) (ps : List Predicate) → NoneTwice ps → NoneTwice (insert_predicate q ps)
unfolding insert_predicate
NoneTwice-insert q ps h = elim (Bool-cases (has_predicate q ps)) [
  | inl e ↦ rw e h
  | inr e ↦ rw e (NoneTwice-append q ps h e)
]

-- No name and no predicate stands twice in the request.
pub record IsRequest (builder : SubProofRequestBuilder) : Type 0 where
  pub names_distinct : Distinct builder.value.revealed_attrs
  pub predicates_distinct : NoneTwice builder.value.predicates

-- What a typed call does to the names, to the predicates and to their being there once.
typed-revealed :
    (builder : SubProofRequestBuilder) (attr_name : String) (p_type : Option PredicateType)
    → (value : ℤ)
    → (add_typed_predicate builder attr_name p_type value).1.value.revealed_attrs
      ≡ builder.value.revealed_attrs
unfolding add_typed_predicate
typed-revealed builder attr_name none value = refl
typed-revealed builder attr_name (some t) value = refl

-- The predicate of a typed call is the given one.
unfoldable is_asked : Predicate → String → Option PredicateType → ℤ → Bool
is_asked p attr_name none value = false
is_asked p attr_name (some p_type) value =
    same_predicate (record { attr_name = attr_name; p_type = p_type; bound = value }) p

-- The four texts are read as the conditions that they ask for, and no other text is read.
type_is : Option PredicateType → PredicateType → Bool
unfolding same_type
type_is none t = false
type_is (some s) t = same_type s t

-- A text is read as the conditions of which it is the text.
Reads : String → PredicateType → Type 0
Reads x t = type_is (parse_type x) t ≡ (x == text_of t)

-- What holds of each condition holds of all.
every_type {ℓ} :
    (P : PredicateType → Type ℓ)
    → P PredicateType.ge
    → P PredicateType.le
    → P PredicateType.gt
    → P PredicateType.lt
    → (t : PredicateType) → P t
every_type P ge le gt lt PredicateType.ge = ge
every_type P ge le gt lt PredicateType.le = le
every_type P ge le gt lt PredicateType.gt = gt
every_type P ge le gt lt PredicateType.lt = lt

text_of-Reads : (s t : PredicateType) → Reads (text_of s) t
unfolding Reads type_is same_type parse_type text_of
text_of-Reads =
    every_type (λ s. (t : PredicateType) → Reads (text_of s) t)
      (every_type (Reads "GE") refl refl refl refl) (every_type (Reads "LE") refl refl refl refl)
      (every_type (Reads "GT") refl refl refl refl) (every_type (Reads "LT") refl refl refl refl)

other-Reads :
    (x : String)
    → (x == "GE") ≡ false
    → (x == "LE") ≡ false
    → (x == "GT") ≡ false
    → (x == "LT") ≡ false
    → (t : PredicateType) → Reads x t
unfolding Reads type_is parse_type text_of
other-Reads x ge le gt lt =
    every_type (Reads x) (rw (ge, le, gt, lt) refl) (rw (ge, le, gt, lt) refl)
      (rw (ge, le, gt, lt) refl) (rw (ge, le, gt, lt) refl)

known-Reads :
    (x : String) (s : PredicateType) → (x == text_of s) ≡ true → (t : PredicateType) → Reads x t
known-Reads x s e t = subst (λ y. Reads y t) (sym ((eq_iff x (text_of s)).0 e)) (text_of-Reads s t)

type_is-parse_type :
    (p_type : String) (t : PredicateType) → type_is (parse_type p_type) t ≡ (p_type == text_of t)
unfolding Reads text_of
type_is-parse_type x = elim (Bool-cases (x == "GE")) [
  | inl e ↦ known-Reads x PredicateType.ge e
  | inr ge ↦ elim (Bool-cases (x == "LE")) [
    | inl e ↦ known-Reads x PredicateType.le e
    | inr le ↦ elim (Bool-cases (x == "GT")) [
      | inl e ↦ known-Reads x PredicateType.gt e
      | inr gt ↦ elim (Bool-cases (x == "LT")) [
        | inl e ↦ known-Reads x PredicateType.lt e
        | inr lt ↦ other-Reads x ge le gt lt
      ]
    ]
  ]
]

is_asked-type_is :
    (p : Predicate) (attr_name : String) (read : Option PredicateType) (value : ℤ)
    → is_asked p attr_name read value
      ≡ (attr_name == p.attr_name && type_is read p.p_type && value ==ℤ p.bound)
unfolding is_asked type_is same_predicate
is_asked-type_is p attr_name none value = ground arith
is_asked-type_is p attr_name (some t) value = refl

is_asked-parse_type :
    (p : Predicate) (attr_name p_type : String) (value : ℤ)
    → is_asked p attr_name (parse_type p_type) value ≡ asks p (predicate attr_name p_type value)
unfolding asks
is_asked-parse_type p attr_name p_type value =
    is_asked-type_is p attr_name (parse_type p_type) value
    ∙ ap (λ b. attr_name == p.attr_name && b && value ==ℤ p.bound)
        (type_is-parse_type p_type p.p_type)

typed-asks :
    (builder : SubProofRequestBuilder) (attr_name : String) (p_type : Option PredicateType)
    → (value : ℤ) (p : Predicate)
    → has_predicate p (add_typed_predicate builder attr_name p_type value).1.value.predicates
      ≡ (has_predicate p builder.value.predicates || is_asked p attr_name p_type value)
unfolding add_typed_predicate is_asked
typed-asks builder attr_name none value p = ground arith
typed-asks builder attr_name (some t) value p =
    has_predicate-insert p (record { attr_name = attr_name; p_type = t; bound = value })
      builder.value.predicates

typed-IsRequest :
    (builder : SubProofRequestBuilder) (attr_name : String) (p_type : Option PredicateType)
    → (value : ℤ) → IsRequest builder
    → IsRequest (add_typed_predicate builder attr_name p_type value).1
unfolding add_typed_predicate
typed-IsRequest builder attr_name none value h = h
typed-IsRequest builder attr_name (some t) value h = record {
  names_distinct = h.names_distinct;
  predicates_distinct = NoneTwice-insert _ builder.value.predicates h.predicates_distinct;
}

call_request-reveals :
    (call : RequestCall) (builder : SubProofRequestBuilder) (j : String)
    → contains j (call_request call builder).value.revealed_attrs
      ≡ (contains j builder.value.revealed_attrs || reveals j call)
unfolding call_request reveals add_revealed_attr add_predicate
call_request-reveals (revealed_attr attr) builder j =
    ground (arith, contains-insert j attr builder.value.revealed_attrs)
call_request-reveals (predicate attr_name p_type value) builder j =
    ap (contains j) (typed-revealed builder attr_name (parse_type p_type) value) ∙ ground arith

call_request-asks :
    (call : RequestCall) (builder : SubProofRequestBuilder) (p : Predicate)
    → has_predicate p (call_request call builder).value.predicates
      ≡ (has_predicate p builder.value.predicates || asks p call)
unfolding call_request add_revealed_attr add_predicate asks
call_request-asks (revealed_attr attr) builder p = ground arith
call_request-asks (predicate attr_name p_type value) builder p =
    typed-asks builder attr_name (parse_type p_type) value p
    ∙ ap (λ t. has_predicate p builder.value.predicates || t)
        (is_asked-parse_type p attr_name p_type value)

call_request-IsRequest :
    (call : RequestCall) (builder : SubProofRequestBuilder)
    → IsRequest builder
    → IsRequest (call_request call builder)
unfolding call_request add_revealed_attr add_predicate
call_request-IsRequest (revealed_attr attr) builder h = record {
  names_distinct = insert-Distinct attr builder.value.revealed_attrs h.names_distinct;
  predicates_distinct = h.predicates_distinct;
}
call_request-IsRequest (predicate attr_name p_type value) builder h =
    typed-IsRequest builder attr_name (parse_type p_type) value h

call_requests-reveals :
    (calls : List RequestCall) (builder : SubProofRequestBuilder) (j : String)
    → contains j (call_requests calls builder).value.revealed_attrs
      ≡ (contains j builder.value.revealed_attrs || any_call (reveals j) calls)
unfolding call_requests
call_requests-reveals [] builder j = ground arith
call_requests-reveals (call ∷ calls) builder j = ground (
  arith,
  call_requests-reveals calls (call_request call builder) j,
  call_request-reveals call builder j,
)

call_requests-asks :
    (calls : List RequestCall) (builder : SubProofRequestBuilder) (p : Predicate)
    → has_predicate p (call_requests calls builder).value.predicates
      ≡ (has_predicate p builder.value.predicates || any_call (asks p) calls)
unfolding call_requests
call_requests-asks [] builder p = ground arith
call_requests-asks (call ∷ calls) builder p = ground (
  arith,
  call_requests-asks calls (call_request call builder) p,
  call_request-asks call builder p,
)

call_requests-IsRequest :
    (calls : List RequestCall) (builder : SubProofRequestBuilder)
    → IsRequest builder
    → IsRequest (call_requests calls builder)
unfolding call_requests
call_requests-IsRequest [] builder h = h
call_requests-IsRequest (call ∷ calls) builder h =
    call_requests-IsRequest calls (call_request call builder)
      (call_request-IsRequest call builder h)

-- Whatever the calls of the builder and however many of them fail, the request that `finalize`
-- returns has no name and no predicate twice, its revealed attributes are those that some call named,
-- and its predicates those that some call asked for with "GE", "LE", "GT" or
-- "LT": calls with another text add none.
pub finalize-call_requests :
    (calls : List RequestCall)
    → IsRequest (call_requests calls new_sub_proof_request_builder)
      × ((j : String)
          → contains j
              (finalize_request (call_requests calls new_sub_proof_request_builder)).revealed_attrs
            ≡ any_call (reveals j) calls)
      × ((p : Predicate)
          → has_predicate p
              (finalize_request (call_requests calls new_sub_proof_request_builder)).predicates
            ≡ any_call (asks p) calls)
unfolding finalize_request new_sub_proof_request_builder has_predicate
finalize-call_requests calls =
    let new : SubProofRequestBuilder = record {
      value = record { revealed_attrs = []; predicates = [] };
    } in
    (
      call_requests-IsRequest calls new (record { names_distinct = tt; predicates_distinct = tt }),
      λ j. call_requests-reveals calls new j,
      λ p. call_requests-asks calls new p,
    )
