-- ===== src/Cl/Sign/Bits/Or.antt =====
-- The bits that `bitwise_or_big_int` sets.
use native.Mathlib.Nat.{
  pow-suc, one-le-pow, pow-le-pow_right, div-eq_of_lt, div-add-mod, mod-lt, add-mul-div_left,
  add-mul-mod_self_left, mul_assoc, mul_comm,
}
use smartchaindb_experiment.Base.{
  ℕ, zero, suc, ◌+◌, ◌-◌, ◌*◌, ◌/◌, ◌%◌, ◌^◌, ◌<◌, ◌≤◌, ◌==◌, ltb, Bool-cases, ==→eq, true, false,
  inl, inr, ◌||◌, ◌&&◌, if◌then◌else◌, ◌≡◌, refl, sym, ap, ◌∙◌, arith,
}
use smartchaindb_experiment.Bn.{BigNumber}
use smartchaindb_experiment.Cl.Sign.Bits.{
  magnitude, halvings, num_bits, bit, is_bit_set, set_bit, or_loop, bitwise_or_big_int,
}

pos_pow : (i : ℕ) → 0 < 2 ^ i
pos_pow i = one-le-pow i 2 (omega arith)

-- 2^j divides 2^(j + d).
pow_split : (j d : ℕ) → 2 ^ (d + j) ≡ 2 ^ j * 2 ^ d
pow_split j zero = ap (λ x. 2 ^ x) {y = j} (omega arith) ∙ omega arith
pow_split j (suc d) =
    ap (λ x. 2 ^ x) {y = suc (d + j)} (omega arith)
    ∙ pow-suc 2 (d + j)
    ∙ ap (λ x. x * 2) (pow_split j d)
    ∙ mul_assoc (2 ^ j) (2 ^ d) 2
    ∙ ap (λ x. 2 ^ j * x) (sym (pow-suc 2 d))

-- A number below 2^i has no bit from i on.
bit_above : (n i j : ℕ) → n < 2 ^ i → i ≤ j → bit n j ≡ false
unfolding bit
bit_above n i j h le =
    let small : n < 2 ^ j = omega (arith, h, pow-le-pow_right {n = 2} (omega arith) le) in
    ap (λ x. x % 2 == 1) (div-eq_of_lt small)

-- Adding 2^i to such a number keeps the bits below i and sets the bit i.
bit_below : (n i j : ℕ) → j < i → bit (n + 2 ^ i) j ≡ bit n j
unfolding bit
bit_below n i j h =
    let d = i - j - 1 in
    let split : 2 ^ i ≡ 2 ^ j * (2 * 2 ^ d) =
      ap (λ x. 2 ^ x) {y = suc d + j} (omega arith)
      ∙ pow_split j (suc d)
      ∙ ap (λ x. 2 ^ j * x) (pow-suc 2 d ∙ mul_comm (2 ^ d) 2) in
    ap (λ x. (n + x) / 2 ^ j % 2 == 1) split
    ∙ ap (λ x. x % 2 == 1) (add-mul-div_left n (2 * 2 ^ d) (pos_pow j))
    ∙ ap (λ x. x == 1) (add-mul-mod_self_left (n / 2 ^ j) 2 (2 ^ d))

bit_at : (n i : ℕ) → n < 2 ^ i → bit (n + 2 ^ i) i ≡ true
unfolding bit
bit_at n i h =
    ap (λ x. (n + x) / 2 ^ i % 2 == 1) {y = 2 ^ i * 1} (omega arith)
    ∙ ap (λ x. x % 2 == 1) (add-mul-div_left n 1 (pos_pow i) ∙ ap (λ x. x + 1) (div-eq_of_lt h))

or_loop-lt : (a b : BigNumber) (i : ℕ) → or_loop a b i < 2 ^ i
unfolding or_loop set_bit
or_loop-lt a b zero = omega arith
or_loop-lt a b (suc i) = ground (arith, or_loop-lt a b i, pow-suc 2 i)

-- Setting the bit i of a number that has none from i on.
set_bit-bit : (n i j : ℕ) → n < 2 ^ i → bit (set_bit n i) j ≡ (bit n j || j == i)
unfolding set_bit
set_bit-bit n i j h = rw (bit_above n i i h (omega arith)) (elim (Bool-cases (ltb j i)) [
  | inl e ↦ ground (arith, e, bit_below n i j (ground (arith, e)))
  | inr e ↦ elim (Bool-cases (j == i)) [
    | inl f ↦ rw (==→eq j i f) (ground (arith, bit_at n i h))
    | inr f ↦ ground (
      arith,
      e,
      f,
      bit_above n i j h (ground (arith, e)),
      bit_above (n + 2 ^ i) (suc i) j (omega (arith, h, pow-suc 2 i)) (ground (arith, e, f)),
    )
  ]
])

or_loop-bit :
    (a b : BigNumber) (i j : ℕ)
    → bit (or_loop a b i) j ≡ (ltb j i && (is_bit_set a j || is_bit_set b j))
unfolding or_loop
or_loop-bit a b zero j = ground (arith, bit_above 0 0 j (omega arith) (omega arith))
or_loop-bit a b (suc i) j = elim (Bool-cases (is_bit_set a i || is_bit_set b i)) [
  | inl e ↦ rw e (
      set_bit-bit (or_loop a b i) i j (or_loop-lt a b i)
      ∙ rw (or_loop-bit a b i j) (elim (Bool-cases (j == i)) [
        | inl f ↦ rw (==→eq j i f) (ground (arith, e))
        | inr f ↦ ground (arith, f)
      ]))
  | inr e ↦ rw e (
      or_loop-bit a b i j ∙ elim (Bool-cases (j == i)) [
        | inl f ↦ rw (==→eq j i f) (ground (arith, e))
        | inr f ↦ ground (arith, f)
      ])
]

halvings-lt : (rounds n : ℕ) → n ≤ rounds → n < 2 ^ halvings rounds n
unfolding halvings
halvings-lt zero n h = omega (arith, h)
halvings-lt (suc rounds) n h = elim (Bool-cases (n == 0)) [
  | inl e ↦ rw e (ground (arith, e))
  | inr e ↦ rw e (
      omega (
        arith,
        pow-suc 2 (halvings rounds (n / 2)),
        div-add-mod n 2,
        mod-lt n {m = 2} (omega arith),
        halvings-lt rounds (n / 2) (ground (arith, e, h, div-add-mod n 2)),
      ))
]

-- A number has no bit from its number of bits on.
num_bits-bit : (a : BigNumber) (j : ℕ) → num_bits a ≤ j → is_bit_set a j ≡ false
unfolding num_bits is_bit_set
num_bits-bit a j h =
    bit_above (magnitude a) (num_bits a) j (halvings-lt (magnitude a) (magnitude a) (omega arith)) h

abbrev significant : BigNumber → BigNumber → ℕ
significant a b = if ltb (num_bits a) (num_bits b) then num_bits b else num_bits a

-- `bitwise_or_big_int` is the bitwise or: a bit of the result is set exactly when it is set in one
-- of the two numbers.
pub bitwise_or_big_int-is_bit_set :
    (a b : BigNumber) (i : ℕ)
    → is_bit_set (bitwise_or_big_int a b) i ≡ (is_bit_set a i || is_bit_set b i)
unfolding bitwise_or_big_int is_bit_set
bitwise_or_big_int-is_bit_set a b i =
    ap (λ x. bit x i) {y = or_loop a b (significant a b)} (omega arith)
    ∙ or_loop-bit a b (significant a b) i
    ∙ elim (Bool-cases (ltb i (significant a b))) [
      | inl e ↦ rw e refl
      | inr e ↦
          ground
            (arith, e, num_bits-bit a i (ground (arith, e)), num_bits-bit b i (ground (arith, e)))
    ]
