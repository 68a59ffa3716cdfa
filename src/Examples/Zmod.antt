-- ===== src/Examples/Zmod.antt =====
-- A concrete `OpenSsl`: arithmetic modulo n with powers by repeated multiplication and inverses by
-- search, and the proof that its invertible residues satisfy the laws of `Residues`.
use native.Mathlib.Nat.{
  add-mul-mod_self_left, div-add-mod, mul_comm, mul_assoc, mod-lt, mod-eq_of_lt, one-mul, ℕ_set,
}
use native.Mathlib.Bridge.{le_prop}
use mathlib.Core.HLevel.{is_prop→PathP}
use smartchaindb_experiment.Base.{
  ℕ, zero, suc, ◌+◌, ◌-◌, ◌*◌, ◌/◌, ◌%◌, ◌<◌, ◌≤◌, true, Option, none, some, List, [], ◌∷◌, ◌≡◌,
  sym, ap, ap₂, ◌∙◌, inl, inr, arith, ◌==◌, ==→eq, if◌then◌else◌, Bool-cases, leb, leb→le,
  leb_false→lt,
}
use smartchaindb_experiment.Base.Int.{ℤ, pos, negsuc, pos_part, neg_part, sub_ℕ, ◌*ℤ◌, ◌-ℤ◌}
use smartchaindb_experiment.Base.Outcome.{UrsaCryptoResult, ok, err, invalid_state}
use smartchaindb_experiment.Group.{AbGroup, npow}
use smartchaindb_experiment.Bn.{OpenSsl, BigNumber, Residues}

-- The residue of an integer: -1 counts as n - 1.
unfoldable pub residue : ℕ → ℤ → ℕ
residue n x = (pos_part x + neg_part x * (n - 1)) % n

unfoldable pub pow_mod : ℕ → ℕ → ℕ → ℕ
pow_mod n b zero = 1 % n
pow_mod n b (suc k) = b * pow_mod n b k % n

-- The largest j below a bound with b * j ≡ 1 modulo n.
unfoldable pub search_inverse : ℕ → ℕ → ℕ → Option ℕ
search_inverse n b zero = none
search_inverse n b (suc j) = if b * j % n == 1 then some j else search_inverse n b j

abbrev or_fail : Option ℕ → UrsaCryptoResult BigNumber
or_fail none = err invalid_state
or_fail (some j) = ok (pos j)

-- The digest of a list of one-byte strings is a weighted sum: it only has to be a function.
unfoldable pub digest : List (List ℕ) → ℕ
digest [] = 7
digest ([] ∷ bs) = 3 * digest bs
digest ((x ∷ xs) ∷ bs) = x + 3 * digest bs

abbrev pub zmod : OpenSsl
zmod = record {
  ssl_mod_exp = λ x e n. ok (pos (pow_mod (pos_part n) (residue (pos_part n) x) (pos_part e)));
  ssl_mod_mul = λ x y n. ok (pos (residue (pos_part n) (x *ℤ y)));
  ssl_mod_inverse =
      λ x n. or_fail (search_inverse (pos_part n) (residue (pos_part n) x) (pos_part n));
  ssl_is_prime = λ x. ok true;
  to_bytes = λ x. pos_part x ∷ [];
  from_digest = λ bs. pos (digest bs);
  ssl_mod_sub = λ x y n. ok (pos (residue (pos_part n) (x -ℤ y)));
  ssl_modulus = λ x n. ok (pos (residue (pos_part n) x));
  ssl_safe_prime = λ i size. ok (pos (if i == 0 then 5 else 7));
  from_bytes = λ bytes. pos (digest (bytes ∷ []));
  sha256 = λ bytes. digest (bytes ∷ []) ∷ [];
}

mul-mod_left : (a b n : ℕ) → a % n * b % n ≡ a * b % n
mul-mod_left a b n =
    sym (add-mul-mod_self_left (a % n * b) n (a / n * b))
    ∙ ap (λ t. t % n) (omega (arith, ap (λ (t : ℕ). t * b) (div-add-mod a n)))

module _ (k : ℕ) where
  -- The modulus.
  abbrev pub m : ℕ
  m = suc (suc k)

  mul-mod_right : (a b : ℕ) → a * (b % m) % m ≡ a * b % m
  mul-mod_right a b =
      ap (λ t. t % m) (mul_comm a (b % m)) ∙ mul-mod_left b a m ∙ ap (λ t. t % m) (mul_comm b a)

  mul-mod : (a b : ℕ) → (a % m) * (b % m) % m ≡ a * b % m
  mul-mod a b = mul-mod_right (a % m) b ∙ mul-mod_left a b m

  residue-lt : (x : ℤ) → residue m x < m
  unfolding residue
  residue-lt x = mod-lt _ (omega arith)

  pub residue_lem : (x : ℤ) → residue m x ≡ (pos_part x + neg_part x * suc k) % m
  unfolding residue
  residue_lem x = ap (λ t. (pos_part x + neg_part x * t) % m) (omega arith)

  pub residue-pos : (a : ℕ) → a < m → residue m (pos a) ≡ a
  residue-pos a h = residue_lem (pos a) ∙ ap (λ t. t % m) {y = a} (omega arith) ∙ mod-eq_of_lt h

  diff : (a b : ℕ) → a < b → (b - a) + a ≡ b
  diff a b h = omega arith

  parts :
      (x y : ℤ)
      → residue m x * residue m y % m
        ≡ (pos_part x + neg_part x * suc k) * (pos_part y + neg_part y * suc k) % m
  parts x y =
      ap₂ (λ s t. s * t % m) (residue_lem x) (residue_lem y)
      ∙ mul-mod (pos_part x + neg_part x * suc k) (pos_part y + neg_part y * suc k)

  -- (p - n)(p' - n') with -1 written as k + 1.
  expand :
      (p n p' n' : ℕ)
      → (p * p' + n * n' + (p * n' + n * p') * suc k) % m ≡ (p + n * suc k) * (p' + n' * suc k) % m
  expand p n p' n' =
      sym (add-mul-mod_self_left (p * p' + n * n' + (p * n' + n * p') * suc k) m (n * n' * k))
      ∙ ap (λ t. t % m) (omega arith)

  residue-sub_ℕ : (a b : ℕ) → residue m (sub_ℕ a b) ≡ (a + b * suc k) % m
  residue-sub_ℕ a b = elim (Bool-cases (leb b a)) [
    | inl h ↦ rw h (residue_lem (pos (a - b)) ∙ small a b (leb→le b a h))
    | inr h ↦ rw h (residue_lem (negsuc (b - a - 1)) ∙ large a b (leb_false→lt b a h))
  ]
    where
      small : (a b : ℕ) → b ≤ a → (a - b + 0 * suc k) % m ≡ (a + b * suc k) % m
      small a b h =
          ap (λ t. t % m) {y = a - b} (omega arith)
          ∙ sym (add-mul-mod_self_left (a - b) m b)
          ∙ ap (λ t. t % m) (omega arith)

      large : (a b : ℕ) → a < b → (0 + suc (b - a - 1) * suc k) % m ≡ (a + b * suc k) % m
      large a b h =
          ap (λ t. (0 + t * suc k) % m) {y = b - a} (omega arith)
          ∙ ap (λ t. t % m) {y = (b - a) * suc k} (omega arith)
          ∙ sym (add-mul-mod_self_left ((b - a) * suc k) m a)
          ∙ ap (λ t. t % m) (omega (arith, ap (λ (t : ℕ). t * k) (diff a b h)))

  -- The residue of a product is the product of the residues.
  pub residue-*ℤ : (x y : ℤ) → residue m (x *ℤ y) ≡ residue m x * residue m y % m
  unfolding ◌*ℤ◌
  residue-*ℤ x y =
      residue-sub_ℕ _ _
      ∙ expand (pos_part x) (neg_part x) (pos_part y) (neg_part y)
      ∙ sym (parts x y)

-- An invertible residue with its inverse.
pub record Invertible (n : ℕ) : Type 0 where
  pub value : ℕ
  pub inverse_value : ℕ
  pub value_lt : value < n
  pub inverse_lt : inverse_value < n
  pub cancel : value * inverse_value % n ≡ 1

pub ext :
    (n : ℕ) (x y : Invertible n) → x.value ≡ y.value → x.inverse_value ≡ y.inverse_value → x ≡ y
ext n x y p q = λ i. record {
  value = p i;
  inverse_value = q i;
  value_lt = is_prop→PathP (λ j. p j < n) (λ j. le_prop) x.value_lt y.value_lt i;
  inverse_lt = is_prop→PathP (λ j. q j < n) (λ j. le_prop) x.inverse_lt y.inverse_lt i;
  cancel = is_prop→PathP (λ j. p j * q j % n ≡ 1) (λ j. ℕ_set _ _) x.cancel y.cancel i;
}

module _ (k : ℕ) where
  abbrev pub M : ℕ
  M = suc (suc k)

  -- (ab)(cd) = (ac)(bd) modulo the modulus.
  pub mod_swap : (a b c d : ℕ) → (a * b % M) * (c * d % M) % M ≡ (a * c % M) * (b * d % M) % M
  mod_swap a b c d =
      mul-mod k (a * b) (c * d) ∙ ap (λ t. t % M) (omega arith) ∙ sym (mul-mod k (a * c) (b * d))

  pub mod_assoc : (a b c : ℕ) → (a * b % M) * c % M ≡ a * (b * c % M) % M
  mod_assoc a b c =
      mul-mod_left (a * b) c M ∙ ap (λ t. t % M) (mul_assoc a b c) ∙ sym (mul-mod_right k a (b * c))

  pub one_mod : 1 % M ≡ 1
  one_mod = mod-eq_of_lt (omega arith)

  abbrev pub times : Invertible M → Invertible M → Invertible M
  times x y = record {
    value = x.value * y.value % M;
    inverse_value = x.inverse_value * y.inverse_value % M;
    value_lt = mod-lt _ (omega arith);
    inverse_lt = mod-lt _ (omega arith);
    cancel =
        mod_swap x.value y.value x.inverse_value y.inverse_value
        ∙ ap₂ (λ s t. s * t % M) x.cancel y.cancel
        ∙ one_mod;
  }

  abbrev pub flip : Invertible M → Invertible M
  flip x = record {
    value = x.inverse_value;
    inverse_value = x.value;
    value_lt = x.inverse_lt;
    inverse_lt = x.value_lt;
    cancel = ap (λ t. t % M) (mul_comm x.inverse_value x.value) ∙ x.cancel;
  }

  abbrev pub unit_one : Invertible M
  unit_one = record {
    value = 1;
    inverse_value = 1;
    value_lt = omega arith;
    inverse_lt = omega arith;
    cancel = one_mod;
  }

  pub one_times : (a : ℕ) → a < M → 1 * a % M ≡ a
  one_times a h = ap (λ t. t % M) (one-mul a) ∙ mod-eq_of_lt h

  abbrev pub unit_group : AbGroup
  unit_group = record {
    Carrier = Invertible M;
    one = unit_one;
    ◌⊙◌ = times;
    inv = flip;
    assoc = λ x y z.
        ext M _ _ (mod_assoc x.value y.value z.value)
          (mod_assoc x.inverse_value y.inverse_value z.inverse_value);
    comm = λ x y.
        ext M _ _ (ap (λ t. t % M) (mul_comm x.value y.value))
          (ap (λ t. t % M) (mul_comm x.inverse_value y.inverse_value));
    one-mul =
        λ x. ext M _ _ (one_times x.value x.value_lt) (one_times x.inverse_value x.inverse_lt);
    inv-mul =
        λ x. ext M _ _ (ap (λ t. t % M) (mul_comm x.inverse_value x.value) ∙ x.cancel) x.cancel;
  }

  -- An inverse is determined by the value.
  pub inverse_unique : (a b c : ℕ) → b < M → c < M → a * b % M ≡ 1 → a * c % M ≡ 1 → b ≡ c
  inverse_unique a b c hb hc p q =
      sym (one_times b hb)
      ∙ ap (λ t. t * b % M) (sym q)
      ∙ ap (λ t. (t % M) * b % M) (mul_comm a c)
      ∙ mod_assoc c a b
      ∙ ap (λ t. c * t % M) p
      ∙ ap (λ t. t % M) (mul_comm c 1)
      ∙ one_times c hc

  pub val_unique : (x y : Invertible M) → x.value ≡ y.value → x ≡ y
  val_unique x y e = ext M x y e (
      inverse_unique x.value x.inverse_value y.inverse_value x.inverse_lt y.inverse_lt x.cancel
        (ap (λ t. t * y.inverse_value % M) e ∙ y.cancel))

  pub search_found :
      (r a : ℕ) (j : ℕ) → a < j → j ≤ M → a < M → r * a % M ≡ 1 → search_inverse M r j ≡ some a
  unfolding search_inverse
  search_found r a zero h hj ha e = absurd (omega arith)
  search_found r a (suc j) h hj ha e = elim (Bool-cases (r * j % M == 1)) [
    | inl found ↦ rw found (ap some (inverse_unique r j a (omega arith) ha (==→eq _ _ found) e))
    | inr missed ↦ rw missed (search_found r a j (ground arith) (omega arith) ha e)
  ]

  pub pow_mod-npow : (x : Invertible M) (j : ℕ) → pow_mod M x.value j ≡ (npow unit_group x j).value
  unfolding pow_mod npow
  pow_mod-npow x zero = one_mod
  pow_mod-npow x (suc j) = ap (λ t. x.value * t % M) (pow_mod-npow x j)

  abbrev pub zmod_residues : Residues zmod (pos M)
  zmod_residues = record {
    group = unit_group;
    val = λ x. pos x.value;
    Rep = λ x a. residue M x ≡ a.value;
    val_injective = λ a b e. val_unique a b (ap pos_part e);
    val-Rep = λ a. residue-pos k a.value a.value_lt;
    one-Rep = residue-pos k 1 (omega arith);
    mul-Rep = λ x y a b p q. residue-*ℤ k x y ∙ ap₂ (λ s t. s * t % M) p q;
    ssl_mod_mul_law =
        λ x y a b p q. ap (λ t. ok (pos t)) (residue-*ℤ k x y ∙ ap₂ (λ s t. s * t % M) p q);
    ssl_mod_exp_law =
        λ x a j p. ap (λ t. ok (pos t)) (ap (λ t. pow_mod M t j) p ∙ pow_mod-npow a j);
    ssl_mod_inverse_law = λ x a p. ap or_fail (
        ap (λ t. search_inverse M t M) p
        ∙ search_found a.value a.inverse_value M a.inverse_lt (omega arith) a.inverse_lt a.cancel);
  }
