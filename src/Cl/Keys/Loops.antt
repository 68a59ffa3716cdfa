-- ===== src/Cl/Keys/Loops.antt =====
-- The loops over the names of a key, each against what it builds.
use text.Mathlib.TextEquality.{eq_iff}
use smartchaindb_experiment.Base.{
  String, true, ◌||◌, List, [], ◌∷◌, map, ◌≡◌, refl, sym, ap, ap₂, ◌∙◌, arith,
}
use smartchaindb_experiment.Base.Int.{ℤ, pos, ◌+ℤ◌, ◌-ℤ◌, ◌*ℤ◌}
use smartchaindb_experiment.Base.Maps.{Map, insert, keys, contains_key, contains_key-insert}
use smartchaindb_experiment.Base.Entries.{Entries, insert-Entries, keys-insert-Distinct}
use smartchaindb_experiment.Base.Sets.{contains, Distinct}
use smartchaindb_experiment.Base.Outcome.{ok}
use smartchaindb_experiment.Group.{zpow, zpow-inv, zpow_response, mul_cancel_left}
use smartchaindb_experiment.Bn.{
  BigNumber, OpenSsl, Residues, mod_exp-Rep, inverse-Rep, get_pedersen_commitment-Rep,
  get_pedersen_commitment,
}
use smartchaindb_experiment.Cl.Types.{CredentialPrimaryPublicKey}
use smartchaindb_experiment.Cl.Credential.{number_at}
use smartchaindb_experiment.Cl.Range.{Ranges, later, gen_x, bn_rand_range}
use smartchaindb_experiment.Cl.Teq.Laws.{KeyRep, Gives}
use smartchaindb_experiment.Cl.Keys.{
  exponent_loop, power_loop, collect_loop, xr_cap_loop, cap_loop, check_r_keys, check_names,
}

-- An exponent is drawn for each name.
pub exponent_loop_total :
    (p q : BigNumber) (names : List String) (acc : Map BigNumber) (d : Ranges)
    → Distinct (keys acc)
    → (xr : Map BigNumber) × (d' : Ranges) × (exponent_loop p q names acc d ≡ ok (xr, d'))
      × Distinct (keys xr)
      × ((j : String) → contains_key j xr ≡ (contains j names || contains_key j acc))
unfolding exponent_loop gen_x bn_rand_range
exponent_loop_total p q [] acc d distinct = (acc, d, refl, distinct, λ j. refl)
exponent_loop_total p q (k ∷ names) acc d distinct =
    let x = d 0 (p *ℤ q -ℤ pos 3) +ℤ pos 2 in
    let (xr, d', ran, distinct', same) =
      exponent_loop_total p q names (insert k x acc) (later d)
        (keys-insert-Distinct k x acc distinct) in
    (xr, d', ran, distinct', λ j. ground (arith, same j, contains_key-insert k j x acc))

-- The responses c * x + mask, by name.
abbrev pub responses : ℤ → (String → ℤ) → (String → ℤ) → List String → Map BigNumber
responses c x t [] = []
responses c x t (k ∷ names) = (k, c *ℤ x k +ℤ t k) ∷ responses c x t names

pub keys-responses :
    (c : ℤ) (x t : String → ℤ) (names : List String) → keys (responses c x t names) ≡ names
keys-responses c x t [] = refl
keys-responses c x t (k ∷ names) = ap (λ ks. k ∷ ks) (keys-responses c x t names)

pub collect_loop-map :
    (m : Map BigNumber) (f : String → BigNumber) (names : List String)
    → Gives m f names
    → collect_loop m names ≡ ok (map f names)
unfolding collect_loop
collect_loop-map m f [] gives = refl
collect_loop-map m f (k ∷ names) (g, gives) = rw (g, collect_loop-map m f names gives) refl

pub xr_cap_loop-responses :
    (c : ℤ) (xr xr_tilda : Map BigNumber) (x t : String → ℤ) (names : List String)
    → Gives xr x names
    → Gives xr_tilda t names
    → xr_cap_loop c xr xr_tilda names ≡ ok (responses c x t names)
unfolding xr_cap_loop
xr_cap_loop-responses c xr xr_tilda x t [] gives gives' = refl
xr_cap_loop-responses c xr xr_tilda x t (k ∷ names) (g, gives) (g', gives') =
    rw (g', g, xr_cap_loop-responses c xr xr_tilda x t names gives gives') refl

pub check_r_keys-ok :
    (names r_keys : List String)
    → ((j : String) → contains j r_keys ≡ true → contains j names ≡ true)
    → check_r_keys names r_keys ≡ ok tt
unfolding check_r_keys
check_r_keys-ok names [] h = refl
check_r_keys-ok names (k ∷ r_keys) h =
    rw (h k (ground (arith, eq_iff k k)))
      (check_r_keys-ok names r_keys (λ j e. h j (ground (arith, eq_iff k j))))

pub check_names-ok :
    (r : Map BigNumber) (names : List String)
    → ((j : String) → contains j names ≡ true → contains_key j r ≡ true)
    → check_names r names ≡ ok tt
unfolding check_names
check_names-ok r [] h = refl
check_names-ok r (k ∷ names) h =
    rw (h k (ground (arith, eq_iff k k)))
      (check_names-ok r names (λ j e. h j (ground (arith, eq_iff k j))))

module _ (lib : OpenSsl) (n : BigNumber) (residues : Residues lib n) where
  open residues use {group, val, Rep, val-Rep}
  open group use {Carrier, ◌⊙◌, inv}

  infixl 60 ◌⊙◌
  pub power_loop_total :
      (x : BigNumber) (s : Carrier)
      → Rep x s
      → (f : String → ℤ) (xr acc : Map BigNumber) → Entries xr f
      → Entries acc (λ k. val (zpow group s (f k)))
      → Distinct (keys acc)
      → (m : Map BigNumber) × (power_loop lib x n xr acc ≡ ok m)
        × Entries m (λ k. val (zpow group s (f k)))
        × Distinct (keys m)
        × ((j : String) → contains_key j m ≡ (contains_key j xr || contains_key j acc))
  unfolding power_loop
  power_loop_total x s rep f [] acc h h' distinct = (acc, refl, h', distinct, λ j. refl)
  power_loop_total x s rep f ((k, y) ∷ xr) acc h h' distinct =
      let power = val (zpow group s y) in
      let (m, ran, entries, distinct', same) =
        power_loop_total x s rep f xr (insert k power acc) h.1
          (insert-Entries k power acc (λ j. val (zpow group s (f j))) h'
            (ap (λ e. val (zpow group s e)) h.0))
          (keys-insert-Distinct k power acc distinct) in
      (
        m,
        rw (mod_exp-Rep lib n residues x s y rep) ran,
        entries,
        distinct',
        λ j. ground (arith, same j, contains_key-insert k j power acc),
      )

  -- The commitment that is computed back from a response is the power of the mask.
  pub commitment_back :
      (x y : BigNumber) (s b : Carrier) (c e t : ℤ)
      → Rep x b
      → Rep y s
      → b ≡ zpow group s e
      → get_pedersen_commitment lib (val (inv b)) c y (c *ℤ e +ℤ t) n ≡ ok (val (zpow group s t))
  commitment_back x y s b c e t p q is_power =
      get_pedersen_commitment-Rep lib n residues (val (inv b)) y (inv b) s c (c *ℤ e +ℤ t)
        (val-Rep (inv b)) q
      ∙ ap (λ a. ok (val a))
          (ap₂ ◌⊙◌ (zpow-inv group b c) (zpow_response group s c e t)
            ∙ ap (λ a. inv (zpow group b c) ⊙ (zpow group a c ⊙ zpow group s t)) (sym is_power)
            ∙ mul_cancel_left group (zpow group b c) (zpow group s t))

module _ (lib : OpenSsl) (pk : CredentialPrimaryPublicKey) (residues : Residues lib pk.n)
    (key : KeyRep lib pk residues) where
  open residues use {group, val}

  -- The numbers of the key, and the powers of the masks.
  pub cap_loop-responses :
      (c : ℤ) (x t : String → ℤ) (names : List String)
      → Gives pk.r (number_at pk.r) names
      → ((j : String) → contains j names ≡ true → key.r j ≡ zpow group key.s (x j))
      → cap_loop lib pk c (responses c x t names)
        ≡ ok (map (number_at pk.r) names, map (λ k. val (zpow group key.s (t k))) names)
  unfolding cap_loop
  cap_loop-responses c x t [] gives powers = refl
  cap_loop-responses c x t (k ∷ names) (g, gives) powers =
      let rep = key.r-Rep k (number_at pk.r k) g in
      rw
        (
          g,
          inverse-Rep lib pk.n residues (number_at pk.r k) (key.r k) rep,
          commitment_back lib pk.n residues (number_at pk.r k) pk.s key.s (key.r k) c (x k) (t k)
              rep key.s-Rep (powers k (ground (arith, eq_iff k k))),
          cap_loop-responses c x t names gives (λ j h. powers j (ground (arith, eq_iff k j))),
        )
        refl
