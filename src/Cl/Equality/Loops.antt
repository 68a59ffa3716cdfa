-- ===== src/Cl/Equality/Loops.antt =====
-- The loops of the equality proof over the attributes, each against the map that it builds.
use text.Mathlib.TextEquality.{eq_iff}
use smartchaindb_experiment.Base.{
  suc, String, List, [], ◌∷◌, ◌≡◌, refl, ◌||◌, false, some, inl, inr, arith, if◌then◌else◌,
  Bool-cases,
}
use smartchaindb_experiment.Base.Int.{ℤ, ◌+ℤ◌, ◌*ℤ◌}
use smartchaindb_experiment.Base.Outcome.{ok}
use smartchaindb_experiment.Base.Maps.{
  Map, lookup, insert, keys, contains_key, lookup-insert, contains_key-insert,
  contains_key_of_lookup,
}
use smartchaindb_experiment.Base.Sets.{contains, Distinct}
use smartchaindb_experiment.Base.Entries.{Entries, insert-Entries, keys-insert-Distinct}
use smartchaindb_experiment.Bn.{BigNumber}
use smartchaindb_experiment.Cl.Types.{CredentialValue, value, large_mvect}
use smartchaindb_experiment.Cl.Rand.{Draws, Among, bn_rand, get_mtilde, later}
use smartchaindb_experiment.Cl.Teq.Laws.{Covers, Gives}
use smartchaindb_experiment.Cl.Credential.{value_at, value_at-lookup}
use smartchaindb_experiment.Cl.Equality.Defs.{m_hat_loop, revealed_loop}

insert-keeps :
    (k j : String) (y x : BigNumber) (m : Map BigNumber)
    → contains_key k m ≡ false
    → lookup j m ≡ some x
    → lookup j (insert k y m) ≡ some x
insert-keeps k j y x m new found =
    ground (arith, lookup-insert k j y m, eq_iff k j, contains_key_of_lookup j x m found)

-- Every name of the list has a mask in the result, and the masks that were there stay.
pub get_mtilde_total :
    (ks : List String) (m : Map BigNumber) (d : Draws)
    → (m' : Map BigNumber) × (d' : Draws) × (get_mtilde ks m d ≡ ok (m', d'))
      × ((j : String) → contains_key j m' ≡ (contains j ks || contains_key j m))
      × ((j : String) (x : BigNumber) → lookup j m ≡ some x → lookup j m' ≡ some x)
      × Among d d'
unfolding get_mtilde bn_rand
get_mtilde_total [] m d = (m, d, refl, λ j. refl, λ j x e. e, λ i size. (i, refl))
get_mtilde_total (k ∷ ks) m d = elim (Bool-cases (contains_key k m)) [
  | inl old ↦
      let (m', d', e, h, kept, among) = get_mtilde_total ks m d in
      (m', d', rw (old, get_mtilde) e, λ j. ground (arith, h j, eq_iff k j), kept, among)
  | inr new ↦
      let (m', d', e, h, kept, among) =
        get_mtilde_total ks (insert k (d 0 large_mvect) m) (later d) in
      (
        m',
        d',
        rw (new, get_mtilde) e,
        λ j. ground (arith, h j, contains_key-insert k j (d 0 large_mvect) m),
        λ j x p. kept j x (insert-keeps k j (d 0 large_mvect) x m new p),
        λ i size. let (n, p) = among i size in (suc n, p),
      )
]

-- With a mask and a value for each name, the responses are challenge * value + mask.
pub m_hat_loop_total :
    (c : BigNumber) (m_tilde : Map BigNumber) (values : Map CredentialValue) (mask : String → ℤ)
    → (ks : List String) (acc : Map BigNumber) → Gives m_tilde mask ks
    → Covers values ks
    → (m : Map BigNumber) × (m_hat_loop c m_tilde values ks acc ≡ ok m)
      × ((j : String)
          → lookup j m
            ≡ (if contains j ks then some (c *ℤ value_at values j +ℤ mask j) else lookup j acc))
unfolding m_hat_loop
m_hat_loop_total c m_tilde values mask [] acc gives cover = (acc, refl, λ j. refl)
m_hat_loop_total c m_tilde values mask (k ∷ ks) acc (g, gives) ((x, e), cover) =
    let (m, ran, found) =
      m_hat_loop_total c m_tilde values mask ks (insert k (c *ℤ value x +ℤ mask k) acc) gives
        cover in
    (
      m,
      rw (g, e) ran,
      λ j. ground (
        arith,
        found j,
        lookup-insert k j (c *ℤ value x +ℤ mask k) acc,
        eq_iff k j,
        value_at-lookup values k x e,
      ),
    )

-- With a value for each name, the revealed map holds the values of exactly the listed names.
pub revealed_loop_total :
    (values : Map CredentialValue) (ks : List String) (acc : Map BigNumber)
    → Covers values ks
    → Entries acc (value_at values)
    → Distinct (keys acc)
    → (m : Map BigNumber) × (revealed_loop values ks acc ≡ ok m)
      × Entries m (value_at values)
      × Distinct (keys m)
      × ((j : String) → contains j (keys m) ≡ (contains j ks || contains j (keys acc)))
unfolding revealed_loop
revealed_loop_total values [] acc cover h dist = (acc, refl, h, dist, λ j. refl)
revealed_loop_total values (k ∷ ks) acc ((x, e), cover) h dist =
    let (m, ran, entries, distinct, same) =
      revealed_loop_total values ks (insert k (value x) acc) cover
        (insert-Entries k (value x) acc (value_at values) h (value_at-lookup values k x e))
        (keys-insert-Distinct k (value x) acc dist) in
    (
      m,
      rw e ran,
      entries,
      distinct,
      λ j. ground (arith, same j, contains_key-insert k j (value x) acc),
    )
