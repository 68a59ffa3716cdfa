-- ===== src/Cl/Sign/Names.antt =====
-- The loops over the values that a signature is on, as products over their names.
use text.Mathlib.TextEquality.{eq_iff}
use smartchaindb_experiment.Base.{
  String, true, ◌||◌, none, some, List, [], ◌∷◌, ◌≡◌, refl, sym, ap, ◌∙◌, arith,
}
use smartchaindb_experiment.Base.Maps.{Map, lookup, keys, contains_key, lookup_of_contains_key}
use smartchaindb_experiment.Base.Entries.{Entries}
use smartchaindb_experiment.Base.Sets.{contains, Distinct}
use smartchaindb_experiment.Base.Outcome.{ok}
use smartchaindb_experiment.Group.{AbGroup, zpow, prod, mul-one, left_comm}
use smartchaindb_experiment.Bn.{BigNumber, OpenSsl, Residues, mod_exp-Rep, mod_mul-Rep}
use smartchaindb_experiment.Cl.Types.{
  CredentialValue, is_known, is_hidden, value, CredentialPrimaryPublicKey,
}
use smartchaindb_experiment.Cl.Credential.{value_at, Within}
use smartchaindb_experiment.Cl.Teq.Laws.{KeyRep}
use smartchaindb_experiment.Cl.Blind.{hidden_names}
use smartchaindb_experiment.Cl.Blind.Honest.{entry_at, value-entry_at}
use smartchaindb_experiment.Cl.Sign.{known_loop, find_missing, rx_step, rx_loop}

unfoldable pub known_names : Map CredentialValue → List String
known_names [] = []
known_names ((attr, CredentialValue.known v) ∷ values) = attr ∷ known_names values
known_names ((attr, CredentialValue.hidden v) ∷ values) = known_names values
known_names ((attr, CredentialValue.commitment v b) ∷ values) = known_names values

-- The names of the values that are known or hidden.
unfoldable pub signed_names : Map CredentialValue → List String
signed_names [] = []
signed_names ((attr, CredentialValue.known v) ∷ values) = attr ∷ signed_names values
signed_names ((attr, CredentialValue.hidden v) ∷ values) = attr ∷ signed_names values
signed_names ((attr, CredentialValue.commitment v b) ∷ values) = signed_names values

pub signed_names-keys :
    (m : Map CredentialValue) (j : String)
    → contains j (signed_names m) ≡ true
    → contains_key j m ≡ true
unfolding signed_names
signed_names-keys [] j h = ground arith
signed_names-keys ((k, CredentialValue.known v) ∷ m) j h = ground (arith, signed_names-keys m j)
signed_names-keys ((k, CredentialValue.hidden v) ∷ m) j h = ground (arith, signed_names-keys m j)
signed_names-keys ((k, CredentialValue.commitment v b) ∷ m) j h =
    ground (arith, signed_names-keys m j)

pub signed_names-Distinct :
    (m : Map CredentialValue) → Distinct (keys m) → Distinct (signed_names m)
unfolding signed_names
signed_names-Distinct [] d = tt
signed_names-Distinct ((k, CredentialValue.known v) ∷ m) d =
    ground (arith, signed_names-keys m k, signed_names-Distinct m d.1)
signed_names-Distinct ((k, CredentialValue.hidden v) ∷ m) d =
    ground (arith, signed_names-keys m k, signed_names-Distinct m d.1)
signed_names-Distinct ((k, CredentialValue.commitment v b) ∷ m) d = signed_names-Distinct m d.1

pub contains-signed_names :
    (m : Map CredentialValue) (j : String)
    → contains j (signed_names m) ≡ (contains j (hidden_names m) || contains j (known_names m))
unfolding signed_names hidden_names is_hidden known_names
contains-signed_names [] j = refl
contains-signed_names ((k, CredentialValue.known v) ∷ m) j =
    ground (arith, contains-signed_names m j)
contains-signed_names ((k, CredentialValue.hidden v) ∷ m) j =
    ground (arith, contains-signed_names m j)
contains-signed_names ((k, CredentialValue.commitment v b) ∷ m) j = contains-signed_names m j

-- The product over the signed names is that over the hidden ones times that over the known ones.
pub prod-signed_names :
    (g : AbGroup) (f : String → g.Carrier) (m : Map CredentialValue)
    → prod g f (signed_names m) ≡ g.◌⊙◌ (prod g f (hidden_names m)) (prod g f (known_names m))
unfolding signed_names hidden_names is_hidden known_names prod
prod-signed_names g f [] = sym (g.one-mul g.one)
prod-signed_names g f ((k, CredentialValue.known v) ∷ m) =
    ap (g.◌⊙◌ (f k)) (prod-signed_names g f m) ∙ left_comm g _ _ _
prod-signed_names g f ((k, CredentialValue.hidden v) ∷ m) =
    ap (g.◌⊙◌ (f k)) (prod-signed_names g f m) ∙ sym (g.assoc _ _ _)
prod-signed_names g f ((k, CredentialValue.commitment v b) ∷ m) = prod-signed_names g f m

module _ (lib : OpenSsl) (pk : CredentialPrimaryPublicKey) (residues : Residues lib pk.n)
    (key : KeyRep lib pk residues) (whole : Map CredentialValue) where
  open residues use {group, val, Rep, val-Rep}
  open group use {Carrier, ◌⊙◌, assoc}

  infixl 60 ◌⊙◌
  abbrev pub value_power : String → Carrier
  value_power k = zpow group (key.r k) (value_at whole k)

  within_rest : (k : String) (names : List String) → Within pk.r (k ∷ names) → Within pk.r names
  within_rest k names h j e = h j (ground (arith, eq_iff k j))

  number_of_head :
      (k : String) (names : List String)
      → Within pk.r (k ∷ names)
      → (x : BigNumber) × (lookup k pk.r ≡ some x)
  number_of_head k names h = lookup_of_contains_key k pk.r (h k (ground (arith, eq_iff k k)))

  pub known_loop-product :
      (part : Map CredentialValue) (acc : Carrier)
      → Entries part (entry_at whole)
      → Within pk.r (known_names part)
      → known_loop lib pk part (val acc)
        ≡ ok (val (prod group value_power (known_names part) ⊙ acc))
  unfolding known_loop known_names is_known value prod
  known_loop-product [] acc entries in_key = ap (λ a. ok (val a)) (sym (group.one-mul acc))
  known_loop-product ((k, CredentialValue.hidden v) ∷ part) acc entries in_key =
      known_loop-product part acc entries.1 in_key
  known_loop-product ((k, CredentialValue.commitment v b) ∷ part) acc entries in_key =
      known_loop-product part acc entries.1 in_key
  known_loop-product ((k, CredentialValue.known v) ∷ part) acc entries in_key =
      let (x, found) = number_of_head k (known_names part) in_key in
      let same : v ≡ value_at whole k = ap value entries.0 ∙ value-entry_at whole k in
      rw
        (
          found,
          same,
          mod_exp-Rep lib pk.n residues x (key.r k) (value_at whole k) (key.r-Rep k x found),
          mod_mul-Rep lib pk.n residues (val (value_power k)) (val acc) (value_power k) acc
              (val-Rep (value_power k)) (val-Rep acc),
        )
        (known_loop-product part (value_power k ⊙ acc) entries.1
            (within_rest k (known_names part) in_key)
          ∙ ap (λ a. ok (val a)) (left_comm group _ _ _ ∙ sym (assoc _ _ _)))

  pub find_missing-none :
      (part : Map CredentialValue)
      → Within pk.r (signed_names part)
      → find_missing lib pk part ≡ none
  unfolding find_missing signed_names is_known is_hidden
  find_missing-none [] in_key = refl
  find_missing-none ((k, CredentialValue.commitment v b) ∷ part) in_key =
      find_missing-none part in_key
  find_missing-none ((k, CredentialValue.known v) ∷ part) in_key =
      rw (find_missing, in_key k (ground (arith, eq_iff k k)))
        (find_missing-none part (within_rest k (signed_names part) in_key))
  find_missing-none ((k, CredentialValue.hidden v) ∷ part) in_key =
      rw (find_missing, in_key k (ground (arith, eq_iff k k)))
        (find_missing-none part (within_rest k (signed_names part) in_key))

  -- One value more.
  rx_step-power :
      (k : String) (v : CredentialValue) (acc : Carrier)
      → v ≡ entry_at whole k
      → (x : BigNumber) → lookup k pk.r ≡ some x
      → rx_step lib pk k v (ok (val acc)) ≡ ok (val (acc ⊙ value_power k))
  unfolding rx_step
  rx_step-power k v acc entry x found =
      rw
        (
          found,
          entry,
          value-entry_at whole k,
          mod_exp-Rep lib pk.n residues x (key.r k) (value_at whole k) (key.r-Rep k x found),
        )
        (mod_mul-Rep lib pk.n residues (val acc) (val (value_power k)) acc (value_power k)
          (val-Rep acc) (val-Rep (value_power k)))

  pub rx_loop-product :
      (part : Map CredentialValue) (acc : Carrier)
      → Entries part (entry_at whole)
      → Within pk.r (signed_names part)
      → rx_loop lib pk part (ok (val acc))
        ≡ ok (val (acc ⊙ prod group value_power (signed_names part)))
  unfolding rx_loop signed_names is_known is_hidden prod
  rx_loop-product [] acc entries in_key = ap (λ a. ok (val a)) (sym (mul-one group acc))
  rx_loop-product ((k, CredentialValue.commitment v b) ∷ part) acc entries in_key =
      rx_loop-product part acc entries.1 in_key
  rx_loop-product ((k, CredentialValue.known v) ∷ part) acc entries in_key =
      let (x, found) = number_of_head k (signed_names part) in_key in
      rw
        (
          rx_loop,
          in_key k (ground (arith, eq_iff k k)),
          rx_step-power k (CredentialValue.known v) acc entries.0 x found,
        )
        (rx_loop-product part (acc ⊙ value_power k) entries.1
            (within_rest k (signed_names part) in_key)
          ∙ ap (λ a. ok (val a)) (assoc acc (value_power k) _))
  rx_loop-product ((k, CredentialValue.hidden v) ∷ part) acc entries in_key =
      let (x, found) = number_of_head k (signed_names part) in_key in
      rw
        (
          rx_loop,
          in_key k (ground (arith, eq_iff k k)),
          rx_step-power k (CredentialValue.hidden v) acc entries.0 x found,
        )
        (rx_loop-product part (acc ⊙ value_power k) entries.1
            (within_rest k (signed_names part) in_key)
          ∙ ap (λ a. ok (val a)) (assoc acc (value_power k) _))
