-- ===== src/Cl/Blind/Factors.antt =====
-- What the blinded secrets are: a product of powers of the key's residues, and commitments.
use text.Mathlib.TextEquality.{eq_iff}
use smartchaindb_experiment.Base.{
  String, true, false, List, [], ◌∷◌, ◌++◌, ◌≡◌, refl, sym, ap, ◌∙◌, some, arith,
}
use smartchaindb_experiment.Base.Lists.{append_assoc, append_none}
use smartchaindb_experiment.Base.Maps.{
  Map, insert, lookup, keys, contains_key, contains_key-insert, lookup_of_contains_key,
}
use smartchaindb_experiment.Base.Entries.{Entries, insert-Entries}
use smartchaindb_experiment.Base.Sets.{contains, Distinct}
use smartchaindb_experiment.Base.Outcome.{ok}
use smartchaindb_experiment.Group.{zpow, prod, mul-one}
use smartchaindb_experiment.Bn.{
  BigNumber, OpenSsl, Residues, mod_mul, mod_exp-Rep, mod_mul-Rep, get_pedersen_commitment-Rep,
}
use smartchaindb_experiment.Cl.Types.{CredentialValue, value, CredentialPrimaryPublicKey}
use smartchaindb_experiment.Cl.Credential.{value_at, value_at-lookup, Within}
use smartchaindb_experiment.Cl.Teq.Laws.{KeyRep}
use smartchaindb_experiment.Cl.Blind.{u_step, u_loop, committed_loop, u_cap_step, u_cap_loop}
use smartchaindb_experiment.Cl.Blind.Names.{committed_names, blinding_of}

keys-insert_fresh {ℓ} :
    {V : Type ℓ} (k : String) (x : V) (m : Map V)
    → contains_key k m ≡ false
    → keys (insert k x m) ≡ keys m ++ (k ∷ [])
keys-insert_fresh k x [] h = refl
keys-insert_fresh k x ((j, y) ∷ m) h = ground (arith, keys-insert_fresh k x m)

module _ (lib : OpenSsl) (pk : CredentialPrimaryPublicKey) (residues : Residues lib pk.n)
    (key : KeyRep lib pk residues) where
  open residues use {group, val, Rep, val-Rep}
  open group use {Carrier, ◌⊙◌, assoc}

  infixl 60 ◌⊙◌
  one_step :
      (x m : BigNumber) (k : String) (acc : Carrier)
      → lookup k pk.r ≡ some x
      → mod_mul lib (val acc) (val (zpow group (key.r k) m)) pk.n
        ≡ ok (val (acc ⊙ zpow group (key.r k) m))
  one_step x m k acc e =
      mod_mul-Rep lib pk.n residues (val acc) (val (zpow group (key.r k) m)) acc
        (zpow group (key.r k) m) (val-Rep acc) (val-Rep (zpow group (key.r k) m))

  -- The fold over the hidden attributes multiplies the powers of their values.
  pub u_loop-product :
      (values : Map CredentialValue) (names : List String) (acc : Carrier)
      → Within pk.r names
      → Within values names
      → u_loop lib pk values names (ok (val acc))
        ≡ ok (val (acc ⊙ prod group (λ k. zpow group (key.r k) (value_at values k)) names))
  unfolding u_loop u_step prod
  u_loop-product values [] acc in_key in_values = ap (λ a. ok (val a)) (sym (mul-one group acc))
  u_loop-product values (k ∷ names) acc in_key in_values =
      let (x, e) = lookup_of_contains_key k pk.r (in_key k (ground (arith, eq_iff k k))) in
      let (v, e') = lookup_of_contains_key k values (in_values k (ground (arith, eq_iff k k))) in
      let power = zpow group (key.r k) (value_at values k) in
      rw
        (
          e,
          e',
          value_at-lookup values k v e',
          mod_exp-Rep lib pk.n residues x (key.r k) (value_at values k) (key.r-Rep k x e),
          one_step x (value_at values k) k acc e,
        )
        (u_loop-product values names (acc ⊙ power) (λ j h. in_key j (ground (arith, eq_iff k j)))
            (λ j h. in_values j (ground (arith, eq_iff k j)))
          ∙ ap (λ a. ok (val a)) (assoc acc power _))

  -- So does the fold of the issuer, with the responses.
  pub u_cap_loop-product :
      (m_caps : Map BigNumber) (f : String → BigNumber) (names : List String) (acc : Carrier)
      → Within pk.r names
      → ((j : String) → contains j names ≡ true → lookup j m_caps ≡ some (f j))
      → u_cap_loop lib pk m_caps names (ok (val acc))
        ≡ ok (val (acc ⊙ prod group (λ k. zpow group (key.r k) (f k)) names))
  unfolding u_cap_loop u_cap_step prod
  u_cap_loop-product m_caps f [] acc in_key has = ap (λ a. ok (val a)) (sym (mul-one group acc))
  u_cap_loop-product m_caps f (k ∷ names) acc in_key has =
      let (x, e) = lookup_of_contains_key k pk.r (in_key k (ground (arith, eq_iff k k))) in
      let power = zpow group (key.r k) (f k) in
      rw
        (
          e,
          has k (ground (arith, eq_iff k k)),
          mod_exp-Rep lib pk.n residues x (key.r k) (f k) (key.r-Rep k x e),
          one_step x (f k) k acc e,
        )
        (u_cap_loop-product m_caps f names (acc ⊙ power)
            (λ j h. in_key j (ground (arith, eq_iff k j)))
            (λ j h. has j (ground (arith, eq_iff k j)))
          ∙ ap (λ a. ok (val a)) (assoc acc power _))

  -- s^blinding * z^value
  abbrev pub commitment_to : BigNumber → BigNumber → Carrier
  commitment_to v b = zpow group key.s b ⊙ zpow group key.z v

  abbrev pub commitment_of : CredentialValue → BigNumber
  commitment_of x = val (commitment_to (value x) (blinding_of x))

  -- The map of the commitments: one for each committed attribute, in the order of the values.
  pub committed_loop_total :
      (values : Map CredentialValue) (f : String → CredentialValue) (acc : Map BigNumber)
      → Entries values f
      → Distinct (keys values)
      → ((j : String) → contains_key j values ≡ true → contains_key j acc ≡ false)
      → Entries acc (λ k. commitment_of (f k))
      → (m : Map BigNumber) × (committed_loop lib pk values acc ≡ ok m)
        × Entries m (λ k. commitment_of (f k))
        × (keys m ≡ keys acc ++ committed_names values)
  unfolding committed_loop committed_names value blinding_of
  committed_loop_total [] f acc h d fresh h' = (acc, refl, h', sym (append_none (keys acc)))
  committed_loop_total ((k, CredentialValue.known v) ∷ values) f acc h d fresh h' =
      committed_loop_total values f acc h.1 d.1 (λ j c. fresh j (ground arith)) h'
  committed_loop_total ((k, CredentialValue.hidden v) ∷ values) f acc h d fresh h' =
      committed_loop_total values f acc h.1 d.1 (λ j c. fresh j (ground arith)) h'
  committed_loop_total ((k, CredentialValue.commitment v b) ∷ values) f acc h d fresh h' =
      let x = val (commitment_to v b) in
      let (m, ran, entries, names) =
        committed_loop_total values f (insert k x acc) h.1 d.1
          (λ j c. ground (arith, contains_key-insert k j x acc, eq_iff k j, fresh j, d.0))
          (insert-Entries k x acc (λ j. commitment_of (f j)) h' (ap commitment_of h.0)) in
      (
        m,
        rw
            (get_pedersen_commitment-Rep lib pk.n residues pk.s pk.z key.s key.z b v key.s-Rep
              key.z-Rep)
            ran,
        entries,
        names
            ∙ ap (λ ks. ks ++ committed_names values)
                (keys-insert_fresh k x acc (fresh k (ground (arith, eq_iff k k))))
            ∙ append_assoc (keys acc) (k ∷ []) (committed_names values),
      )
