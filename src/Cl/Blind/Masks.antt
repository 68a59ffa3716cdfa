-- ===== src/Cl/Blind/Masks.antt =====
-- The masks of the proof on blinded secrets: what its loop over the attributes has built at its end.
use text.Mathlib.Text.{◌==◌}
use text.Mathlib.TextEquality.{eq_iff}
use smartchaindb_experiment.Base.{
  String, false, ◌||◌, List, [], ◌∷◌, ◌++◌, ◌≡◌, refl, sym, ap, ap₂, ◌∙◌, some, arith,
}
use smartchaindb_experiment.Base.Lists.{append_assoc, append_none}
use smartchaindb_experiment.Base.Maps.{
  Map, insert, lookup, keys, contains_key, lookup-insert, contains_key-insert,
  lookup_of_contains_key,
}
use smartchaindb_experiment.Base.Entries.{keys-insert-Distinct}
use smartchaindb_experiment.Base.Sets.{contains, Distinct}
use smartchaindb_experiment.Base.Outcome.{ok}
use smartchaindb_experiment.Group.{zpow, prod, mul-one}
use smartchaindb_experiment.Bn.{
  BigNumber, OpenSsl, Residues, mod_exp-Rep, mod_mul-Rep, get_pedersen_commitment-Rep,
}
use smartchaindb_experiment.Cl.Types.{
  CredentialValue, is_hidden, is_commitment, CredentialPrimaryPublicKey,
}
use smartchaindb_experiment.Cl.Rand.{Draws, bn_rand, later}
use smartchaindb_experiment.Cl.Credential.{number_at, number_at-lookup, lookup-number_at, Within}
use smartchaindb_experiment.Cl.Teq.Laws.{KeyRep}
use smartchaindb_experiment.Cl.Blind.{Tildes, hidden_names, tilde_step, tilde_loop, large_mtilde}
use smartchaindb_experiment.Cl.Blind.Names.{committed_names}

-- Two numbers for each name.
abbrev pub pairs : (String → BigNumber) → (String → BigNumber) → List String → List BigNumber
pairs f g [] = []
pairs f g (k ∷ names) = f k ∷ g k ∷ pairs f g names

-- A name that was just entered and is not among the names to come.
entered : (k : String) (x : BigNumber) (m : Map BigNumber) → lookup k (insert k x m) ≡ some x
entered k x m = ground (arith, lookup-insert k k x m, eq_iff k k)

-- An entry of another name.
passed :
    (k j : String) (x y : BigNumber) (m : Map BigNumber)
    → (k == j) ≡ false
    → lookup j m ≡ some y
    → lookup j (insert k x m) ≡ some y
passed k j x y m h e = ground (arith, lookup-insert k j x m)

module _ (lib : OpenSsl) (pk : CredentialPrimaryPublicKey) (residues : Residues lib pk.n)
    (key : KeyRep lib pk residues) (committed : Map BigNumber) where
  open residues use {group, val, Rep, val-Rep}
  open group use {Carrier, ◌⊙◌, assoc}

  infixl 60 ◌⊙◌
  abbrev pub mask_power : Map BigNumber → String → Carrier
  mask_power m k = zpow group (key.r k) (number_at m k)

  abbrev pub mask_commitment : Tildes → String → BigNumber
  mask_commitment t k =
      val (zpow group key.z (number_at t.m_tildes k) ⊙ zpow group key.s (number_at t.r_tildes k))

  -- What the loop over some attributes makes of what was there before.
  pub record IsMasked (values : Map CredentialValue) (before : Tildes) (a : Carrier)
      (after : Tildes) : Type 0 where
    pub keeps_m :
        (j : String) (x : BigNumber)
        → contains_key j values ≡ false
        → lookup j before.m_tildes ≡ some x
        → lookup j after.m_tildes ≡ some x
    pub keeps_r :
        (j : String) (x : BigNumber)
        → contains_key j values ≡ false
        → lookup j before.r_tildes ≡ some x
        → lookup j after.r_tildes ≡ some x
    pub names_m :
        (j : String)
        → contains_key j after.m_tildes ≡ (
            contains j (hidden_names values)
            || (contains j (committed_names values) || contains_key j before.m_tildes))
    pub names_r :
        (j : String)
        → contains_key j after.r_tildes
          ≡ (contains j (committed_names values) || contains_key j before.r_tildes)
    pub distinct : Distinct (keys before.m_tildes) → Distinct (keys after.m_tildes)
    pub product :
        after.u_tilde ≡ val (a ⊙ prod group (mask_power after.m_tildes) (hidden_names values))
    pub hashed :
        after.values
        ≡ before.values
          ++ pairs (mask_commitment after) (number_at committed) (committed_names values)

  IsMasked-none :
      (before : Tildes) (a : Carrier) → before.u_tilde ≡ val a → IsMasked [] before a before
  unfolding hidden_names committed_names prod
  IsMasked-none before a h = record {
    keeps_m = λ j x e p. p;
    keeps_r = λ j x e p. p;
    names_m = λ j. refl;
    names_r = λ j. refl;
    distinct = λ d. d;
    product = h ∙ ap val (sym (mul-one group a));
    hashed = sym (append_none before.values);
  }

  IsMasked-known :
      (k : String) (v : BigNumber) (values : Map CredentialValue) (before after : Tildes)
      → (a : Carrier) → IsMasked values before a after
      → IsMasked ((k, CredentialValue.known v) ∷ values) before a after
  unfolding hidden_names is_hidden committed_names
  IsMasked-known k v values before after a m = record {
    keeps_m = λ j x e p. m.keeps_m j x (ground arith) p;
    keeps_r = λ j x e p. m.keeps_r j x (ground arith) p;
    names_m = m.names_m;
    names_r = m.names_r;
    distinct = m.distinct;
    product = m.product;
    hashed = m.hashed;
  }

  -- The loop before a hidden attribute is that after it with the mask entered.
  abbrev with_hidden : String → BigNumber → BigNumber → Tildes → Tildes
  with_hidden k x u before = record before { m_tildes = insert k x before.m_tildes; u_tilde = u }

  IsMasked-hidden :
      (k : String) (v x u : BigNumber) (values : Map CredentialValue) (before after : Tildes)
      → (a : Carrier) → contains_key k values ≡ false
      → IsMasked values (with_hidden k x u before) (a ⊙ zpow group (key.r k) x) after
      → IsMasked ((k, CredentialValue.hidden v) ∷ values) before a after
  unfolding hidden_names is_hidden committed_names prod
  IsMasked-hidden k v x u values before after a fresh m = record {
    keeps_m =
        λ j y e p. m.keeps_m j y (ground arith) (passed k j x y before.m_tildes (ground arith) p);
    keeps_r = λ j y e p. m.keeps_r j y (ground arith) p;
    names_m = λ j. ground (arith, m.names_m j, contains_key-insert k j x before.m_tildes);
    names_r = m.names_r;
    distinct = λ d. m.distinct (keys-insert-Distinct k x before.m_tildes d);
    product =
        let mask : number_at after.m_tildes k ≡ x =
          number_at-lookup after.m_tildes k x (m.keeps_m k x fresh (entered k x before.m_tildes)) in
        m.product
        ∙ ap val (
            ap
              (λ y.
                (a ⊙ zpow group (key.r k) y)
                ⊙ prod group (mask_power after.m_tildes) (hidden_names values))
              (sym mask)
            ∙ assoc a _ _);
    hashed = m.hashed;
  }

  abbrev with_commitment : String → BigNumber → BigNumber → BigNumber → BigNumber → Tildes → Tildes
  with_commitment k x y commitment_tilde ca_value before = record {
    m_tildes = insert k x before.m_tildes;
    r_tildes = insert k y before.r_tildes;
    values = before.values ++ (commitment_tilde ∷ ca_value ∷ []);
    u_tilde = before.u_tilde;
  }

  IsMasked-commitment :
      (k : String) (v b x y : BigNumber) (values : Map CredentialValue) (before after : Tildes)
      → (a : Carrier) → contains_key k values ≡ false
      → IsMasked values
          (with_commitment k x y
            (val (zpow group key.z x ⊙ zpow group key.s y))
            (number_at committed k)
            before)
          a
          after
      → IsMasked ((k, CredentialValue.commitment v b) ∷ values) before a after
  unfolding hidden_names is_hidden committed_names
  IsMasked-commitment k v b x y values before after a fresh m = record {
    keeps_m =
        λ j w e p. m.keeps_m j w (ground arith) (passed k j x w before.m_tildes (ground arith) p);
    keeps_r =
        λ j w e p. m.keeps_r j w (ground arith) (passed k j y w before.r_tildes (ground arith) p);
    names_m = λ j. ground (arith, m.names_m j, contains_key-insert k j x before.m_tildes);
    names_r = λ j. ground (arith, m.names_r j, contains_key-insert k j y before.r_tildes);
    distinct = λ d. m.distinct (keys-insert-Distinct k x before.m_tildes d);
    product = m.product;
    hashed =
        let mask : number_at after.m_tildes k ≡ x =
          number_at-lookup after.m_tildes k x (m.keeps_m k x fresh (entered k x before.m_tildes)) in
        let mask' : number_at after.r_tildes k ≡ y =
          number_at-lookup after.r_tildes k y (m.keeps_r k y fresh (entered k y before.r_tildes)) in
        m.hashed
        ∙ append_assoc before.values _ _
        ∙ ap₂
            (λ x' y'.
              before.values
              ++ (val (zpow group key.z x' ⊙ zpow group key.s y')
                  ∷ number_at committed k
                  ∷ pairs (mask_commitment after) (number_at committed) (committed_names values)))
            (sym mask) (sym mask');
  }

  Within-rest :
      (m : Map BigNumber) (k : String) (names : List String) → Within m (k ∷ names) → Within m names
  Within-rest m k names h j e = h j (ground (arith, eq_iff k j))

  -- With a number in the key for each hidden and each committed attribute, and a commitment to each
  -- of the latter, the loop ends with masks for all of them.
  pub tilde_loop_total :
      (values : Map CredentialValue) (before : Tildes) (a : Carrier) (d : Draws)
      → Distinct (keys values)
      → Within pk.r (hidden_names values)
      → Within pk.r (committed_names values)
      → Within committed (committed_names values)
      → before.u_tilde ≡ val a
      → (after : Tildes) × (d' : Draws) × (tilde_loop lib pk committed values before d
          ≡ ok (after, d'))
        × IsMasked values before a after
  unfolding tilde_loop tilde_step hidden_names committed_names is_hidden is_commitment bn_rand
  tilde_loop_total [] before a d dist in_key in_key' has e =
      (before, d, refl, IsMasked-none before a e)
  tilde_loop_total ((k, CredentialValue.known v) ∷ values) before a d dist in_key in_key' has e =
      let (after, d', ran, m) = tilde_loop_total values before a d dist.1 in_key in_key' has e in
      (after, d', ran, IsMasked-known k v values before after a m)
  tilde_loop_total ((k, CredentialValue.hidden v) ∷ values) before a d dist in_key in_key' has e =
      let x = d 0 large_mtilde in
      let (y, found) = lookup_of_contains_key k pk.r (in_key k (ground (arith, eq_iff k k))) in
      let power = zpow group (key.r k) x in
      let (after, d', ran, m) =
        tilde_loop_total values (with_hidden k x (val (a ⊙ power)) before) (a ⊙ power) (later d)
          dist.1 (Within-rest pk.r k (hidden_names values) in_key) in_key' has refl in
      (
        after,
        d',
        rw
            (
              found,
              mod_exp-Rep lib pk.n residues y (key.r k) x (key.r-Rep k y found),
              e,
              mod_mul-Rep lib pk.n residues (val a) (val power) a power (val-Rep a) (val-Rep power),
            )
            ran,
        IsMasked-hidden k v x (val (a ⊙ power)) values before after a dist.0 m,
      )
  tilde_loop_total ((k, CredentialValue.commitment v b) ∷ values) before a d dist in_key in_key' has
        e =
      let x = d 0 large_mtilde in
      let y = d 1 large_mtilde in
      let (z, found) = lookup_of_contains_key k pk.r (in_key' k (ground (arith, eq_iff k k))) in
      let commitment_tilde = val (zpow group key.z x ⊙ zpow group key.s y) in
      let (after, d', ran, m) =
        tilde_loop_total values
          (with_commitment k x y commitment_tilde (number_at committed k) before) a
          (later (later d)) dist.1 in_key (Within-rest pk.r k (committed_names values) in_key')
          (Within-rest committed k (committed_names values) has) e in
      (
        after,
        d',
        rw
            (
              found,
              get_pedersen_commitment-Rep lib pk.n residues pk.z pk.s key.z key.s x y key.z-Rep
                  key.s-Rep,
              lookup-number_at committed k (has k (ground (arith, eq_iff k k))),
            )
            ran,
        IsMasked-commitment k v b x y values before after a dist.0 m,
      )
