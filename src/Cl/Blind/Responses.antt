-- ===== src/Cl/Blind/Responses.antt =====
-- The responses of the proof on blinded secrets, and the commitments that the issuer computes back.
use mathlib.Core.Path.{subst}
use text.Mathlib.Text.{◌==◌}
use text.Mathlib.TextEquality.{eq_iff}
use smartchaindb_experiment.Base.{
  String, true, ◌||◌, ◌⊎◌, inl, inr, Option, Bool-cases, [], ◌∷◌, ◌≡◌, refl, sym, ap, ap₂, ◌∙◌,
  some, arith,
}
use smartchaindb_experiment.Base.Int.{ℤ, ◌+ℤ◌, ◌*ℤ◌, int_laws}
use smartchaindb_experiment.Base.Maps.{Map, insert, lookup, keys, contains_key, contains_key-insert}
use smartchaindb_experiment.Base.Entries.{Entries, insert-Entries}
use smartchaindb_experiment.Base.Outcome.{ok}
use smartchaindb_experiment.Group.{
  zpow, zpow-inv, zpow-mul_distrib, zpow_response, interchange, mul_cancel_left,
}
use smartchaindb_experiment.Bn.{
  BigNumber, OpenSsl, Residues, mod_exp-Rep, mod_mul-Rep, inverse-Rep, get_pedersen_commitment-Rep,
}
use smartchaindb_experiment.Cl.Types.{CredentialValue, value, CredentialPrimaryPublicKey}
use smartchaindb_experiment.Cl.Credential.{value_at, value_at-lookup}
use smartchaindb_experiment.Cl.Teq.Laws.{KeyRep}
use smartchaindb_experiment.Cl.Blind.{
  BlindedCredentialSecretsCorrectnessProof, Caps, cap_step, cap_loop, commitment_cap_loop,
}
use smartchaindb_experiment.Cl.Blind.Names.{blinding_of, blinding_at}
use smartchaindb_experiment.Cl.Blind.Masks.{pairs}

-- An attribute that is hidden, or committed with a mask for its blinding factor.
abbrev pub Answerable : Map CredentialValue → Map BigNumber → (String → BigNumber) → String → Type 0
Answerable values r_tildes rt j =
    ((v : BigNumber) × (lookup j values ≡ some (CredentialValue.hidden v)))
    ⊎ ((v b : BigNumber) × (lookup j values ≡ some (CredentialValue.commitment v b))
        × (lookup j r_tildes ≡ some (rt j)))

+ℤ_comm : (x y : ℤ) → x +ℤ y ≡ y +ℤ x
+ℤ_comm x y = omega int_laws

blinding_at-lookup :
    (values : Map CredentialValue) (k : String) (x : CredentialValue)
    → lookup k values ≡ some x
    → blinding_of x ≡ blinding_at values k
unfolding blinding_at
blinding_at-lookup values k x e = rw (e, blinding_at) refl

module _ (c : BigNumber) (values : Map CredentialValue) (r_tildes : Map BigNumber)
    (mt rt : String → BigNumber) where
  abbrev pub m_response : String → BigNumber
  m_response j = mt j +ℤ c *ℤ value_at values j

  abbrev pub r_response : String → BigNumber
  r_response j = rt j +ℤ c *ℤ blinding_at values j

  -- What one attribute adds to the responses.
  pub record IsAnswered (j : String) (before after : Caps) : Type 0 where
    pub m_entries : Entries before.m_caps m_response → Entries after.m_caps m_response
    pub r_entries : Entries before.r_caps r_response → Entries after.r_caps r_response
    pub m_names :
        (i : String) → contains_key i after.m_caps ≡ (j == i || contains_key i before.m_caps)
    pub r_kept :
        (i : String) → contains_key i before.r_caps ≡ true → contains_key i after.r_caps ≡ true
    pub r_name :
        (v b : BigNumber)
        → lookup j values ≡ some (CredentialValue.commitment v b)
        → contains_key j after.r_caps ≡ true

  not_hidden :
      (A : Type 0)
      → (v w b : BigNumber)
      → ◌≡◌ {A = Option CredentialValue}
          (some (CredentialValue.hidden v))
          (some (CredentialValue.commitment w b))
      → A
  not_hidden A v w b p = cc

  cap_step_total :
      (j : String) (x : BigNumber) (caps : Caps)
      → x ≡ mt j
      → Answerable values r_tildes rt j
      → (cv : CredentialValue) × (lookup j values ≡ some cv)
        × (after : Caps) × (cap_step c r_tildes j x cv caps ≡ ok after)
        × IsAnswered j caps after
  unfolding cap_step value blinding_of
  cap_step_total j x caps e (inl (v, found)) =
      let response : x +ℤ c *ℤ v ≡ m_response j =
        ap₂ (λ y w. y +ℤ c *ℤ w) e (value_at-lookup values j (CredentialValue.hidden v) found) in
      (
        CredentialValue.hidden v,
        found,
        record caps { m_caps = insert j (x +ℤ c *ℤ v) caps.m_caps },
        refl,
        record {
          m_entries = λ h. insert-Entries j (x +ℤ c *ℤ v) caps.m_caps m_response h response;
          r_entries = λ h. h;
          m_names = λ i. contains_key-insert j i (x +ℤ c *ℤ v) caps.m_caps;
          r_kept = λ i h. h;
          r_name = λ w b h. not_hidden (contains_key j caps.r_caps ≡ true) v w b (sym found ∙ h);
        },
      )
  cap_step_total j x caps e (inr (v, b, found, found')) =
      let cv = CredentialValue.commitment v b in
      let response : x +ℤ c *ℤ v ≡ m_response j =
        ap₂ (λ y w. y +ℤ c *ℤ w) e (value_at-lookup values j cv found) in
      let response' : rt j +ℤ c *ℤ b ≡ r_response j =
        ap (λ w. rt j +ℤ c *ℤ w) (blinding_at-lookup values j cv found) in
      (
        cv,
        found,
        record {
          m_caps = insert j (x +ℤ c *ℤ v) caps.m_caps;
          r_caps = insert j (rt j +ℤ c *ℤ b) caps.r_caps;
        },
        rw found' refl,
        record {
          m_entries = λ h. insert-Entries j (x +ℤ c *ℤ v) caps.m_caps m_response h response;
          r_entries = λ h. insert-Entries j (rt j +ℤ c *ℤ b) caps.r_caps r_response h response';
          m_names = λ i. contains_key-insert j i (x +ℤ c *ℤ v) caps.m_caps;
          r_kept = λ i h. ground (arith, contains_key-insert j i (rt j +ℤ c *ℤ b) caps.r_caps);
          r_name = λ w b' h.
              ground (arith, contains_key-insert j j (rt j +ℤ c *ℤ b) caps.r_caps, eq_iff j j);
        },
      )

  -- Every mask has a response when the loop ends.
  pub cap_loop_total :
      (m_tildes : Map BigNumber) (caps : Caps)
      → Entries m_tildes mt
      → ((j : String) → contains_key j m_tildes ≡ true → Answerable values r_tildes rt j)
      → (after : Caps) × (cap_loop c r_tildes values m_tildes caps ≡ ok after)
        × (Entries caps.m_caps m_response → Entries after.m_caps m_response)
        × (Entries caps.r_caps r_response → Entries after.r_caps r_response)
        × ((i : String)
            → contains_key i after.m_caps ≡ (contains_key i m_tildes || contains_key i caps.m_caps))
        × ((i : String) → contains_key i caps.r_caps ≡ true → contains_key i after.r_caps ≡ true)
        × ((i : String) (v b : BigNumber)
            → contains_key i m_tildes ≡ true
            → lookup i values ≡ some (CredentialValue.commitment v b)
            → contains_key i after.r_caps ≡ true)
  unfolding cap_loop
  cap_loop_total [] caps entries can =
      (caps, refl, λ h. h, λ h. h, λ i. refl, λ i h. h, λ i v b h e. ground arith)
  cap_loop_total ((j, x) ∷ m_tildes) caps entries can =
      let (cv, found, between, stepped, answered) =
        cap_step_total j x caps entries.0 (can j (ground (arith, eq_iff j j))) in
      let (after, ran, m_entries, r_entries, m_names, r_kept, r_names) =
        cap_loop_total m_tildes between entries.1 (λ i h. can i (ground arith)) in
      (
        after,
        rw (found, stepped) ran,
        λ h. m_entries (answered.m_entries h),
        λ h. r_entries (answered.r_entries h),
        λ i. ground (arith, m_names i, answered.m_names i),
        λ i h. r_kept i (answered.r_kept i h),
        λ i v b h e. elim (Bool-cases (j == i)) [
          | inl same ↦
              subst (λ k. contains_key k after.r_caps ≡ true) ((eq_iff j i).0 same)
                (r_kept j
                  (answered.r_name v b (ap (λ k. lookup k values) ((eq_iff j i).0 same) ∙ e)))
          | inr other ↦ r_names i v b (ground arith) e
        ],
      )

module _ (lib : OpenSsl) (pk : CredentialPrimaryPublicKey) (residues : Residues lib pk.n)
    (key : KeyRep lib pk residues) where
  open residues use {group, val, Rep, val-Rep}
  open group use {Carrier, ◌⊙◌, inv, comm}

  infixl 60 ◌⊙◌
  -- A commitment's inverse to the challenge, times the responses' commitment, is the masks'.
  cancel_commitment :
      (c v b m r : ℤ)
      → zpow group (inv (zpow group key.s b ⊙ zpow group key.z v)) c
          ⊙ (zpow group key.z (m +ℤ c *ℤ v) ⊙ zpow group key.s (r +ℤ c *ℤ b))
        ≡ zpow group key.z m ⊙ zpow group key.s r
  cancel_commitment c v b m r =
      let s_b = zpow group (zpow group key.s b) c in
      let z_v = zpow group (zpow group key.z v) c in
      ap₂ ◌⊙◌
        (zpow-inv group (zpow group key.s b ⊙ zpow group key.z v) c
          ∙ ap inv (zpow-mul_distrib group (zpow group key.s b) (zpow group key.z v) c))
        (ap₂ ◌⊙◌ (ap (zpow group key.z) (+ℤ_comm m (c *ℤ v)) ∙ zpow_response group key.z c v m)
            (ap (zpow group key.s) (+ℤ_comm r (c *ℤ b)) ∙ zpow_response group key.s c b r)
          ∙ interchange group z_v (zpow group key.z m) s_b (zpow group key.s r)
          ∙ ap (λ t. t ⊙ (zpow group key.z m ⊙ zpow group key.s r)) (comm z_v s_b))
      ∙ mul_cancel_left group (s_b ⊙ z_v) (zpow group key.z m ⊙ zpow group key.s r)

  -- The issuer's loop computes back the prover's commitments to the masks.
  pub commitment_cap_loop-pairs :
      (proof : BlindedCredentialSecretsCorrectnessProof) (v b mt rt : String → BigNumber)
      → (committed : Map BigNumber)
      → Entries committed (λ k. val (zpow group key.s (b k) ⊙ zpow group key.z (v k)))
      → ((j : String)
          → contains_key j committed ≡ true
          → lookup j proof.m_caps ≡ some (mt j +ℤ proof.c *ℤ v j))
      → ((j : String)
          → contains_key j committed ≡ true
          → lookup j proof.r_caps ≡ some (rt j +ℤ proof.c *ℤ b j))
      → commitment_cap_loop lib pk proof committed
        ≡ ok (
            pairs
              (λ k. val (zpow group key.z (mt k) ⊙ zpow group key.s (rt k)))
              (λ k. val (zpow group key.s (b k) ⊙ zpow group key.z (v k)))
              (keys committed))
  unfolding commitment_cap_loop
  commitment_cap_loop-pairs proof v b mt rt [] entries has has' = refl
  commitment_cap_loop-pairs proof v b mt rt ((k, x) ∷ committed) entries has has' =
      let y = zpow group key.s (b k) ⊙ zpow group key.z (v k) in
      let answer =
        zpow group key.z (mt k +ℤ proof.c *ℤ v k) ⊙ zpow group key.s (rt k +ℤ proof.c *ℤ b k) in
      let power = zpow group (inv y) proof.c in
      rw
        (
          entries.0,
          has k (ground (arith, eq_iff k k)),
          inverse-Rep lib pk.n residues (val y) y (val-Rep y),
          mod_exp-Rep lib pk.n residues (val (inv y)) (inv y) proof.c (val-Rep (inv y)),
          has' k (ground (arith, eq_iff k k)),
          get_pedersen_commitment-Rep lib pk.n residues pk.z pk.s key.z key.s
              (mt k +ℤ proof.c *ℤ v k) (rt k +ℤ proof.c *ℤ b k) key.z-Rep key.s-Rep,
          mod_mul-Rep lib pk.n residues (val power) (val answer) power answer (val-Rep power)
              (val-Rep answer),
          commitment_cap_loop-pairs proof v b mt rt committed entries.1
              (λ j h. has j (ground arith)) (λ j h. has' j (ground arith)),
          cancel_commitment proof.c (v k) (b k) (mt k) (rt k),
        )
        refl
