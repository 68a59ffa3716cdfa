-- ===== src/Cl/Sign/Correct.antt =====
-- The prover's check of a signature and of the issuer's proof about it.
use smartchaindb_experiment.Base.{true, [], ◌∷◌, ◌≡◌, refl, sym, ap, ◌∙◌}
use smartchaindb_experiment.Base.Int.{ℤ, ◌+ℤ◌, ◌-ℤ◌, ◌*ℤ◌, neg_ℤ, ==ℤ_refl, int_laws}
use smartchaindb_experiment.Base.Maps.{keys}
use smartchaindb_experiment.Base.Sets.{Distinct}
use smartchaindb_experiment.Base.Outcome.{ok}
use smartchaindb_experiment.Group.{
  AbGroup, zpow, prod, zpow-mul, zpow-add, zpow-neg, mul_cancel_right, mul-one,
}
use smartchaindb_experiment.Bn.{
  BigNumber, OpenSsl, Residues, inverse, mod_mul, mod_sub, mod_exp-Rep, mod_div-Rep,
  get_pedersen_commitment-Rep, get_hash_as_int, concat_bytes,
}
use smartchaindb_experiment.Cl.Types.{
  CredentialValues, CredentialPrimaryPublicKey, CredentialPrimaryPrivateKey,
  SignatureCorrectnessProof,
}
use smartchaindb_experiment.Cl.Range.{Ranges, bn_rand_range, later}
use smartchaindb_experiment.Cl.Credential.{value_at, Within}
use smartchaindb_experiment.Cl.Teq.Laws.{KeyRep, teq_product}
use smartchaindb_experiment.Cl.Blind.Honest.{own_Entries}
use smartchaindb_experiment.Cl.Sign.{
  new_signature_correctness_proof, check_signature_correctness_proof, no_missing,
}
use smartchaindb_experiment.Cl.Sign.Names.{
  signed_names, value_power, find_missing-none, rx_loop-product,
}
use smartchaindb_experiment.Cl.Sign.Signed.{HasOrder, zpow-add_multiple}

-- What the crate documents of `mod_mul` and `mod_sub` for a modulus m: a number that differs from
-- the product or the difference by a multiple of m.
pub record ExponentLaws (lib : OpenSsl) (m : BigNumber) : Type 0 where
  pub mod_mul_law :
      (x y : BigNumber)
      → (z k : BigNumber) × (lib.ssl_mod_mul x y m ≡ ok z) × (z +ℤ k *ℤ m ≡ x *ℤ y)
  pub mod_sub_law :
      (x y : BigNumber)
      → (z k : BigNumber) × (lib.ssl_mod_sub x y m ≡ ok z) × (z +ℤ k *ℤ m ≡ x -ℤ y)

sub_as_add : (a b : ℤ) → a -ℤ b ≡ a +ℤ neg_ℤ b
sub_as_add a b = omega int_laws

module _ (g : AbGroup) (m : ℤ) where
  open g use {Carrier, ◌⊙◌, inv, comm, assoc}

  infixl 60 ◌⊙◌
  -- The answer r - c / e to the challenge, for the root q^d of q.
  pub answer_power :
      (q : Carrier) (e d c r product se k k' : ℤ)
      → HasOrder g m q
      → zpow g (zpow g q d) e ≡ q
      → product +ℤ k *ℤ m ≡ c *ℤ d
      → se +ℤ k' *ℤ m ≡ r -ℤ product
      → zpow g (zpow g q d) (c +ℤ se *ℤ e) ≡ zpow g q r
  answer_power q e d c r product se k k' order root multiplied subtracted =
      let a_c = zpow g (zpow g q d) c in
      let is_a_c : zpow g q product ≡ a_c =
        sym (zpow-add_multiple g m q product k order)
        ∙ ap (zpow g q) multiplied
        ∙ zpow-mul g q c d in
      zpow-add g (zpow g q d) c (se *ℤ e)
      ∙ ap (λ y. a_c ⊙ y)
          (zpow-mul g (zpow g q d) se e
            ∙ ap (λ y. zpow g y se) root
            ∙ sym (zpow-add_multiple g m q se k' order)
            ∙ ap (zpow g q) (subtracted ∙ sub_as_add r product)
            ∙ zpow-add g q r (neg_ℤ product)
            ∙ ap (λ y. zpow g q r ⊙ y) (zpow-neg g q product ∙ ap inv is_a_c))
      ∙ comm a_c (zpow g q r ⊙ inv a_c)
      ∙ assoc (zpow g q r) (inv a_c) a_c
      ∙ ap (λ y. zpow g q r ⊙ y) (g.inv-mul a_c)
      ∙ mul-one g (zpow g q r)

module _ (lib : OpenSsl) (pk : CredentialPrimaryPublicKey) (residues : Residues lib pk.n)
    (key : KeyRep lib pk residues) where
  open residues use {group, val, Rep, val-Rep}
  open group use {Carrier, ◌⊙◌, inv, comm, assoc}

  infixl 60 ◌⊙◌
  -- The issuer's proof about a root q^d of q: its answer makes the root's power q^r.
  pub new_signature_correctness-answer :
      (sk : CredentialPrimaryPrivateKey)
      → ExponentLaws lib (sk.p *ℤ sk.q)
      → (q : Carrier) (e d v m_2 nonce : BigNumber) → HasOrder group (sk.p *ℤ sk.q) q
      → zpow group (zpow group q d) e ≡ q
      → inverse lib e (sk.p *ℤ sk.q) ≡ ok d
      → (r : Ranges)
      → (proof : SignatureCorrectnessProof) × (new_signature_correctness_proof lib pk sk
            (record { m_2 = m_2; a = val (zpow group q d); e = e; v = v })
            (val q)
            nonce
            r
          ≡ ok (proof, later r))
        × (proof.c
            ≡ lib.from_digest (
                concat_bytes lib (
                  val q
                  ∷ val (zpow group q d)
                  ∷ val (zpow group (zpow group q d) (proof.c +ℤ proof.se *ℤ e))
                  ∷ nonce
                  ∷ [])
                ∷ []))
  unfolding new_signature_correctness_proof bn_rand_range get_hash_as_int mod_mul mod_sub
  new_signature_correctness-answer sk laws q e d v m_2 nonce order root inverted r =
      let m = sk.p *ℤ sk.q in
      let x = r 0 m in
      let hash : Carrier → BigNumber = λ y.
        lib.from_digest
          (concat_bytes lib (val q ∷ val (zpow group q d) ∷ val y ∷ nonce ∷ []) ∷ []) in
      let c = hash (zpow group q x) in
      let (product, k, multiplied, is_product) = laws.mod_mul_law c d in
      let (se, k', subtracted, is_difference) = laws.mod_sub_law x product in
      (
        record { se = se; c = c },
        rw (mod_exp-Rep lib pk.n residues (val q) q x (val-Rep q), inverted, multiplied, subtracted)
            refl,
        ap hash (
            sym
              (answer_power group m q e d c x product se k k' order root is_product is_difference)),
      )

  cancel_signed : (s r p a : Carrier) → (r ⊙ (s ⊙ (p ⊙ a))) ⊙ inv ((s ⊙ r) ⊙ p) ≡ a
  cancel_signed s r p a =
      ap (λ x. x ⊙ inv ((s ⊙ r) ⊙ p))
        (sym (assoc r s (p ⊙ a))
          ∙ ap (λ x. x ⊙ (p ⊙ a)) (comm r s)
          ∙ sym (assoc (s ⊙ r) p a)
          ∙ comm ((s ⊙ r) ⊙ p) a)
      ∙ mul_cancel_right group a ((s ⊙ r) ⊙ p)

  -- The prover's check of a signature on its known and hidden values, with a proof the challenge of
  -- which is the hash of the quotient, the root and the root's power.
  pub check_signature_correctness-IsSigned :
      (values : CredentialValues) (a : Carrier) (m_2 e v nonce : BigNumber)
      → (proof : SignatureCorrectnessProof) → lib.ssl_is_prime e ≡ ok true
      → Distinct (keys values.attrs_values)
      → Within pk.r (signed_names values.attrs_values)
      → key.z
        ≡ teq_product lib pk residues key a e v
            (value_at values.attrs_values)
            m_2
            (signed_names values.attrs_values)
      → proof.c
        ≡ lib.from_digest (
            concat_bytes lib (
              val (zpow group a e)
              ∷ val a
              ∷ val (zpow group a (proof.c +ℤ proof.se *ℤ e))
              ∷ nonce
              ∷ [])
            ∷ [])
      → check_signature_correctness_proof lib
          (record { m_2 = m_2; a = val a; e = e; v = v })
          values
          proof
          pk
          nonce
        ≡ ok tt
  unfolding check_signature_correctness_proof no_missing teq_product get_hash_as_int
  check_signature_correctness-IsSigned values a m_2 e v nonce proof prime distinct in_key signed
        hashed =
      let m = values.attrs_values in
      let start = zpow group key.s v ⊙ zpow group key.rctxt m_2 in
      let p = prod group (value_power lib pk residues key m) (signed_names m) in
      let rx = start ⊙ p in
      let degree = proof.c +ℤ proof.se *ℤ e in
      let is_root : key.z ⊙ inv rx ≡ zpow group a e =
        ap (λ z. z ⊙ inv rx) signed
        ∙ cancel_signed (zpow group key.s v) (zpow group key.rctxt m_2) p (zpow group a e) in
      rw
        (
          prime,
          find_missing-none lib pk residues key m m in_key,
          get_pedersen_commitment-Rep lib pk.n residues pk.s pk.rctxt key.s key.rctxt v m_2
              key.s-Rep key.rctxt-Rep,
          rx_loop-product lib pk residues key m m start (own_Entries m distinct) in_key,
          mod_div-Rep lib pk.n residues pk.z (val rx) key.z rx key.z-Rep (val-Rep rx),
          is_root,
          mod_exp-Rep lib pk.n residues (val a) a e (val-Rep a),
          ==ℤ_refl (val (zpow group a e)),
          mod_exp-Rep lib pk.n residues (val a) a degree (val-Rep a),
          sym hashed,
          ==ℤ_refl proof.c,
        )
        refl
