-- ===== src/Cl/Equality/Messages.antt =====
-- The first message of an honest prover, and the part of the equation that is known.
use smartchaindb_experiment.Base.{
  String, List, [], ◌∷◌, ◌≡◌, sym, ap, ◌∙◌, Option, some, arith, suc,
}
use smartchaindb_experiment.Base.Int.{◌-ℤ◌, ◌*ℤ◌}
use smartchaindb_experiment.Base.Outcome.{ok}
use smartchaindb_experiment.Base.Maps.{Map, keys, lookup}
use smartchaindb_experiment.Group.{zpow, prod, left_comm}
use smartchaindb_experiment.Bn.{BigNumber, OpenSsl, Residues, mod_exp-Rep, mod_mul-Rep}
use smartchaindb_experiment.Cl.Types.{
  CredentialSchema, NonCredentialSchema, CredentialValues, CredentialPrimaryPublicKey,
  PrimaryCredentialSignature, SubProofRequest, PrimaryEqualInitProof, large_e_start_value,
  large_mvect, large_vprime, large_etilde, large_vtilde,
}
use smartchaindb_experiment.Cl.Rand.{Draws, Among, bn_rand, later}
use smartchaindb_experiment.Cl.Credential.{
  number_at, Within, IsConsistent, Within-Covers, Within-Gives,
}
use smartchaindb_experiment.Cl.Teq.Laws.{KeyRep, Covers, teq_product, calc_teq-product}
use smartchaindb_experiment.Cl.Equality.Defs.{
  unrevealed_by_prover, unrevealed_by_verifier, rar_loop,
}
use smartchaindb_experiment.Cl.Equality.Init.{init_eq_proof, unwrap_or}
use smartchaindb_experiment.Cl.Equality.Unrevealed.{unrevealed_same, unrevealed_names}
use smartchaindb_experiment.Base.Entries.{Entries}
use smartchaindb_experiment.Cl.Equality.Loops.{get_mtilde_total}

module _ (lib : OpenSsl) (pk : CredentialPrimaryPublicKey) (residues : Residues lib pk.n)
    (key : KeyRep lib pk residues) where
  open residues use {group, val, Rep, val-Rep}
  open group use {Carrier, ◌⊙◌, inv, assoc, one-mul}

  infixl 60 ◌⊙◌
  -- The loop over the revealed attributes multiplies the powers of the key's residues.
  pub rar_loop-product :
      (m : Map BigNumber) (f : String → BigNumber) (acc : Carrier)
      → Covers pk.r (keys m)
      → Entries m f
      → rar_loop lib pk m (val acc)
        ≡ ok (val (prod group (λ k. zpow group (key.r k) (f k)) (keys m) ⊙ acc))
  unfolding rar_loop prod
  rar_loop-product [] f acc cover entries = ap (λ a. ok (val a)) (sym (one-mul acc))
  rar_loop-product ((k, y) ∷ m) f acc ((x, e), cover) (g, entries) =
      rw
        (
          e,
          g,
          mod_exp-Rep lib pk.n residues x (key.r k) (f k) (key.r-Rep k x e),
          mod_mul-Rep lib pk.n residues _ _ _ _ (val-Rep (zpow group (key.r k) (f k)))
              (val-Rep acc),
        )
        (rar_loop-product m f (zpow group (key.r k) (f k) ⊙ acc) cover entries
          ∙ ap (λ a. ok (val a)) (left_comm group _ _ _ ∙ sym (assoc _ _ _)))

  module _ (sig : PrimaryCredentialSignature) (cred_schema : CredentialSchema)
      (non_cred_schema : NonCredentialSchema) (values : CredentialValues)
      (request : SubProofRequest)
      (consistent : IsConsistent pk cred_schema non_cred_schema values.attrs_values request) where
    open consistent use {
      cred_distinct, non_cred_distinct, revealed_distinct, revealed_known, in_key, in_values,
    }

    abbrev pub hidden_by_prover : List String
    hidden_by_prover = unrevealed_by_prover non_cred_schema cred_schema request

    abbrev pub hidden_by_verifier : List String
    hidden_by_verifier = unrevealed_by_verifier non_cred_schema cred_schema request

    -- The prover's first message over its masks, which it draws in this order.
    abbrev pub first_message :
        Carrier → Map BigNumber → Option BigNumber → Draws → PrimaryEqualInitProof
    first_message a m_tilde m2_t d =
        let r = d 1 large_vprime in
        let a_prime = zpow group key.s r ⊙ a in
        record {
          a_prime = val a_prime;
          t = val (
              teq_product lib pk residues key a_prime (d 2 large_etilde) (d 3 large_vtilde)
                (number_at m_tilde) (unwrap_or m2_t (d 0 large_mvect)) hidden_by_prover);
          e_tilde = d 2 large_etilde;
          e_prime = sig.e -ℤ large_e_start_value;
          v_tilde = d 3 large_vtilde;
          v_prime = sig.v -ℤ sig.e *ℤ r;
          m_tilde = m_tilde;
          m2_tilde = unwrap_or m2_t (d 0 large_mvect);
          m2 = sig.m_2;
        }

    pub hidden_in_key : Covers pk.r hidden_by_verifier
    hidden_in_key =
        Within-Covers pk.r hidden_by_verifier
          (λ k h. in_key k (unrevealed_names non_cred_schema cred_schema request k h))

    pub prover_hidden_in_key : Covers pk.r hidden_by_prover
    prover_hidden_in_key = Within-Covers pk.r hidden_by_prover (λ k h. in_key k (
        unrevealed_names non_cred_schema cred_schema request k
          (sym (unrevealed_same non_cred_schema cred_schema request k) ∙ h)))

    pub prover_hidden_in_values : Covers values.attrs_values hidden_by_prover
    prover_hidden_in_values = Within-Covers values.attrs_values hidden_by_prover (λ k h.
        in_values k (
          unrevealed_names non_cred_schema cred_schema request k
            (sym (unrevealed_same non_cred_schema cred_schema request k) ∙ h)))

    pub init_eq_proof_total :
        (a : Carrier) (common : Map BigNumber) (m2_t : Option BigNumber) (d : Draws)
        → Rep sig.a a
        → (m_tilde : Map BigNumber) × (d' : Draws) × (init_eq_proof lib common pk sig cred_schema
              non_cred_schema request m2_t d
            ≡ ok (first_message a m_tilde m2_t d, d'))
          × Within m_tilde hidden_by_prover
          × ((j : String) (x : BigNumber) → lookup j common ≡ some x → lookup j m_tilde ≡ some x)
          × Among d d'
    unfolding init_eq_proof bn_rand
    init_eq_proof_total a common m2_t d a-Rep =
        let (m_tilde, d', drawn, has, kept, among) =
          get_mtilde_total hidden_by_prover common (later (later (later (later d)))) in
        let within : Within m_tilde hidden_by_prover = λ k h. ground (arith, has k) in
        (
          m_tilde,
          d',
          rw (
            drawn,
            mod_exp-Rep lib pk.n residues pk.s key.s (d 1 large_vprime) key.s-Rep,
            mod_mul-Rep lib pk.n residues _ sig.a _ a
                (val-Rep (zpow group key.s (d 1 large_vprime))) a-Rep,
            calc_teq-product lib pk residues key (val (zpow group key.s (d 1 large_vprime) ⊙ a))
                (zpow group key.s (d 1 large_vprime) ⊙ a) (d 2 large_etilde) (d 3 large_vtilde)
                m_tilde (number_at m_tilde) (unwrap_or m2_t (d 0 large_mvect)) hidden_by_prover
                (val-Rep (zpow group key.s (d 1 large_vprime) ⊙ a)) prover_hidden_in_key
                (Within-Gives m_tilde hidden_by_prover within),
          ),
          within,
          kept,
          λ i size. let (n, p) = among i size in (suc (suc (suc (suc n))), p),
        )
