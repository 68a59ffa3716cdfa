-- ===== src/Cl/Equality/Complete.antt =====
-- Completeness of the equality proof: the verifier recomputes the prover's first message.
use smartchaindb_experiment.Base.{
  String, List, [], ◌∷◌, ◌≡◌, refl, sym, ap, ◌∙◌, Option, arith, some, true,
}
use smartchaindb_experiment.Base.Int.{◌+ℤ◌, ◌-ℤ◌, ◌*ℤ◌}
use smartchaindb_experiment.Base.Outcome.{ok}
use smartchaindb_experiment.Base.Maps.{Map, keys, lookup}
use smartchaindb_experiment.Base.Sets.{contains, union, subset-contains, Distinct, union-Distinct}
use smartchaindb_experiment.Group.{zpow, prod, prod_same}
use smartchaindb_experiment.Bn.{
  BigNumber, OpenSsl, Residues, mod_exp-Rep, mod_mul-Rep, mod_div-Rep, inverse-Rep,
}
use smartchaindb_experiment.Cl.Types.{
  CredentialSchema, NonCredentialSchema, CredentialValues, CredentialPrimaryPublicKey,
  PrimaryCredentialSignature, SubProofRequest, PrimaryEqualInitProof, PrimaryEqualProof,
  large_e_start_value, large_mvect, large_vprime, large_etilde, large_vtilde,
}
use smartchaindb_experiment.Cl.Rand.{Draws, Among}
use smartchaindb_experiment.Cl.Credential.{
  lookup-number_at, number_at, value_at, Within, IsSigned, IsConsistent, Within-Covers,
  Within-Gives, Gives-of_lookup,
}
use smartchaindb_experiment.Cl.Teq.Laws.{KeyRep, Covers, Gives, teq_product, calc_teq-product}
use smartchaindb_experiment.Cl.Teq.Algebra.{
  teq_product_response, teq_product_same, teq_product_randomised, response_cancel,
}
use smartchaindb_experiment.Cl.Equality.Defs.{
  unrevealed_by_prover, unrevealed_by_verifier, finalize_eq_proof, verify_equality,
}
use smartchaindb_experiment.Cl.Equality.Init.{init_eq_proof, unwrap_or}
use smartchaindb_experiment.Cl.Equality.Unrevealed.{
  unrevealed_same, by_prover-Distinct, by_verifier-Distinct,
}
use smartchaindb_experiment.Base.Entries.{Entries}
use smartchaindb_experiment.Cl.Equality.Loops.{m_hat_loop_total, revealed_loop_total}
use smartchaindb_experiment.Cl.Equality.Messages.{
  rar_loop-product, first_message, hidden_in_key, prover_hidden_in_values, init_eq_proof_total,
}

module _ (lib : OpenSsl) (pk : CredentialPrimaryPublicKey) (residues : Residues lib pk.n)
    (key : KeyRep lib pk residues) where
  open residues use {group, val, Rep, val-Rep}
  open group use {Carrier, ◌⊙◌, inv, assoc, one-mul}

  infixl 60 ◌⊙◌
  module _ (sig : PrimaryCredentialSignature) (cred_schema : CredentialSchema)
      (non_cred_schema : NonCredentialSchema) (values : CredentialValues)
      (request : SubProofRequest)
      (consistent : IsConsistent pk cred_schema non_cred_schema values.attrs_values request) where
    open consistent use {
      cred_distinct, non_cred_distinct, revealed_distinct, revealed_known, in_key, in_values,
    }

    abbrev hidden_by_prover : List String
    hidden_by_prover = unrevealed_by_prover non_cred_schema cred_schema request

    abbrev hidden_by_verifier : List String
    hidden_by_verifier = unrevealed_by_verifier non_cred_schema cred_schema request

    module _
        (signature : IsSigned lib pk residues key sig values.attrs_values
          (union cred_schema.attrs non_cred_schema.attrs)) where
      vals : String → BigNumber
      vals = value_at values.attrs_values

      -- Z is the randomised signature's product over the hidden names times the verifier's divisor.
      key-z-split :
          (r : BigNumber) (revealed : Map BigNumber)
          → Distinct (keys revealed)
          → ((j : String) → contains j (keys revealed) ≡ contains j request.revealed_attrs)
          → key.z
            ≡ teq_product lib pk residues key
                (zpow group key.s r ⊙ signature.a)
                (sig.e -ℤ large_e_start_value)
                (sig.v -ℤ sig.e *ℤ r)
                vals
                sig.m_2
                hidden_by_verifier
              ⊙ (prod group (λ k. zpow group (key.r k) (vals k)) (keys revealed)
                  ⊙ zpow group (zpow group key.s r ⊙ signature.a) large_e_start_value)
      unfolding vals unrevealed_by_verifier
      key-z-split r revealed distinct same =
          signature.signed
          ∙ teq_product_randomised lib pk residues key signature.a sig.e large_e_start_value sig.v r
              (value_at values.attrs_values) sig.m_2 (union cred_schema.attrs non_cred_schema.attrs)
              request.revealed_attrs (union-Distinct _ non_cred_schema.attrs cred_distinct)
              revealed_distinct revealed_known
          ∙ ap
              (λ t.
                teq_product lib pk residues key (zpow group key.s r ⊙ signature.a)
                  (sig.e -ℤ large_e_start_value) (sig.v -ℤ sig.e *ℤ r)
                  (value_at values.attrs_values) sig.m_2 hidden_by_verifier
                ⊙ (t ⊙ zpow group (zpow group key.s r ⊙ signature.a) large_e_start_value))
              (prod_same group (λ k. zpow group (key.r k) (value_at values.attrs_values k))
                request.revealed_attrs (keys revealed) revealed_distinct distinct
                (λ j. sym (same j)))

      -- The verifier's product of a proof whose responses are challenge * secret + mask.
      verify_equality_product :
          (c r e_tilde v_tilde m2_tilde : BigNumber) (mask : String → BigNumber)
          → (m_hat revealed : Map BigNumber)
          → Gives m_hat (λ k. c *ℤ vals k +ℤ mask k) hidden_by_verifier
          → Entries revealed vals
          → Distinct (keys revealed)
          → ((j : String) → contains j (keys revealed) ≡ contains j request.revealed_attrs)
          → Covers pk.r (keys revealed)
          → verify_equality lib pk
              (record {
                revealed_attrs = revealed;
                a_prime = val (zpow group key.s r ⊙ signature.a);
                e = c *ℤ (sig.e -ℤ large_e_start_value) +ℤ e_tilde;
                v = c *ℤ (sig.v -ℤ sig.e *ℤ r) +ℤ v_tilde;
                m = m_hat;
                m2 = c *ℤ sig.m_2 +ℤ m2_tilde;
              })
              c
              cred_schema
              non_cred_schema
              request
            ≡ ok (
                val (
                  teq_product lib pk residues key
                    (zpow group key.s r ⊙ signature.a)
                    e_tilde
                    v_tilde
                    mask
                    m2_tilde
                    hidden_by_verifier)
                ∷ [])
      unfolding verify_equality
      verify_equality_product c r e_tilde v_tilde m2_tilde mask m_hat revealed gives entries
            distinct same cover =
          let a_prime = zpow group key.s r ⊙ signature.a in
          let e_hat = c *ℤ (sig.e -ℤ large_e_start_value) +ℤ e_tilde in
          let v_hat = c *ℤ (sig.v -ℤ sig.e *ℤ r) +ℤ v_tilde in
          let t1 =
            teq_product lib pk residues key a_prime e_hat v_hat (λ k. c *ℤ vals k +ℤ mask k)
              (c *ℤ sig.m_2 +ℤ m2_tilde) hidden_by_verifier in
          let start = zpow group a_prime large_e_start_value in
          let rar = prod group (λ k. zpow group (key.r k) (vals k)) (keys revealed) ⊙ start in
          let quotient = key.z ⊙ inv rar in
          let t2 = zpow group (inv quotient) c in
          rw
            (
              calc_teq-product lib pk residues key (val a_prime) a_prime e_hat v_hat m_hat
                  (λ k. c *ℤ vals k +ℤ mask k) (c *ℤ sig.m_2 +ℤ m2_tilde) hidden_by_verifier
                  (val-Rep a_prime)
                  (hidden_in_key lib pk residues key sig cred_schema non_cred_schema values request
                    consistent)
                  gives,
              mod_exp-Rep lib pk.n residues (val a_prime) a_prime large_e_start_value
                  (val-Rep a_prime),
              rar_loop-product lib pk residues key revealed vals start cover entries,
              mod_div-Rep lib pk.n residues pk.z (val rar) key.z rar key.z-Rep (val-Rep rar),
              inverse-Rep lib pk.n residues (val quotient) quotient (val-Rep quotient),
              mod_exp-Rep lib pk.n residues (val (inv quotient)) (inv quotient) c
                  (val-Rep (inv quotient)),
              mod_mul-Rep lib pk.n residues (val t1) (val t2) t1 t2 (val-Rep t1) (val-Rep t2),
            )
            (ap (λ t. ok (val t ∷ []))
              (ap (λ t. t ⊙ t2)
                  (teq_product_response lib pk residues key a_prime c (sig.e -ℤ large_e_start_value)
                    e_tilde (sig.v -ℤ sig.e *ℤ r) v_tilde vals mask sig.m_2 m2_tilde
                    hidden_by_verifier)
                ∙ response_cancel lib pk residues key key.z _ rar _ c
                    (key-z-split r revealed distinct same)))

      revealed_in_values : Covers values.attrs_values request.revealed_attrs
      revealed_in_values =
          Within-Covers values.attrs_values request.revealed_attrs
            (λ k h. in_values k (subset-contains k _ _ revealed_known h))

      revealed_in_key : Within pk.r request.revealed_attrs
      revealed_in_key k h = in_key k (subset-contains k _ _ revealed_known h)

      -- The answer to a challenge, where every hidden attribute has a mask.
      finalize_eq_proof-verify :
          (m2_t : Option BigNumber) (d : Draws) (m_tilde : Map BigNumber)
          → Within m_tilde hidden_by_prover
          → (c : BigNumber)
          → (proof : PrimaryEqualProof) × (finalize_eq_proof
                (first_message lib pk residues key sig cred_schema non_cred_schema values request
                  consistent signature.a m_tilde m2_t d)
                c
                cred_schema
                non_cred_schema
                values
                request
              ≡ ok proof)
            × (verify_equality lib pk proof c cred_schema non_cred_schema request
                ≡ ok (
                    (first_message lib pk residues key sig cred_schema non_cred_schema values
                      request consistent signature.a m_tilde m2_t d).t
                    ∷ []))
            × ((j : String)
                → contains j hidden_by_prover ≡ true
                → lookup j proof.m ≡ some (c *ℤ vals j +ℤ number_at m_tilde j))
            × ((j : String)
                → contains j (keys proof.revealed_attrs) ≡ contains j request.revealed_attrs)
      unfolding finalize_eq_proof vals
      finalize_eq_proof-verify m2_t d m_tilde within c =
          let (m_hat, hat_ran, hat) =
            m_hat_loop_total c m_tilde values.attrs_values (number_at m_tilde) hidden_by_prover []
              (Within-Gives m_tilde hidden_by_prover within)
              (prover_hidden_in_values lib pk residues key sig cred_schema non_cred_schema values
                request consistent) in
          let (revealed, revealed_ran, entries, distinct, same) =
            revealed_loop_total values.attrs_values request.revealed_attrs [] revealed_in_values tt
              tt in
          let r = d 1 large_vprime in
          let a_prime = zpow group key.s r ⊙ signature.a in
          (
            record {
              revealed_attrs = revealed;
              a_prime = val a_prime;
              e = c *ℤ (sig.e -ℤ large_e_start_value) +ℤ d 2 large_etilde;
              v = c *ℤ (sig.v -ℤ sig.e *ℤ r) +ℤ d 3 large_vtilde;
              m = m_hat;
              m2 = c *ℤ sig.m_2 +ℤ unwrap_or m2_t (d 0 large_mvect);
            },
            rw (hat_ran, revealed_ran),
            verify_equality_product c r (d 2 large_etilde) (d 3 large_vtilde)
                  (unwrap_or m2_t (d 0 large_mvect)) (number_at m_tilde) m_hat revealed
                  (Gives-of_lookup m_hat (λ k. c *ℤ vals k +ℤ number_at m_tilde k)
                    hidden_by_verifier
                    (λ j h.
                      ground (arith, hat j, unrevealed_same non_cred_schema cred_schema request j)))
                  entries distinct (λ j. ground (arith, same j))
                  (Within-Covers pk.r (keys revealed)
                    (λ k h. revealed_in_key k (ground (arith, same k))))
                ∙ ap (λ t. ok (val t ∷ []))
                    (teq_product_same lib pk residues key a_prime (d 2 large_etilde)
                      (d 3 large_vtilde) (number_at m_tilde) (unwrap_or m2_t (d 0 large_mvect))
                      hidden_by_verifier hidden_by_prover
                      (by_verifier-Distinct non_cred_schema cred_schema request cred_distinct)
                      (by_prover-Distinct non_cred_schema cred_schema request non_cred_distinct)
                      (λ j. sym (unrevealed_same non_cred_schema cred_schema request j))),
            λ j h. hat j ∙ rw h refl,
            λ j. ground (arith, same j),
          )

      -- Completeness of the equality proof. For a signature on the values of the schemas' names and a
      -- request that is consistent with them, whatever is drawn, whatever masks the common attributes
      -- have and whatever the challenge: the prover's two moves succeed, and the verifier computes
      -- from the proof exactly the t of the prover's first message, which the challenge has hashed.
      -- Every hidden attribute has a mask in that message, a common attribute its own, and its
      -- response in the proof, which reveals the attributes that were asked for and no others. No
      -- random numbers are left but those that were there.
      pub verify-finalize-init :
          (common : Map BigNumber) (m2_t : Option BigNumber) (d : Draws)
          → (init : PrimaryEqualInitProof) × (d' : Draws) × (init_eq_proof lib common pk sig
                cred_schema non_cred_schema request m2_t d
              ≡ ok (init, d'))
            × Among d d'
            × ((j : String) (x : BigNumber)
                → lookup j common ≡ some x
                → lookup j init.m_tilde ≡ some x)
            × ((j : String)
                → contains j (unrevealed_by_prover non_cred_schema cred_schema request) ≡ true
                → lookup j init.m_tilde ≡ some (number_at init.m_tilde j))
            × ((c : BigNumber)
                → (proof : PrimaryEqualProof) × (finalize_eq_proof init c cred_schema
                      non_cred_schema values request
                    ≡ ok proof)
                  × (verify_equality lib pk proof c cred_schema non_cred_schema request
                      ≡ ok (init.t ∷ []))
                  × ((j : String)
                      → contains j (unrevealed_by_prover non_cred_schema cred_schema request) ≡ true
                      → lookup j proof.m
                        ≡ some (c *ℤ value_at values.attrs_values j +ℤ number_at init.m_tilde j))
                  × ((j : String)
                      → contains j (keys proof.revealed_attrs) ≡ contains j request.revealed_attrs))
      unfolding vals
      verify-finalize-init common m2_t d =
          let (m_tilde, d', started, within, kept, among) =
            init_eq_proof_total lib pk residues key sig cred_schema non_cred_schema values request
              consistent signature.a common m2_t d signature.a-Rep in
          (
            first_message lib pk residues key sig cred_schema non_cred_schema values request
                consistent signature.a m_tilde m2_t d,
            d',
            started,
            among,
            kept,
            λ j h. lookup-number_at m_tilde j (within j h),
            λ c. finalize_eq_proof-verify m2_t d m_tilde within c,
          )
