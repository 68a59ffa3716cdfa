-- ===== src/Cl/Tne/Laws.antt =====
-- What `calc_tne` computes, as powers of the residues of the public key and of the commitments.
use mathlib.Core.Path.{subst}
use smartchaindb_experiment.Base.{
  String, Bool, true, List, [], ◌∷◌, ◌++◌, map, ◌≡◌, refl, sym, ◌∙◌, some, if◌then◌else◌,
}
use smartchaindb_experiment.Base.Int.{ℤ, pos, ◌*ℤ◌}
use smartchaindb_experiment.Base.Outcome.{ok}
use smartchaindb_experiment.Base.Maps.{Map, lookup}
use smartchaindb_experiment.Group.{zpow, prod, left_comm, mul-one}
use smartchaindb_experiment.Bn.{
  BigNumber, OpenSsl, Residues, mod_exp-Rep, mod_mul-Rep, set_negative,
}
use smartchaindb_experiment.Cl.Types.{CredentialPrimaryPublicKey}
use smartchaindb_experiment.Cl.Teq.Laws.{KeyRep, Gives}
use smartchaindb_experiment.Cl.Tne.{iterations, tau_loop, q_loop, calc_tne}

module _ (lib : OpenSsl) (pk : CredentialPrimaryPublicKey) (residues : Residues lib pk.n)
    (key : KeyRep lib pk residues) where
  open residues use {group, val, Rep, val-Rep, mul-Rep, one-Rep}
  open group use {Carrier, ◌⊙◌, assoc, one-mul, one}

  infixl 60 ◌⊙◌
  -- z^u s^r
  abbrev pub commit : ℤ → ℤ → Carrier
  commit u r = zpow group key.z u ⊙ zpow group key.s r

  tau_loop-commit :
      (u r : Map BigNumber) (fu fr : String → ℤ) (ks : List String)
      → Gives u fu ks
      → Gives r fr ks
      → tau_loop lib pk u r ks ≡ ok (map (λ k. val (commit (fu k) (fr k))) ks)
  unfolding tau_loop
  tau_loop-commit u r fu fr [] gu gr = refl
  tau_loop-commit u r fu fr (k ∷ ks) (pu, gu) (pr, gr) =
      rw
        (
          pu,
          pr,
          mod_exp-Rep lib pk.n residues pk.z key.z (fu k) key.z-Rep,
          mod_exp-Rep lib pk.n residues pk.s key.s (fr k) key.s-Rep,
          mod_mul-Rep lib pk.n residues _ _ _ _ (val-Rep (zpow group key.z (fu k)))
              (val-Rep (zpow group key.s (fr k))),
          tau_loop-commit u r fu fr ks gu gr,
        )
        refl

  -- The loop's number stands for the product of the powers.
  q_loop-prod :
      (t u : Map BigNumber) (ft : String → Carrier) (fu : String → ℤ) (ks : List String)
      → Gives t (λ k. val (ft k)) ks
      → Gives u fu ks
      → (q : BigNumber) (acc : Carrier) → Rep q acc
      → (x : BigNumber) × (q_loop lib pk t u ks q ≡ ok x)
        × Rep x (prod group (λ k. zpow group (ft k) (fu k)) ks ⊙ acc)
  unfolding q_loop prod
  q_loop-prod t u ft fu [] gt gu q acc p = (q, refl, subst (Rep q) (sym (one-mul acc)) p)
  q_loop-prod t u ft fu (k ∷ ks) (pt, gt) (pu, gu) q acc p =
      let power = zpow group (ft k) (fu k) in
      let (x, e, h) =
        q_loop-prod t u ft fu ks gt gu (val power *ℤ q) (power ⊙ acc)
          (mul-Rep _ _ _ _ (val-Rep power) p) in
      (
        x,
        rw (pt, pu, mod_exp-Rep lib pk.n residues _ (ft k) (fu k) (val-Rep (ft k))) e,
        subst (Rep x) (left_comm group _ _ _ ∙ sym (assoc _ _ _)) h,
      )

  -- The list that the powers of given exponents make.
  abbrev pub tne_list :
      (String → ℤ) → (String → ℤ) → ℤ → ℤ → ℤ → (String → Carrier) → List BigNumber
  tne_list u r mj delta alpha t =
      map (λ k. val (commit (u k) (r k))) iterations
      ++ (val (commit mj delta)
          ∷ val (zpow group key.s alpha ⊙ prod group (λ k. zpow group (t k) (u k)) iterations)
          ∷ [])

  -- With all the numbers there, `calc_tne` returns that list.
  pub calc_tne-list :
      (u r t : Map BigNumber) (fu fr : String → ℤ) (ft : String → Carrier)
      → (mj alpha delta : ℤ) (is_less : Bool) → Gives u fu iterations
      → Gives r fr iterations
      → Gives t (λ k. val (ft k)) iterations
      → lookup "DELTA" r ≡ some delta
      → calc_tne lib pk u r mj alpha t is_less
        ≡ ok (tne_list fu fr mj (if is_less then set_negative true delta else delta) alpha ft)
  unfolding calc_tne
  calc_tne-list u r t fu fr ft mj alpha delta is_less gu gr gt pd =
      let (q, e, h) = q_loop-prod t u ft fu iterations gt gu (pos 1) one one-Rep in
      let signed = if is_less then set_negative true delta else delta in
      rw
        (
          tau_loop-commit u r fu fr iterations gu gr,
          pd,
          mod_exp-Rep lib pk.n residues pk.z key.z mj key.z-Rep,
          mod_exp-Rep lib pk.n residues pk.s key.s signed key.s-Rep,
          mod_mul-Rep lib pk.n residues _ _ _ _ (val-Rep (zpow group key.z mj))
              (val-Rep (zpow group key.s signed)),
          e,
          mod_exp-Rep lib pk.n residues pk.s key.s alpha key.s-Rep,
          mod_mul-Rep lib pk.n residues _ q _ _ (val-Rep (zpow group key.s alpha)) h,
          mul-one group (prod group (λ k. zpow group (ft k) (fu k)) iterations),
        )
        refl
