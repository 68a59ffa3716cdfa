-- ===== src/Cl/Tne.antt =====
-- `calc_tne` of ursa_Master/libursa/src/cl/helpers.rs: the list that an inequality proof is about.
pub mod Laws
use smartchaindb_experiment.Base.{String, Bool, true, List, [], ◌∷◌, ◌++◌, if◌then◌else◌}
use smartchaindb_experiment.Base.Int.{pos, ◌*ℤ◌}
use smartchaindb_experiment.Base.Outcome.{invalid_structure, UrsaCryptoResult, ok, ok_or, ◌>>=◌}
use smartchaindb_experiment.Base.Maps.{Map, lookup}
use smartchaindb_experiment.Bn.{BigNumber, OpenSsl, mod_exp, mod_mul, set_negative}
use smartchaindb_experiment.Cl.Types.{CredentialPrimaryPublicKey}

-- `0..ITERATION`, each as a text.
abbrev pub iterations : List String
iterations = "0" ∷ "1" ∷ "2" ∷ "3" ∷ []

module _ (lib : OpenSsl) (pk : CredentialPrimaryPublicKey) where
  open pk use {n, s, z}

  -- z^u_i s^r_i for each i.
  unfoldable pub tau_loop :
      Map BigNumber → Map BigNumber → List String → UrsaCryptoResult (List BigNumber)
  tau_loop u r [] = ok []
  tau_loop u r (i ∷ is) = do
    cur_u ← ok_or (lookup i u) invalid_structure
    cur_r ← ok_or (lookup i r) invalid_structure
    z_power ← mod_exp lib z cur_u n
    s_power ← mod_exp lib s cur_r n
    t_tau ← mod_mul lib z_power s_power n
    rest ← tau_loop u r is
    ok (t_tau ∷ rest)

  -- q * t_i^u_i for each i, where the product is not reduced.
  unfoldable pub q_loop :
      Map BigNumber → Map BigNumber → List String → BigNumber → UrsaCryptoResult BigNumber
  q_loop t u [] q = ok q
  q_loop t u (i ∷ is) q = do
    cur_t ← ok_or (lookup i t) invalid_structure
    cur_u ← ok_or (lookup i u) invalid_structure
    power ← mod_exp lib cur_t cur_u n
    q_loop t u is (power *ℤ q)

  unfoldable pub calc_tne :
      Map BigNumber
      → Map BigNumber
      → BigNumber
      → BigNumber
      → Map BigNumber
      → Bool
      → UrsaCryptoResult (List BigNumber)
  calc_tne u r mj alpha t is_less = do
    tau_list ← tau_loop u r iterations
    delta ← ok_or (lookup "DELTA" r) invalid_structure
    let delta_predicate = if is_less then set_negative true delta else delta
    z_power ← mod_exp lib z mj n
    s_power ← mod_exp lib s delta_predicate n
    t_tau ← mod_mul lib z_power s_power n
    q ← q_loop t u iterations (pos 1)
    s_alpha ← mod_exp lib s alpha n
    last ← mod_mul lib s_alpha q n
    ok (tau_list ++ (t_tau ∷ last ∷ []))
