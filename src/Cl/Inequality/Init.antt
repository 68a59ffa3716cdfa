-- ===== src/Cl/Inequality/Init.antt =====
-- The first move of the inequality proof: `ProofBuilder::_init_ne_proof` of
-- ursa_Master/libursa/src/cl/prover.rs.
use smartchaindb_experiment.Base.{String, List, [], ◌∷◌, ◌++◌}
use smartchaindb_experiment.Base.Int.{pos, ltb_ℤ}
use smartchaindb_experiment.Base.Outcome.{ok, ok_or, fail_if, invalid_structure}
use smartchaindb_experiment.Base.Maps.{Map, lookup, insert}
use smartchaindb_experiment.Bn.{BigNumber, OpenSsl, get_pedersen_commitment}
use smartchaindb_experiment.Cl.Types.{
  CredentialValues, value, CredentialPrimaryPublicKey, Predicate,
  PrimaryPredicateInequalityInitProof, large_vprime, large_utilde, large_rtilde, large_alphatilde,
}
use smartchaindb_experiment.Cl.Rand.{Rand, lift, bn_rand, ◌>>=◌}
use smartchaindb_experiment.Cl.Predicate.{parse_i32, get_delta, is_less}
use smartchaindb_experiment.Cl.FourSquares.{four_squares}
use smartchaindb_experiment.Cl.Tne.{iterations, calc_tne}

-- The maps r and t and the list that the first loop fills.
pub record Commitments : Type 0 where
  pub r : Map BigNumber
  pub t : Map BigNumber
  pub c_list : List BigNumber

unfoldable pub commit_loop :
    OpenSsl
    → CredentialPrimaryPublicKey
    → Map BigNumber
    → List String
    → Commitments
    → Rand Commitments
unfolding bn_rand
commit_loop lib pk u [] acc = lift (ok acc)
commit_loop lib pk u (i ∷ is) acc = do
  cur_u ← lift (ok_or (lookup i u) invalid_structure)
  cur_r ← bn_rand large_vprime
  cut_t ← lift (get_pedersen_commitment lib pk.z cur_u pk.s cur_r pk.n)
  commit_loop lib pk u is (record {
    r = insert i cur_r acc.r;
    t = insert i cut_t acc.t;
    c_list = acc.c_list ++ (cut_t ∷ []);
  })

-- The maps u_tilde and r_tilde that the second loop fills.
unfoldable pub mask_loop :
    List String → Map BigNumber → Map BigNumber → Rand (Map BigNumber × Map BigNumber)
unfolding bn_rand
mask_loop [] u_tilde r_tilde = lift (ok (u_tilde, r_tilde))
mask_loop (i ∷ is) u_tilde r_tilde = do
  u_mask ← bn_rand large_utilde
  r_mask ← bn_rand large_rtilde
  mask_loop is (insert i u_mask u_tilde) (insert i r_mask r_tilde)

unfoldable pub init_ne_proof :
    OpenSsl
    → CredentialPrimaryPublicKey
    → Map BigNumber
    → CredentialValues
    → Predicate
    → Rand PrimaryPredicateInequalityInitProof
unfolding bn_rand
init_ne_proof lib pk m_tilde cred_values predicate = do
  entry ← lift (ok_or (lookup predicate.attr_name cred_values.attrs_values) invalid_structure)
  attr_value ← lift (parse_i32 (value entry))
  let delta = get_delta predicate attr_value
  _ ← lift (fail_if (ltb_ℤ delta (pos 0)) invalid_structure)
  u ← lift (four_squares delta)
  acc ← commit_loop lib pk u iterations (record { r = []; t = []; c_list = [] })
  r_delta ← bn_rand large_vprime
  t_delta ← lift (get_pedersen_commitment lib pk.z delta pk.s r_delta pk.n)
  let r = insert "DELTA" r_delta acc.r
  let t = insert "DELTA" t_delta acc.t
  let c_list = acc.c_list ++ (t_delta ∷ [])
  masks ← mask_loop iterations [] []
  r_mask_delta ← bn_rand large_rtilde
  let r_tilde = insert "DELTA" r_mask_delta masks.1
  alpha_tilde ← bn_rand large_alphatilde
  mj ← lift (ok_or (lookup predicate.attr_name m_tilde) invalid_structure)
  tau_list ← lift (calc_tne lib pk masks.0 r_tilde mj alpha_tilde t (is_less predicate))
  lift (
      ok (record {
        c_list = c_list;
        tau_list = tau_list;
        u = u;
        u_tilde = masks.0;
        r = r;
        r_tilde = r_tilde;
        alpha_tilde = alpha_tilde;
        predicate = predicate;
        t = t;
      }))
