-- ===== src/Cl/Inequality/Finalize.antt =====
-- The last move of the inequality proof: `ProofBuilder::_finalize_ne_proof` of
-- ursa_Master/libursa/src/cl/prover.rs. `map[key]` panics on a missing key.
use smartchaindb_experiment.Base.{String, List, [], ◌∷◌}
use smartchaindb_experiment.Base.Int.{pos, ◌+ℤ◌, ◌-ℤ◌, ◌*ℤ◌}
use smartchaindb_experiment.Base.Outcome.{UrsaCryptoResult, ok, index, ◌>>=◌}
use smartchaindb_experiment.Base.Maps.{Map, lookup, insert}
use smartchaindb_experiment.Bn.{BigNumber}
use smartchaindb_experiment.Cl.Types.{
  PrimaryPredicateInequalityInitProof, PrimaryPredicateInequalityProof, PrimaryEqualProof,
}
use smartchaindb_experiment.Cl.Tne.{iterations}

-- The maps u and r and the sum `urproduct` of the loop.
pub record Responses : Type 0 where
  pub u : Map BigNumber
  pub r : Map BigNumber
  pub urproduct : BigNumber

unfoldable pub respond_loop :
    BigNumber
    → PrimaryPredicateInequalityInitProof
    → List String
    → Responses
    → UrsaCryptoResult Responses
respond_loop c_h init_proof [] acc = ok acc
respond_loop c_h init_proof (i ∷ is) acc = do
  cur_utilde ← index (lookup i init_proof.u_tilde)
  cur_u ← index (lookup i init_proof.u)
  cur_rtilde ← index (lookup i init_proof.r_tilde)
  cur_r ← index (lookup i init_proof.r)
  let new_u = c_h *ℤ cur_u +ℤ cur_utilde
  let new_r = c_h *ℤ cur_r +ℤ cur_rtilde
  cur_rtilde_delta ← index (lookup "DELTA" init_proof.r_tilde)
  cur_r_delta ← index (lookup "DELTA" init_proof.r)
  let new_delta = c_h *ℤ cur_r_delta +ℤ cur_rtilde_delta
  respond_loop c_h init_proof is (record {
    u = insert i new_u acc.u;
    r = insert "DELTA" new_delta (insert i new_r acc.r);
    urproduct = cur_u *ℤ cur_r +ℤ acc.urproduct;
  })

unfoldable pub finalize_ne_proof :
    BigNumber
    → PrimaryPredicateInequalityInitProof
    → PrimaryEqualProof
    → UrsaCryptoResult PrimaryPredicateInequalityProof
finalize_ne_proof c_h init_proof eq_proof = do
  acc ← respond_loop c_h init_proof iterations (record { u = []; r = []; urproduct = pos 0 })
  r_delta ← index (lookup "DELTA" init_proof.r)
  let alpha = (r_delta -ℤ acc.urproduct) *ℤ c_h +ℤ init_proof.alpha_tilde
  mj ← index (lookup init_proof.predicate.attr_name eq_proof.m)
  ok (record {
    u = acc.u;
    r = acc.r;
    mj = mj;
    alpha = alpha;
    t = init_proof.t;
    predicate = init_proof.predicate;
  })
