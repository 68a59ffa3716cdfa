-- ===== src/Cl/Inequality/Verify.antt =====
-- The check of an inequality proof: `ProofVerifier::_verify_ne_predicate` of
-- ursa_Master/libursa/src/cl/verifier.rs, which returns the list that the challenge is compared on.
use smartchaindb_experiment.Base.{String, Bool, true, false, List, [], ◌∷◌}
use smartchaindb_experiment.Base.Int.{◌*ℤ◌}
use smartchaindb_experiment.Base.Outcome.{
  UrsaCryptoResult, ok, panicked, ok_or, proof_rejected, ◌>>=◌,
}
use smartchaindb_experiment.Base.Maps.{lookup}
use smartchaindb_experiment.Bn.{BigNumber, OpenSsl, mod_exp, mod_mul, inverse}
use smartchaindb_experiment.Cl.Types.{CredentialPrimaryPublicKey, PrimaryPredicateInequalityProof}
use smartchaindb_experiment.Cl.Predicate.{get_delta_prime, is_less}
use smartchaindb_experiment.Cl.Tne.{iterations, calc_tne}

module _ (lib : OpenSsl) (pk : CredentialPrimaryPublicKey) (proof : PrimaryPredicateInequalityProof)
    (c_hash : BigNumber) where
  open pk use {n, z}

  -- x.mod_exp(c_hash).inverse().mod_mul(tau)
  unfoldable pub divide_challenge : BigNumber → BigNumber → UrsaCryptoResult BigNumber
  divide_challenge x tau = do
    power ← mod_exp lib x c_hash n
    inverted ← inverse lib power n
    mod_mul lib inverted tau n

  unfoldable pub delta_or_inverse : Bool → BigNumber → UrsaCryptoResult BigNumber
  delta_or_inverse true delta = inverse lib delta n
  delta_or_inverse false delta = ok delta

  -- The entries ITERATION and ITERATION + 1.
  unfoldable pub divide_delta : List BigNumber → UrsaCryptoResult (List BigNumber)
  divide_delta (tau_delta ∷ tau_q ∷ rest) = do
    delta ← ok_or (lookup "DELTA" proof.t) proof_rejected
    delta_prime ← delta_or_inverse (is_less proof.predicate) delta
    z_power ← mod_exp lib z (get_delta_prime proof.predicate) n
    new_delta ← divide_challenge (z_power *ℤ delta_prime) tau_delta
    new_q ← divide_challenge delta tau_q
    ok (new_delta ∷ new_q ∷ rest)
  divide_delta _ = panicked

  -- The entries of the loop, and then the others.
  unfoldable pub divide_loop : List String → List BigNumber → UrsaCryptoResult (List BigNumber)
  divide_loop [] tau_list = divide_delta tau_list
  divide_loop (i ∷ is) [] = panicked
  divide_loop (i ∷ is) (tau ∷ tau_list) = do
    cur_t ← ok_or (lookup i proof.t) proof_rejected
    new_tau ← divide_challenge cur_t tau
    rest ← divide_loop is tau_list
    ok (new_tau ∷ rest)

  unfoldable pub verify_ne_predicate : UrsaCryptoResult (List BigNumber)
  verify_ne_predicate = do
    tau_list ←
        calc_tne lib pk proof.u proof.r proof.mj proof.alpha proof.t (is_less proof.predicate)
    divide_loop iterations tau_list
