-- ===== src/Examples/VerifierClaims.antt =====
-- The theorems on the verifier applied to a proof of two sub proofs that share a secret.
use smartchaindb_experiment.Base.{[], ◌∷◌, String, ◌≡◌, refl, true, some, none}
use smartchaindb_experiment.Base.Int.{pos}
use smartchaindb_experiment.Base.Maps.{lookup, contains_key}
use smartchaindb_experiment.Base.Outcome.{ok}
use smartchaindb_experiment.Bn.{
  OpenSsl, mod_exp, mod_mul, mod_div, inverse, is_negative, get_hash_as_int,
}
use smartchaindb_experiment.Cl.Types.{CredentialPrimaryPublicKey, large_e_start_value}
use smartchaindb_experiment.Cl.Teq.{teq_loop, calc_teq}
use smartchaindb_experiment.Cl.Equality.{verify_equality, rar_loop, unrevealed_by_verifier}
use smartchaindb_experiment.Cl.Verifier.Checks.{
  NonRevocation, VerifiableCredential, SubProof, Proof, check_proof, check_pairs, length,
  same_predicates, all_in, proof_predicates,
}
use smartchaindb_experiment.Cl.Verifier.Verify.{
  ProofVerifier, verify, verify_steps, verify_loop, verify_primary_proof, verify_ne_loop,
  check_common, check_attribute, check_entry, non_revocation_taus,
}
use smartchaindb_experiment.Cl.Verifier.Common.{Extends}
use smartchaindb_experiment.Cl.Verifier.Accepted.{
  Corresponds, AllHave, verify-AllHave, verify_twice,
}

-- A library whose numbers are all one, for which every hash is the challenge.
abbrev ones : OpenSsl
ones = record {
  ssl_mod_exp = λ x a n. ok (pos 1);
  ssl_mod_mul = λ x y n. ok (pos 1);
  ssl_mod_inverse = λ x n. ok (pos 1);
  ssl_is_prime = λ x. ok true;
  to_bytes = λ x. 1 ∷ [];
  from_digest = λ bytes. pos 1;
  ssl_mod_sub = λ x y n. ok (pos 1);
  ssl_modulus = λ x n. ok (pos 1);
  ssl_safe_prime = λ i size. ok (pos 1);
  from_bytes = λ bytes. pos 1;
  sha256 = λ bytes. [];
}

abbrev pub no_revocation : NonRevocation
no_revocation = record {
  NonRevocProof = Unit;
  CredentialRevocationPublicKey = Unit;
  RevocationRegistry = Unit;
  RevocationKeyPublic = Unit;
  verify_non_revocation_proof = λ k reg key c proof. ok [];
}

abbrev public_key : CredentialPrimaryPublicKey
public_key = record {
  n = pos 35;
  s = pos 4;
  r = ("age", pos 9) ∷ ("secret", pos 29) ∷ [];
  rctxt = pos 16;
  z = pos 4;
}

abbrev asked : VerifiableCredential no_revocation
asked = record {
  pub_key = record { p_key = public_key; r_key = none };
  sub_proof_request = record { revealed_attrs = "age" ∷ []; predicates = [] };
  credential_schema = record { attrs = "age" ∷ [] };
  non_credential_schema = record { attrs = "secret" ∷ [] };
  rev_key_pub = none;
  rev_reg = none;
}

abbrev sub_proof : SubProof no_revocation
sub_proof = record {
  primary_proof = record {
    eq_proof = record {
      revealed_attrs = ("age", pos 28) ∷ [];
      a_prime = pos 11;
      e = pos 3;
      v = pos 2;
      m = ("secret", pos 7) ∷ [];
      m2 = pos 5;
    };
    ne_proofs = [];
  };
  non_revoc_proof = none;
}

abbrev proof : Proof no_revocation
proof = record {
  proofs = sub_proof ∷ sub_proof ∷ [];
  aggregated_proof = record { c_hash = pos 1; c_list = [] };
}

abbrev before : ProofVerifier ones no_revocation
before = record { credentials = asked ∷ asked ∷ []; common_attributes = ("secret", none) ∷ [] }

abbrev after : ProofVerifier ones no_revocation
after = record {
  credentials = asked ∷ asked ∷ [];
  common_attributes = ("secret", some (pos 7)) ∷ [];
}

accepts : verify ones no_revocation before proof (pos 9) ≡ (ok true, after)
unfolding verify verify_steps verify_loop verify_primary_proof verify_ne_loop check_common
    check_attribute check_entry non_revocation_taus check_proof check_pairs same_predicates all_in
    proof_predicates verify_equality rar_loop unrevealed_by_verifier calc_teq teq_loop mod_exp
    mod_mul mod_div inverse is_negative get_hash_as_int large_e_start_value
accepts = refl

accepts_again : verify ones no_revocation after proof (pos 9) ≡ (ok true, after)
unfolding verify verify_steps verify_loop verify_primary_proof verify_ne_loop check_common
    check_attribute check_entry non_revocation_taus check_proof check_pairs same_predicates all_in
    proof_predicates verify_equality rar_loop unrevealed_by_verifier calc_teq teq_loop mod_exp
    mod_mul mod_div inverse is_negative get_hash_as_int large_e_start_value
accepts_again = refl

verify-AllHave_example :
    (length proof.proofs ≡ length before.credentials)
    × Corresponds ones no_revocation proof.proofs before.credentials
    × Extends before.common_attributes after.common_attributes
    × ((attr_name : String)
        → contains_key attr_name before.common_attributes ≡ true
        → AllHave ones no_revocation attr_name
            (lookup attr_name after.common_attributes)
            proof.proofs)
verify-AllHave_example = verify-AllHave ones no_revocation before after proof (pos 9) true accepts

verify_twice_example :
    lookup "secret" sub_proof.primary_proof.eq_proof.m
    ≡ lookup "secret" sub_proof.primary_proof.eq_proof.m
verify_twice_example =
    verify_twice ones no_revocation before after after proof proof (pos 9) (pos 9) true true accepts
      accepts_again "secret" refl sub_proof sub_proof (sub_proof ∷ []) (sub_proof ∷ []) refl refl
