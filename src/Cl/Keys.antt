-- ===== src/Cl/Keys.antt =====
-- The issuer's primary key and the proof that it is well made: `_new_credential_primary_keys` and
-- `_new_credential_key_correctness_proof` of ursa_Master/libursa/src/cl/issuer.rs, and the prover's
-- `_check_credential_key_correctness_proof` of libursa/src/cl/prover.rs.
pub mod Loops
pub mod Complete
use text.Mathlib.Text
use smartchaindb_experiment.Base.{ℕ, String, Bool, true, false, ◌&&◌, not, List, [], ◌∷◌, ◌++◌}
use smartchaindb_experiment.Base.Int.{pos, ◌+ℤ◌, ◌*ℤ◌, ◌==ℤ◌}
use smartchaindb_experiment.Base.Maps.{Map, keys, lookup, insert, contains_key}
use smartchaindb_experiment.Base.Entries.{entry_values}
use smartchaindb_experiment.Base.Sets.{contains, is_empty}
use smartchaindb_experiment.Base.Outcome.{UrsaCryptoResult, ok, fail_if, index, invalid_structure}
use smartchaindb_experiment.Base.Outcome
use smartchaindb_experiment.Bn.{
  BigNumber, OpenSsl, mod_exp, inverse, rshift1, generate_safe_prime, get_hash_as_int, concat_bytes,
  get_pedersen_commitment,
}
use smartchaindb_experiment.Cl.Types.{
  CredentialSchema, NonCredentialSchema, CredentialPrimaryPublicKey, CredentialPrimaryPrivateKey,
}
use smartchaindb_experiment.Cl.Range.{Ranged, lift, gen_x, random_qr, ◌>>=◌}

abbrev pub large_prime : ℕ
large_prime = 1024

pub record CredentialPrimaryPublicKeyMetadata : Type 0 where
  pub xz : BigNumber
  pub xr : Map BigNumber

pub record CredentialKeyCorrectnessProof : Type 0 where
  pub c : BigNumber
  pub xz_cap : BigNumber
  pub xr_cap : Map BigNumber

-- An exponent for each name.
unfoldable pub exponent_loop :
    BigNumber → BigNumber → List String → Map BigNumber → Ranged (Map BigNumber)
exponent_loop p q [] xr = lift (ok xr)
exponent_loop p q (key ∷ names) xr = do x ← gen_x p q; exponent_loop p q names (insert key x xr)

-- `values.extend_from_slice` for each name of a list.
unfoldable pub collect_loop : Map BigNumber → List String → UrsaCryptoResult (List BigNumber)
collect_loop m [] = ok []
collect_loop m (attr ∷ attrs) =
    Outcome.◌>>=◌ (index (lookup attr m))
      (λ val. Outcome.◌>>=◌ (collect_loop m attrs) (λ vals. ok (val ∷ vals)))

-- The responses c * x + mask.
unfoldable pub xr_cap_loop :
    BigNumber → Map BigNumber → Map BigNumber → List String → UrsaCryptoResult (Map BigNumber)
xr_cap_loop c xr xr_tilda [] = ok []
xr_cap_loop c xr xr_tilda (key ∷ names) =
    Outcome.◌>>=◌ (index (lookup key xr_tilda)) (λ xr_tilda_value.
      Outcome.◌>>=◌ (index (lookup key xr)) (λ xr_value.
        Outcome.◌>>=◌ (xr_cap_loop c xr xr_tilda names)
          (λ xr_cap. ok ((key, c *ℤ xr_value +ℤ xr_tilda_value) ∷ xr_cap))))

-- Every name of the key is in the proof, but for "master_secret".
unfoldable pub check_r_keys : List String → List String → UrsaCryptoResult (Unit {0})
check_r_keys correctness_names [] = ok tt
check_r_keys correctness_names (r_key ∷ r_keys) =
    Outcome.◌>>◌
      (fail_if (not (contains r_key correctness_names) && not (Text.◌==◌ r_key "master_secret"))
        invalid_structure)
      (check_r_keys correctness_names r_keys)

-- Every name of the proof is in the key.
unfoldable pub check_names : Map BigNumber → List String → UrsaCryptoResult (Unit {0})
check_names r [] = ok tt
check_names r (correctness_name ∷ names) =
    Outcome.◌>>◌ (fail_if (not (contains_key correctness_name r)) invalid_structure)
      (check_names r names)

module _ (lib : OpenSsl) where
  open lib use {to_bytes}

  -- The power of s for each exponent.
  unfoldable pub power_loop :
      BigNumber → BigNumber → Map BigNumber → Map BigNumber → UrsaCryptoResult (Map BigNumber)
  power_loop s n [] r = ok r
  power_loop s n ((key, xr_value) ∷ xr) r =
      Outcome.◌>>=◌ (mod_exp lib s xr_value n) (λ power. power_loop s n xr (insert key power r))

  -- `_new_credential_primary_keys`
  unfoldable pub new_credential_primary_keys :
      CredentialSchema
      → NonCredentialSchema
      → Ranged (
          CredentialPrimaryPublicKey × CredentialPrimaryPrivateKey
          × CredentialPrimaryPublicKeyMetadata)
  new_credential_primary_keys cred_schema non_cred_schema = do
    _ ← lift (fail_if (is_empty cred_schema.attrs) invalid_structure)
    p_safe ← lift (generate_safe_prime lib 0 large_prime)
    q_safe ← lift (generate_safe_prime lib 1 large_prime)
    let p = rshift1 p_safe
    let q = rshift1 q_safe
    let n = p_safe *ℤ q_safe
    s ← random_qr lib n
    xz ← gen_x p q
    xr_non_schema ← exponent_loop p q non_cred_schema.attrs []
    xr ← exponent_loop p q cred_schema.attrs xr_non_schema
    r ← lift (power_loop s n xr [])
    z ← lift (mod_exp lib s xz n)
    x ← gen_x p q
    rctxt ← lift (mod_exp lib s x n)
    lift (
        ok (
          record { n = n; s = s; rctxt = rctxt; r = r; z = z },
          record { p = p; q = q },
          record { xz = xz; xr = xr },
        ))

  -- `_new_credential_key_correctness_proof`
  unfoldable pub new_credential_key_correctness_proof :
      CredentialPrimaryPublicKey
      → CredentialPrimaryPrivateKey
      → CredentialPrimaryPublicKeyMetadata
      → Ranged CredentialKeyCorrectnessProof
  new_credential_key_correctness_proof pk sk meta = do
    xz_tilda ← gen_x sk.p sk.q
    xr_tilda ← exponent_loop sk.p sk.q (keys pk.r) []
    z_tilda ← lift (mod_exp lib pk.s xz_tilda pk.n)
    r_tilda ← lift (power_loop pk.s pk.n xr_tilda [])
    let ordered_attrs = keys pk.r
    r_tildas ← lift (collect_loop r_tilda ordered_attrs)
    let values = concat_bytes lib (pk.z ∷ entry_values pk.r ++ (z_tilda ∷ r_tildas))
    c ← lift (get_hash_as_int lib (values ∷ []))
    xr_cap ← lift (xr_cap_loop c meta.xr xr_tilda ordered_attrs)
    lift (ok (record { c = c; xz_cap = c *ℤ meta.xz +ℤ xz_tilda; xr_cap = xr_cap }))

  -- The numbers of the key in the order of the proof, and the commitments computed back.
  unfoldable pub cap_loop :
      CredentialPrimaryPublicKey
      → BigNumber
      → Map BigNumber
      → UrsaCryptoResult (List BigNumber × List BigNumber)
  cap_loop pk c [] = ok ([], [])
  cap_loop pk c ((key, xr_cap_value) ∷ xr_cap) = Outcome.◌>>=◌ (index (lookup key pk.r)) (λ r_value.
      Outcome.◌>>=◌ (inverse lib r_value pk.n) (λ r_inverse.
        Outcome.◌>>=◌ (get_pedersen_commitment lib r_inverse c pk.s xr_cap_value pk.n) (λ val.
          Outcome.◌>>=◌ (cap_loop pk c xr_cap) (λ later. ok (r_value ∷ later.0, val ∷ later.1)))))

  -- `_check_credential_key_correctness_proof`
  unfoldable pub check_credential_key_correctness_proof :
      CredentialPrimaryPublicKey → CredentialKeyCorrectnessProof → UrsaCryptoResult (Unit {0})
  check_credential_key_correctness_proof pk proof =
      let correctness_names = keys proof.xr_cap in
      Outcome.◌>>◌ (check_r_keys correctness_names (keys pk.r)) (
        Outcome.◌>>◌ (check_names pk.r correctness_names) (
          Outcome.◌>>=◌ (inverse lib pk.z pk.n) (λ z_inverse.
            Outcome.◌>>=◌ (get_pedersen_commitment lib z_inverse proof.c pk.s proof.xz_cap pk.n)
              (λ z_cap. Outcome.◌>>=◌ (cap_loop pk proof.c proof.xr_cap) (λ ordered.
                let values = concat_bytes lib (pk.z ∷ ordered.0 ++ (z_cap ∷ ordered.1)) in
                Outcome.◌>>=◌ (get_hash_as_int lib (values ∷ []))
                  (λ c. fail_if (not (proof.c ==ℤ c)) invalid_structure))))))
