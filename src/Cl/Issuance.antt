-- ===== src/Cl/Issuance.antt =====
-- The calls that issuer and prover make of issuance: `new_credential_def` of
-- ursa_Master/libursa/src/cl/issuer.rs, `new_master_secret` and `blind_credential_secrets` of
-- libursa/src/cl/prover.rs. The revocation part of a key and of the blinded secrets is a parameter.
pub mod Complete
use smartchaindb_experiment.Base.{
  ℕ, String, Bool, true, false, Option, none, some, List, if◌then◌else◌,
}
use smartchaindb_experiment.Base.Maps.{Map}
use smartchaindb_experiment.Base.Outcome.{UrsaCryptoResult, ok}
use smartchaindb_experiment.Base.Outcome
use smartchaindb_experiment.Bn.{BigNumber, OpenSsl}
use smartchaindb_experiment.Cl.Types.{
  CredentialSchema, NonCredentialSchema, CredentialValues, CredentialPrimaryPrivateKey,
}
use smartchaindb_experiment.Cl.Rand.{Rand, bn_rand}
use smartchaindb_experiment.Cl.Rand
use smartchaindb_experiment.Cl.Range.{Ranged, lift, ◌>>=◌}
use smartchaindb_experiment.Cl.Keys.{
  CredentialKeyCorrectnessProof, new_credential_primary_keys, new_credential_key_correctness_proof,
  check_credential_key_correctness_proof,
}
use smartchaindb_experiment.Cl.Blind.{
  PrimaryBlindedCredentialSecretsFactors, BlindedCredentialSecretsCorrectnessProof,
  generate_blinded_primary_credential_secrets_factors,
  new_blinded_credential_secrets_correctness_proof,
}
use smartchaindb_experiment.Cl.Verifier.Checks.{NonRevocation, CredentialPublicKey}

abbrev pub large_master_secret : ℕ
large_master_secret = 256

pub record MasterSecret : Type 0 where
  pub ms : BigNumber

-- `Prover::new_master_secret`
unfoldable pub new_master_secret : Rand MasterSecret
unfolding bn_rand
new_master_secret =
    Rand.◌>>=◌ (bn_rand large_master_secret) (λ ms. Rand.lift (ok (record { ms = ms })))

-- The revocation part: `_new_credential_revocation_keys` and
-- `_generate_blinded_revocation_credential_secrets`, which returns `ur` and `vr_prime`.
pub record RevocationIssuer (types : NonRevocation) : Type 1 where
  pub PointG1 : Type 0
  pub GroupOrderElement : Type 0
  pub CredentialRevocationPrivateKey : Type 0
  pub new_credential_revocation_keys :
      UrsaCryptoResult (types.CredentialRevocationPublicKey × CredentialRevocationPrivateKey)
  pub generate_blinded_revocation_credential_secrets :
      types.CredentialRevocationPublicKey → UrsaCryptoResult (PointG1 × GroupOrderElement)

module _ (lib : OpenSsl) (types : NonRevocation) (revocation : RevocationIssuer types) where
  open types use {CredentialRevocationPublicKey}
  open revocation use {
    PointG1, GroupOrderElement, CredentialRevocationPrivateKey, new_credential_revocation_keys,
    generate_blinded_revocation_credential_secrets,
  }

  pub record CredentialPrivateKey : Type 0 where
    pub p_key : CredentialPrimaryPrivateKey
    pub r_key : Option CredentialRevocationPrivateKey

  pub record BlindedCredentialSecrets : Type 0 where
    pub u : BigNumber
    pub ur : Option PointG1
    pub hidden_attributes : List String
    pub committed_attributes : Map BigNumber

  pub record CredentialSecretsBlindingFactors : Type 0 where
    pub v_prime : BigNumber
    pub vr_prime : Option GroupOrderElement

  unfoldable pub revocation_keys :
      Bool
      → UrsaCryptoResult
          (Option CredentialRevocationPublicKey × Option CredentialRevocationPrivateKey)
  revocation_keys false = ok (none, none)
  revocation_keys true =
      Outcome.◌>>=◌ new_credential_revocation_keys (λ pair. ok (some pair.0, some pair.1))

  -- `Issuer::new_credential_def`
  unfoldable pub new_credential_def :
      CredentialSchema
      → NonCredentialSchema
      → Bool
      → Ranged (CredentialPublicKey types × CredentialPrivateKey × CredentialKeyCorrectnessProof)
  new_credential_def cred_schema non_cred_schema support_revocation = do
    (p_pub_key, p_priv_key, p_key_meta) ←
        new_credential_primary_keys lib cred_schema non_cred_schema
    (r_pub_key, r_priv_key) ← lift (revocation_keys support_revocation)
    proof ← new_credential_key_correctness_proof lib p_pub_key p_priv_key p_key_meta
    lift (
        ok (
          record { p_key = p_pub_key; r_key = r_pub_key },
          record { p_key = p_priv_key; r_key = r_priv_key },
          proof,
        ))

  unfoldable pub blinded_revocation :
      Option CredentialRevocationPublicKey
      → UrsaCryptoResult (Option PointG1 × Option GroupOrderElement)
  blinded_revocation none = ok (none, none)
  blinded_revocation (some r_pk) =
      Outcome.◌>>=◌ (generate_blinded_revocation_credential_secrets r_pk)
        (λ pair. ok (some pair.0, some pair.1))

  -- `Prover::blind_credential_secrets`
  unfoldable pub blind_credential_secrets :
      CredentialPublicKey types
      → CredentialKeyCorrectnessProof
      → CredentialValues
      → BigNumber
      → Rand (
          BlindedCredentialSecrets × CredentialSecretsBlindingFactors
          × BlindedCredentialSecretsCorrectnessProof)
  blind_credential_secrets pub_key key_proof values nonce =
      Rand.◌>>=◌ (Rand.lift (check_credential_key_correctness_proof lib pub_key.p_key key_proof))
        (λ _.
          Rand.◌>>=◌ (generate_blinded_primary_credential_secrets_factors lib pub_key.p_key values)
            (λ primary. Rand.◌>>=◌ (Rand.lift (blinded_revocation pub_key.r_key)) (λ revocation'.
              Rand.◌>>=◌
                (new_blinded_credential_secrets_correctness_proof lib pub_key.p_key primary nonce
                  values)
                (λ proof. Rand.lift (
                  ok (
                    record {
                      u = primary.u;
                      ur = revocation'.0;
                      hidden_attributes = primary.hidden_attributes;
                      committed_attributes = primary.committed_attributes;
                    },
                    record { v_prime = primary.v_prime; vr_prime = revocation'.1 },
                    proof,
                  ))))))
