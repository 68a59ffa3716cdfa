-- ===== src/Cl/Blind.antt =====
-- The prover's blinded secrets and the proof that they are well made:
-- `_generate_blinded_primary_credential_secrets_factors` and
-- `_new_blinded_credential_secrets_correctness_proof` of ursa_Master/libursa/src/cl/prover.rs, and
-- the issuer's `_check_blinded_credential_secrets_correctness_proof` of libursa/src/cl/issuer.rs.
pub mod Names
pub mod Factors
pub mod Masks
pub mod Responses
pub mod Honest
pub mod Check
pub mod Complete
use smartchaindb_experiment.Base.{ℕ, String, true, false, ◌||◌, not, List, [], ◌∷◌, ◌++◌}
use smartchaindb_experiment.Base.Int.{◌+ℤ◌, ◌*ℤ◌, ◌==ℤ◌}
use smartchaindb_experiment.Base.Maps.{Map, lookup, insert}
use smartchaindb_experiment.Base.Outcome.{
  UrsaCryptoResult, ok, ok_or, fail_if, index, invalid_structure,
}
use smartchaindb_experiment.Base.Outcome
use smartchaindb_experiment.Bn.{
  BigNumber, OpenSsl, mod_exp, mod_mul, inverse, get_hash_as_int, concat_bytes,
  get_pedersen_commitment,
}
use smartchaindb_experiment.Cl.Types.{
  CredentialValue, CredentialValues, is_hidden, is_commitment, value, CredentialPrimaryPublicKey,
  large_vprime,
}
use smartchaindb_experiment.Cl.Rand.{Rand, lift, bn_rand, ◌>>=◌}

abbrev pub large_mtilde : ℕ
large_mtilde = 593

abbrev pub large_vprime_tilde : ℕ
large_vprime_tilde = 673

pub record PrimaryBlindedCredentialSecretsFactors : Type 0 where
  pub u : BigNumber
  pub v_prime : BigNumber
  pub hidden_attributes : List String
  pub committed_attributes : Map BigNumber

pub record BlindedCredentialSecretsCorrectnessProof : Type 0 where
  pub c : BigNumber
  pub v_dash_cap : BigNumber
  pub m_caps : Map BigNumber
  pub r_caps : Map BigNumber

-- `.filter(is_hidden)` and the names of what is left.
unfoldable pub hidden_names : Map CredentialValue → List String
hidden_names [] = []
hidden_names ((attr, v) ∷ values) = elim (is_hidden v) [
  | true ↦ attr ∷ hidden_names values
  | false ↦ hidden_names values
]

-- What the loop of the proof has built: the masks, the numbers to hash, and u_tilde.
pub record Tildes : Type 0 where
  pub m_tildes : Map BigNumber
  pub r_tildes : Map BigNumber
  pub values : List BigNumber
  pub u_tilde : BigNumber

-- The responses.
pub record Caps : Type 0 where
  pub m_caps : Map BigNumber
  pub r_caps : Map BigNumber

-- The responses of one attribute.
unfoldable pub cap_step :
    BigNumber → Map BigNumber → String → BigNumber → CredentialValue → Caps → UrsaCryptoResult Caps
cap_step c r_tildes attr m_tilde (CredentialValue.hidden v) caps =
    ok (record caps { m_caps = insert attr (m_tilde +ℤ c *ℤ v) caps.m_caps })
cap_step c r_tildes attr m_tilde (CredentialValue.commitment v blinding_factor) caps =
    Outcome.◌>>=◌ (index (lookup attr r_tildes)) (λ r_tilde. ok (record {
      m_caps = insert attr (m_tilde +ℤ c *ℤ v) caps.m_caps;
      r_caps = insert attr (r_tilde +ℤ c *ℤ blinding_factor) caps.r_caps;
    }))
cap_step c r_tildes attr m_tilde (CredentialValue.known v) caps = ok caps

unfoldable pub cap_loop :
    BigNumber → Map BigNumber → Map CredentialValue → Map BigNumber → Caps → UrsaCryptoResult Caps
cap_loop c r_tildes values [] caps = ok caps
cap_loop c r_tildes values ((attr, m_tilde) ∷ m_tildes) caps =
    Outcome.◌>>=◌ (ok_or (lookup attr values) invalid_structure) (λ ca.
      Outcome.◌>>=◌ (cap_step c r_tildes attr m_tilde ca caps)
        (λ caps'. cap_loop c r_tildes values m_tildes caps'))

module _ (lib : OpenSsl) where
  -- acc? * r_attr^value: what has failed before is only seen after the names were looked up.
  unfoldable pub u_step :
      CredentialPrimaryPublicKey
      → Map CredentialValue
      → String
      → UrsaCryptoResult BigNumber
      → UrsaCryptoResult BigNumber
  u_step pk values attr acc = Outcome.◌>>=◌ (ok_or (lookup attr pk.r) invalid_structure) (λ pk_r.
      Outcome.◌>>=◌ (index (lookup attr values)) (λ cred_value. Outcome.◌>>=◌ acc (λ u.
        Outcome.◌>>=◌ (mod_exp lib pk_r (value cred_value) pk.n)
          (λ power. mod_mul lib u power pk.n))))

  unfoldable pub u_loop :
      CredentialPrimaryPublicKey
      → Map CredentialValue
      → List String
      → UrsaCryptoResult BigNumber
      → UrsaCryptoResult BigNumber
  u_loop pk values [] acc = acc
  u_loop pk values (attr ∷ attrs) acc = u_loop pk values attrs (u_step pk values attr acc)

  -- The commitments to the committed attributes.
  unfoldable pub committed_loop :
      CredentialPrimaryPublicKey
      → Map CredentialValue
      → Map BigNumber
      → UrsaCryptoResult (Map BigNumber)
  committed_loop pk [] committed = ok committed
  committed_loop pk ((attr, CredentialValue.commitment v blinding_factor) ∷ values) committed =
      Outcome.◌>>=◌ (get_pedersen_commitment lib pk.s blinding_factor pk.z v pk.n)
        (λ x. committed_loop pk values (insert attr x committed))
  committed_loop pk ((attr, CredentialValue.known v) ∷ values) committed =
      committed_loop pk values committed
  committed_loop pk ((attr, CredentialValue.hidden v) ∷ values) committed =
      committed_loop pk values committed

  -- `_generate_blinded_primary_credential_secrets_factors`
  unfoldable pub generate_blinded_primary_credential_secrets_factors :
      CredentialPrimaryPublicKey → CredentialValues → Rand PrimaryBlindedCredentialSecretsFactors
  generate_blinded_primary_credential_secrets_factors pk cred_values = do
    v_prime ← bn_rand large_vprime
    let hidden_attributes = hidden_names cred_values.attrs_values
    u ← lift (u_loop pk cred_values.attrs_values hidden_attributes (mod_exp lib pk.s v_prime pk.n))
    committed_attributes ← lift (committed_loop pk cred_values.attrs_values [])
    lift (
        ok (record {
          u = u;
          v_prime = v_prime;
          hidden_attributes = hidden_attributes;
          committed_attributes = committed_attributes;
        }))

  -- One attribute of the proof's loop, after its mask was drawn and its number in the key found.
  unfoldable pub tilde_step :
      CredentialPrimaryPublicKey
      → Map BigNumber
      → String
      → CredentialValue
      → BigNumber
      → BigNumber
      → Tildes
      → Rand Tildes
  tilde_step pk committed attr (CredentialValue.hidden v) m_tilde pk_r tildes = do
    power ← lift (mod_exp lib pk_r m_tilde pk.n)
    u_tilde ← lift (mod_mul lib tildes.u_tilde power pk.n)
    lift (ok (record tildes { m_tildes = insert attr m_tilde tildes.m_tildes; u_tilde = u_tilde }))
  tilde_step pk committed attr (CredentialValue.commitment v blinding_factor) m_tilde pk_r tildes =
      do
        r_tilde ← bn_rand large_mtilde
        commitment_tilde ← lift (get_pedersen_commitment lib pk.z m_tilde pk.s r_tilde pk.n)
        ca_value ← lift (ok_or (lookup attr committed) invalid_structure)
        lift (
            ok (record tildes {
              m_tildes = insert attr m_tilde tildes.m_tildes;
              r_tildes = insert attr r_tilde tildes.r_tildes;
              values = tildes.values ++ (commitment_tilde ∷ ca_value ∷ []);
            }))
  tilde_step pk committed attr (CredentialValue.known v) m_tilde pk_r tildes =
      lift (ok (record tildes { m_tildes = insert attr m_tilde tildes.m_tildes }))

  unfoldable pub tilde_loop :
      CredentialPrimaryPublicKey → Map BigNumber → Map CredentialValue → Tildes → Rand Tildes
  tilde_loop pk committed [] tildes = lift (ok tildes)
  tilde_loop pk committed ((attr, cred_value) ∷ values) tildes =
      elim (is_hidden cred_value || is_commitment cred_value) [
        | true ↦ do
          m_tilde ← bn_rand large_mtilde
          pk_r ← lift (ok_or (lookup attr pk.r) invalid_structure)
          tildes' ← tilde_step pk committed attr cred_value m_tilde pk_r tildes
          tilde_loop pk committed values tildes'
        | false ↦ tilde_loop pk committed values tildes
      ]

  -- `_new_blinded_credential_secrets_correctness_proof`
  unfoldable pub new_blinded_credential_secrets_correctness_proof :
      CredentialPrimaryPublicKey
      → PrimaryBlindedCredentialSecretsFactors
      → BigNumber
      → CredentialValues
      → Rand BlindedCredentialSecretsCorrectnessProof
  new_blinded_credential_secrets_correctness_proof pk blinded nonce cred_values = do
    v_dash_tilde ← bn_rand large_vprime_tilde
    start ← lift (mod_exp lib pk.s v_dash_tilde pk.n)
    tildes ←
        tilde_loop pk blinded.committed_attributes cred_values.attrs_values
          (record { m_tildes = []; r_tildes = []; values = []; u_tilde = start })
    let hashed = concat_bytes lib (tildes.values ++ (blinded.u ∷ tildes.u_tilde ∷ nonce ∷ []))
    c ← lift (get_hash_as_int lib (hashed ∷ []))
    caps ← lift (
        cap_loop c tildes.r_tildes cred_values.attrs_values tildes.m_tildes
          (record { m_caps = []; r_caps = [] }))
    lift (
        ok (record {
          c = c;
          v_dash_cap = c *ℤ blinded.v_prime +ℤ v_dash_tilde;
          m_caps = caps.m_caps;
          r_caps = caps.r_caps;
        }))

  -- acc? * r_attr^m_cap
  unfoldable pub u_cap_step :
      CredentialPrimaryPublicKey
      → Map BigNumber
      → String
      → UrsaCryptoResult BigNumber
      → UrsaCryptoResult BigNumber
  u_cap_step pk m_caps attr acc =
      Outcome.◌>>=◌ (ok_or (lookup attr pk.r) invalid_structure) (λ pk_r.
        Outcome.◌>>=◌ (index (lookup attr m_caps)) (λ m_cap.
          Outcome.◌>>=◌ acc
            (λ u. Outcome.◌>>=◌ (mod_exp lib pk_r m_cap pk.n) (λ power. mod_mul lib u power pk.n))))

  unfoldable pub u_cap_loop :
      CredentialPrimaryPublicKey
      → Map BigNumber
      → List String
      → UrsaCryptoResult BigNumber
      → UrsaCryptoResult BigNumber
  u_cap_loop pk m_caps [] acc = acc
  u_cap_loop pk m_caps (attr ∷ attrs) acc =
      u_cap_loop pk m_caps attrs (u_cap_step pk m_caps attr acc)

  -- The commitments computed back, each with the commitment.
  unfoldable pub commitment_cap_loop :
      CredentialPrimaryPublicKey
      → BlindedCredentialSecretsCorrectnessProof
      → Map BigNumber
      → UrsaCryptoResult (List BigNumber)
  commitment_cap_loop pk proof [] = ok []
  commitment_cap_loop pk proof ((key, x) ∷ committed) =
      Outcome.◌>>=◌ (index (lookup key proof.m_caps)) (λ m_cap.
        Outcome.◌>>=◌ (inverse lib x pk.n) (λ x_inverse.
          Outcome.◌>>=◌ (mod_exp lib x_inverse proof.c pk.n) (λ x_power.
            Outcome.◌>>=◌ (index (lookup key proof.r_caps)) (λ r_cap.
              Outcome.◌>>=◌ (get_pedersen_commitment lib pk.z m_cap pk.s r_cap pk.n) (λ commitment.
                Outcome.◌>>=◌ (mod_mul lib x_power commitment pk.n) (λ comm_att_cap.
                  Outcome.◌>>=◌ (commitment_cap_loop pk proof committed)
                    (λ later. ok (comm_att_cap ∷ x ∷ later))))))))

  -- `_check_blinded_credential_secrets_correctness_proof`, of u, the hidden and the committed
  -- attributes of the blinded secrets.
  unfoldable pub check_blinded_credential_secrets_correctness_proof :
      BigNumber
      → List String
      → Map BigNumber
      → BlindedCredentialSecretsCorrectnessProof
      → BigNumber
      → CredentialPrimaryPublicKey
      → UrsaCryptoResult (Unit {0})
  check_blinded_credential_secrets_correctness_proof u hidden committed proof nonce pk =
      Outcome.◌>>=◌ (inverse lib u pk.n) (λ u_inverse.
        Outcome.◌>>=◌ (mod_exp lib u_inverse proof.c pk.n) (λ u_power.
          Outcome.◌>>=◌ (mod_exp lib pk.s proof.v_dash_cap pk.n) (λ s_power.
            Outcome.◌>>=◌ (u_cap_loop pk proof.m_caps hidden (mod_mul lib u_power s_power pk.n))
              (λ u_cap. Outcome.◌>>=◌ (commitment_cap_loop pk proof committed) (λ values.
                Outcome.◌>>=◌
                  (get_hash_as_int lib (concat_bytes lib (values ++ (u ∷ u_cap ∷ nonce ∷ [])) ∷ []))
                  (λ c. fail_if (not (proof.c ==ℤ c)) invalid_structure))))))
