-- ===== src/Cl/Types.antt =====
-- The data of the CL protocols (ursa_Master/libursa/src/cl/mod.rs) and their constants
-- (libursa/src/cl/constants.rs).
use smartchaindb_experiment.Base.{ℕ, String, Bool, true, false, List, ◌^◌}
use smartchaindb_experiment.Base.Int.{ℤ, pos}
use smartchaindb_experiment.Base.Maps.{Map}
use smartchaindb_experiment.Bn.{BigNumber, Bytes}

-- Sizes in bits.
abbrev pub large_e_start : ℕ
large_e_start = 596

abbrev pub large_vprime : ℕ
large_vprime = 2128

abbrev pub large_mvect : ℕ
large_mvect = 592

abbrev pub large_etilde : ℕ
large_etilde = 456

abbrev pub large_vtilde : ℕ
large_vtilde = 3060

abbrev pub large_utilde : ℕ
large_utilde = 592

abbrev pub large_rtilde : ℕ
large_rtilde = 672

abbrev pub large_alphatilde : ℕ
large_alphatilde = 2787

-- `LARGE_E_START_VALUE`, which `BIGNUMBER_2.exp` computes once. Shut: no proof needs its digits.
unfoldable pub large_e_start_value : BigNumber
large_e_start_value = pos (2 ^ large_e_start)

pub record CredentialSchema : Type 0 where
  pub attrs : List String

pub record NonCredentialSchema : Type 0 where
  pub attrs : List String

pub data CredentialValue : Type 0 where
  -- Issuer and Prover know these.
  known : BigNumber → CredentialValue
  -- Only the Prover knows these; they are bound into U.
  hidden : BigNumber → CredentialValue
  -- The value and its blinding factor; not included in the credential.
  commitment : BigNumber → BigNumber → CredentialValue

unfoldable pub is_known : CredentialValue → Bool
is_known (CredentialValue.known v) = true
is_known _ = false

unfoldable pub is_hidden : CredentialValue → Bool
is_hidden (CredentialValue.hidden v) = true
is_hidden _ = false

unfoldable pub is_commitment : CredentialValue → Bool
is_commitment (CredentialValue.commitment v b) = true
is_commitment _ = false

unfoldable pub value : CredentialValue → BigNumber
value (CredentialValue.known v) = v
value (CredentialValue.hidden v) = v
value (CredentialValue.commitment v b) = v

pub record CredentialValues : Type 0 where
  pub attrs_values : Map CredentialValue

pub record CredentialPrimaryPublicKey : Type 0 where
  pub n : BigNumber
  pub s : BigNumber
  pub r : Map BigNumber
  pub rctxt : BigNumber
  pub z : BigNumber

pub record CredentialPrimaryPrivateKey : Type 0 where
  pub p : BigNumber
  pub q : BigNumber

pub record PrimaryCredentialSignature : Type 0 where
  pub m_2 : BigNumber
  pub a : BigNumber
  pub e : BigNumber
  pub v : BigNumber

pub record SignatureCorrectnessProof : Type 0 where
  pub se : BigNumber
  pub c : BigNumber

pub data PredicateType : Type 0 where
  ge le gt lt : PredicateType

-- `value` is an `i32`.
pub record Predicate : Type 0 where
  pub attr_name : String
  pub p_type : PredicateType
  pub bound : ℤ

pub record SubProofRequest : Type 0 where
  pub revealed_attrs : List String
  pub predicates : List Predicate

pub record PrimaryEqualInitProof : Type 0 where
  pub a_prime : BigNumber
  pub t : BigNumber
  pub e_tilde : BigNumber
  pub e_prime : BigNumber
  pub v_tilde : BigNumber
  pub v_prime : BigNumber
  pub m_tilde : Map BigNumber
  pub m2_tilde : BigNumber
  pub m2 : BigNumber

pub record PrimaryEqualProof : Type 0 where
  pub revealed_attrs : Map BigNumber
  pub a_prime : BigNumber
  pub e : BigNumber
  pub v : BigNumber
  pub m : Map BigNumber
  pub m2 : BigNumber

pub record PrimaryPredicateInequalityInitProof : Type 0 where
  pub c_list : List BigNumber
  pub tau_list : List BigNumber
  pub u : Map BigNumber
  pub u_tilde : Map BigNumber
  pub r : Map BigNumber
  pub r_tilde : Map BigNumber
  pub alpha_tilde : BigNumber
  pub predicate : Predicate
  pub t : Map BigNumber

pub record PrimaryPredicateInequalityProof : Type 0 where
  pub u : Map BigNumber
  pub r : Map BigNumber
  pub mj : BigNumber
  pub alpha : BigNumber
  pub t : Map BigNumber
  pub predicate : Predicate

pub record PrimaryProof : Type 0 where
  pub eq_proof : PrimaryEqualProof
  pub ne_proofs : List PrimaryPredicateInequalityProof

pub record AggregatedProof : Type 0 where
  pub c_hash : BigNumber
  pub c_list : List Bytes
