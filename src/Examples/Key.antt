-- ===== src/Examples/Key.antt =====
-- A public key modulo 35, a signature under it and a request: the inputs of the applied theorems.
use text.Mathlib.Text.{◌==◌}
use smartchaindb_experiment.Base.{String, [], ◌∷◌, ◌≡◌, refl, some, arith, if◌then◌else◌}
use smartchaindb_experiment.Base.Int.{pos}
use smartchaindb_experiment.Base.Maps.{lookup}
use smartchaindb_experiment.Group.{zpow, prod, npow, ratio}
use smartchaindb_experiment.Bn.{BigNumber, Residues}
use smartchaindb_experiment.Cl.Types.{
  CredentialSchema, NonCredentialSchema, CredentialValue, CredentialValues, PredicateType,
  CredentialPrimaryPublicKey, PrimaryCredentialSignature, SubProofRequest, value,
}
use smartchaindb_experiment.Cl.Credential.{value_at, IsSigned, IsConsistent}
use smartchaindb_experiment.Cl.Teq.Laws.{KeyRep, teq_product}
use smartchaindb_experiment.Examples.Zmod.{
  zmod, zmod_residues, Invertible, unit_one, unit_group, residue, residue-pos,
}

abbrev pub Unit35 : Type 0
Unit35 = Invertible 35

abbrev pub s_unit : Unit35
s_unit = record {
  value = 4;
  inverse_value = 9;
  value_lt = omega arith;
  inverse_lt = omega arith;
  cancel = refl;
}

abbrev pub rctxt_unit : Unit35
rctxt_unit = record {
  value = 16;
  inverse_value = 11;
  value_lt = omega arith;
  inverse_lt = omega arith;
  cancel = refl;
}

abbrev pub age_unit : Unit35
age_unit = record {
  value = 9;
  inverse_value = 4;
  value_lt = omega arith;
  inverse_lt = omega arith;
  cancel = refl;
}

abbrev pub name_unit : Unit35
name_unit = record {
  value = 11;
  inverse_value = 16;
  value_lt = omega arith;
  inverse_lt = omega arith;
  cancel = refl;
}

abbrev pub secret_unit : Unit35
secret_unit = record {
  value = 29;
  inverse_value = 29;
  value_lt = omega arith;
  inverse_lt = omega arith;
  cancel = refl;
}

abbrev pub r_unit : String → Unit35
r_unit k =
    if "age" == k
    then age_unit
    else if "name" == k
    then name_unit
    else if "master_secret" == k
    then secret_unit
    else unit_one 33

abbrev pub schema : CredentialSchema
schema = record { attrs = "age" ∷ "name" ∷ [] }

abbrev pub non_schema : NonCredentialSchema
non_schema = record { attrs = "master_secret" ∷ [] }

abbrev pub values : CredentialValues
values = record {
  attrs_values =
      ("age", CredentialValue.known (pos 28))
      ∷ ("name", CredentialValue.known (pos 7))
      ∷ ("master_secret", CredentialValue.hidden (pos 5))
      ∷ [];
}

abbrev pub signature : PrimaryCredentialSignature
signature = record { m_2 = pos 2; a = pos 11; e = pos 5; v = pos 4 }

-- Z is the product that the signature is on.
unfoldable pub z_unit : Unit35
z_unit =
    let g = unit_group 33 in
    g.◌⊙◌ (zpow g rctxt_unit (pos 2)) (
      g.◌⊙◌ (zpow g s_unit (pos 4)) (
        g.◌⊙◌
          (prod g (λ k. zpow g (r_unit k) (value_at values.attrs_values k))
            ("age" ∷ "name" ∷ "master_secret" ∷ []))
          (zpow g name_unit (pos 5))))

abbrev pub pk : CredentialPrimaryPublicKey
pk = record {
  n = pos 35;
  s = pos 4;
  r = ("age", pos 9) ∷ ("name", pos 11) ∷ ("master_secret", pos 29) ∷ [];
  rctxt = pos 16;
  z = pos 4;
}

abbrev pub residues : Residues zmod pk.n
residues = zmod_residues 33

pub pk_r-Rep : (k : String) (x : BigNumber) → lookup k pk.r ≡ some x → residues.Rep x (r_unit k)
pk_r-Rep k x h = ground (
  arith,
  residue-pos 33 9 (omega arith),
  residue-pos 33 11 (omega arith),
  residue-pos 33 29 (omega arith),
)

pub z_unit-Rep : residues.Rep (pos 4) z_unit
unfolding residue z_unit prod zpow ratio npow value_at value
z_unit-Rep = refl

abbrev pub key : KeyRep zmod pk residues
key = record {
  z = z_unit;
  s = s_unit;
  rctxt = rctxt_unit;
  r = r_unit;
  z-Rep = z_unit-Rep;
  s-Rep = residue-pos 33 4 (omega arith);
  rctxt-Rep = residue-pos 33 16 (omega arith);
  r-Rep = pk_r-Rep;
}

abbrev pub request : SubProofRequest
request = record {
  revealed_attrs = "name" ∷ [];
  predicates = record { attr_name = "age"; p_type = PredicateType.ge; bound = pos 18 } ∷ [];
}

pub signed :
    IsSigned zmod pk residues key signature values.attrs_values
      ("age" ∷ "name" ∷ "master_secret" ∷ [])
unfolding z_unit teq_product
signed = record { a = name_unit; a-Rep = residue-pos 33 11 (omega arith); signed = refl }

pub consistent : IsConsistent pk schema non_schema values.attrs_values request
consistent = record {
  cred_distinct = (refl, (refl, tt));
  non_cred_distinct = (refl, tt);
  revealed_distinct = (refl, tt);
  revealed_known = refl;
  in_key = λ k h. h;
  in_values = λ k h. h;
}
