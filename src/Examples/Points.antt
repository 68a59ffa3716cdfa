-- ===== src/Examples/Points.antt =====
-- A small group for the points of a curve: the invertible residues modulo 35, with numbers for the
-- scalars.
use smartchaindb_experiment.Base.{ℕ, ◌+◌, ◌*◌, ◌^◌, ◌%◌, [], ◌∷◌}
use smartchaindb_experiment.Base.Int.{◌==ℤ◌, ==ℤ→eq, ==ℤ_refl}
use smartchaindb_experiment.Base.Outcome.{UrsaCryptoResult, ok}
use smartchaindb_experiment.Group.{npow}
use smartchaindb_experiment.Bn.{Bytes}
use smartchaindb_experiment.Cl.Revocation.Delta.{Points}
use smartchaindb_experiment.Cl.Revocation.Tails.{Scalars, transform_u32_to_array_of_u8}
use smartchaindb_experiment.Examples.Key.{residues, Unit35, s_unit}

abbrev pub points : Points
points = record {
  group = residues.group;
  same = λ a b. residues.val a ==ℤ residues.val b;
  same_refl = λ a. ==ℤ_refl (residues.val a);
  same→eq = λ a b h. residues.val_injective a b (==ℤ→eq (residues.val a) (residues.val b) h);
}

abbrev pub number_of : Bytes → ℕ → ℕ
number_of [] acc = acc
number_of (b ∷ bs) acc = number_of bs (acc * 256 + b)

abbrev pub scalars : Scalars points
scalars = record {
  GroupOrderElement = ℕ;
  from_bytes = λ bytes. ok (number_of bytes 0);
  pow_mod = λ x k. ok ((x ^ k) % 11);
  point_mul = λ p k. ok (npow residues.group p k);
}

-- The tail of an index, for the base point 4 and the secret 2.
abbrev pub tail : ℕ → Unit35
tail i = npow residues.group s_unit ((2 ^ number_of (transform_u32_to_array_of_u8 i) 0) % 11)

abbrev pub access : ℕ → UrsaCryptoResult Unit35
access i = ok (tail i)
