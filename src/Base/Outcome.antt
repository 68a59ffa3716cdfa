-- ===== src/Base/Outcome.antt =====
-- `UrsaCryptoResult` and its error kinds (ursa_Master/libursa/src/errors/mod.rs). A message is a
-- text for people: only its kind is kept. A panic of the Rust code (an index out of bounds, a
-- missing key under `map[key]`) is the outcome `panicked`.
use Prim.Native.Nat.{ℕ}
use mathlib.Core.Path.{◌≡◌, refl}
use mathlib.Core.Bool.{Bool, true, false}
use mathlib.Core.Option.{Option, none, some}

pub data UrsaCryptoErrorKind : Type 0 where
  invalid_state invalid_structure io_error proof_rejected : UrsaCryptoErrorKind
  revocation_accumulator_is_full invalid_revocation_accumulator_index : UrsaCryptoErrorKind
  credential_revoked : UrsaCryptoErrorKind
  invalid_param : ℕ → UrsaCryptoErrorKind

pub data UrsaCryptoResult {ℓ} (A : Type ℓ) : Type ℓ where
  ok : A → UrsaCryptoResult A
  err : UrsaCryptoErrorKind → UrsaCryptoResult A
  panicked : UrsaCryptoResult A

-- `m?` and the code after it.
infixl 5 ◌>>=◌ ◌>>◌
abbrev pub ◌>>=◌ {ℓ κ} :
    {A : Type ℓ} {B : Type κ} → UrsaCryptoResult A → (A → UrsaCryptoResult B) → UrsaCryptoResult B
panicked >>= after = panicked
err kind >>= after = err kind
ok x >>= after = after x

-- `m?;`
abbrev pub ◌>>◌ {ℓ} :
    {B : Type ℓ} → UrsaCryptoResult (Unit {0}) → UrsaCryptoResult B → UrsaCryptoResult B
panicked >> after = panicked
err kind >> after = err kind
ok done >> after = after

-- `if c { return Err(kind) }`
abbrev pub fail_if : Bool → UrsaCryptoErrorKind → UrsaCryptoResult (Unit {0})
fail_if true e = err e
fail_if false e = ok tt

-- `option.ok_or_else(|| kind)?`
abbrev pub ok_or {ℓ} : {A : Type ℓ} → Option A → UrsaCryptoErrorKind → UrsaCryptoResult A
ok_or none e = err e
ok_or (some a) e = ok a

-- `map[key]`, which panics when the key is missing
abbrev pub index {ℓ} : {A : Type ℓ} → Option A → UrsaCryptoResult A
index none = panicked
index (some a) = ok a

pub fail_if-eq-ok : (c : Bool) (e : UrsaCryptoErrorKind) → fail_if c e ≡ ok tt → c ≡ false
fail_if-eq-ok true e h = cc
fail_if-eq-ok false e h = refl
