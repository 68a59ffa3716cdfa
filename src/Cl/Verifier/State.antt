-- ===== src/Cl/Verifier/State.antt =====
-- Code that changes the verifier's map of common attributes and may fail: what `&mut self` has
-- changed stays changed when the call returns an error.
use smartchaindb_experiment.Base.{Option, ◌≡◌, refl, ap}
use smartchaindb_experiment.Base.Outcome.{UrsaCryptoResult, ok, err, panicked}
use smartchaindb_experiment.Base.Maps.{Map}
use smartchaindb_experiment.Bn.{BigNumber}

-- The value for each common attribute, none before the first sub proof.
abbrev pub Common : Type 0
Common = Map (Option BigNumber)

abbrev pub Stateful {ℓ} : Type ℓ → Type ℓ
Stateful A = Common → UrsaCryptoResult A × Common

-- The rest of a call, unless it was left with an error.
abbrev pub continue {ℓ κ} :
    {A : Type ℓ} {B : Type κ}
    → UrsaCryptoResult A
    → Common
    → (A → Stateful B)
    → UrsaCryptoResult B × Common
continue (ok a) common rest = rest a common
continue (err kind) common rest = (err kind, common)
continue panicked common rest = (panicked, common)

infixl 5 ◌>>=◌
abbrev pub ◌>>=◌ {ℓ κ} : {A : Type ℓ} {B : Type κ} → Stateful A → (A → Stateful B) → Stateful B
(call >>= rest) common = continue (call common).0 (call common).1 rest

-- A step that does not change the map.
abbrev pub keep {ℓ} : {A : Type ℓ} → UrsaCryptoResult A → Stateful A
keep result common = (result, common)

continue-ok {ℓ κ} :
    {A : Type ℓ} {B : Type κ} (result : UrsaCryptoResult A) (common : Common)
    → (rest : A → Stateful B) (after : Common) (b : B) → continue result common rest ≡ (ok b, after)
    → (a : A) × (result ≡ ok a) × (rest a common ≡ (ok b, after))
continue-ok (ok a) common rest after b h = (a, refl, h)
continue-ok (err kind) common rest after b h = cc
continue-ok panicked common rest after b h = cc

-- A call that returns has returned from each of its steps.
pub bind-ok {ℓ κ} :
    {A : Type ℓ} {B : Type κ} (call : Stateful A) (rest : A → Stateful B)
    → (common after : Common) (b : B) → (call >>= rest) common ≡ (ok b, after)
    → (a : A) × (between : Common) × (call common ≡ (ok a, between))
      × (rest a between ≡ (ok b, after))
bind-ok call rest common after b h =
    let (a, e, h') = continue-ok (call common).0 (call common).1 rest after b h in
    (a, (call common).1, ap (λ r. (r, (call common).1)) e, h')

-- Nor has a step that does not change the map changed it.
pub keep-ok {ℓ κ} :
    {A : Type ℓ} {B : Type κ} (result : UrsaCryptoResult A) (rest : A → Stateful B)
    → (common after : Common) (b : B) → (keep result >>= rest) common ≡ (ok b, after)
    → (a : A) × (result ≡ ok a) × (rest a common ≡ (ok b, after))
keep-ok result rest common after b h = continue-ok result common rest after b h
