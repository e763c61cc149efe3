-- ===== src/Configuration/Results.antt =====
-- The exceptions of configuration/activation_errors.py, configuration/errors.py, definitions/catalog.py
-- and runtime/configuration_activation.py as one data type, and the results of code that may raise.
use mathlib.Core.Path.{subst}
use justflow.Common.{ℕ, ◌≡◌, refl, Bool, true, false}

-- configuration/activation.py
pub data OutcomeCode : Type 0 where
  definitions_unavailable worker_unavailable schedules_unavailable routing_unavailable
        configuration_conflict stale_plan internal_error :
      OutcomeCode

-- ActivationNotFoundError, ActivationConflictError, ActivationIntegrityError, ActivationUnavailableError,
-- ActivationLimitError and ActivationControllerError are ActivationErrors; a ConfigurationError or a
-- CatalogError is a conflict or another one.
pub data ControlError : Type 0 where
  value_error : ControlError
  not_found conflict integrity unavailable limit : ControlError
  controller : OutcomeCode → (retryable : Bool) → ControlError
  configuration_conflict_error configuration_error catalog_conflict_error catalog_error :
      ControlError
  external : ℕ → ControlError

pub data Result {ℓ} (A : Type ℓ) : Type ℓ where
  ok : A → Result A
  err : ControlError → Result A

infixl 5 ◌>>=◌
abbrev pub ◌>>=◌ {ℓ κ} : {A : Type ℓ} {B : Type κ} → Result A → (A → Result B) → Result B
err e >>= after = err e
ok v >>= after = after v

infixl 5 ◌>>◌
abbrev pub ◌>>◌ {ℓ} : {B : Type ℓ} → Result (Unit {0}) → Result B → Result B
first >> second = first >>= λ _. second

-- `if not holds: raise error`
abbrev pub guard : (holds : Bool) → ControlError → Result (Unit {0})
guard true e = ok tt
guard false e = err e

-- What holds of the value, if there is one.
abbrev pub Ensures {ℓ κ} : {A : Type ℓ} → (A → Type κ) → Result A → Type κ
Ensures P (ok a) = P a
Ensures P (err e) = Unit

pub >>=-eq-ok {ℓ κ} :
    {A : Type ℓ} {B : Type κ} (m : Result A) (after : A → Result B) {w : B}
    → (m >>= after) ≡ ok w
    → (v : A) × (m ≡ ok v) × (after v ≡ ok w)
>>=-eq-ok (err e) after h = cc
>>=-eq-ok (ok v) after h = (v, refl, h)

-- a guarded result is there only if the test holds
pub guard->> {ℓ} :
    {B : Type ℓ} (b : Bool) (e : ControlError) (m : Result B) {w : B}
    → (guard b e >> m) ≡ ok w
    → (b ≡ true) × (m ≡ ok w)
guard->> true e m h = (refl, h)
guard->> false e m h = cc

pub Ensures_ok {ℓ κ} :
    {A : Type ℓ} (P : A → Type κ) (m : Result A) {a : A} → Ensures P m → m ≡ ok a → P a
Ensures_ok P m h e = subst (Ensures P) e h

pub ok-inj {ℓ} : {A : Type ℓ} {a b : A} → ok a ≡ ok b → a ≡ b
ok-inj e = cc
