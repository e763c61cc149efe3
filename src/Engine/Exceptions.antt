-- ===== src/Engine/Exceptions.antt =====
-- The exceptions of src/justflow/engine, as one data type, and the results of code that may raise.
-- An exception carries its class and the attributes that the code reads; the message texts, which
-- nothing branches on, are left out.
use mathlib.Core.Path.{subst, fun_ext, ap}
use justflow.Common.{ℕ, ◌≡◌, ◌≢◌, refl, Bool, true, false, ◌⊎◌, inl, inr}

-- engine/limits.py
pub data LimitKind : Type 0 where
  payload_bytes collection_items fanout_items parallelism loop_attempts total_invocations :
      LimitKind
  queued_messages queued_message_bytes : LimitKind

-- engine/errors.py
pub data FlowErrorKind : Type 0 where
  resolution_error loop_exhausted missing_params wait_timeout invariant_violation : FlowErrorKind
  unsafe_loop_cache : FlowErrorKind

-- why a ConditionEvaluationError is raised (engine/evaluator.py)
pub data Reason : Type 0 where
  not_a_condition invalid_data malformed_node unknown_root bad_path not_comparable no_length :
      Reason

pub data Raised : Type 0 where
  limit_exceeded : (kind : LimitKind) (actual limit : ℕ) → Raised
  data_normalization data_path reference_syntax placeholder_syntax reference_resolution : Raised
  expression_syntax : Raised
  condition_evaluation : Reason → Raised
  flow_definition : FlowErrorKind → Raised
  strict_json key_error index_error type_error value_error : Raised
  -- FlowContinuation and _HandlerFailure of engine/runner.py, FlowExecutionError of engine/errors.py, and
  -- an exception that is_cancellation accepts
  flow_continuation handler_failure flow_execution cancelled : Raised
  -- an exception of code behind an interface, by its identity
  external : ℕ → Raised

pub data Result {ℓ} (A : Type ℓ) : Type ℓ where
  ok : A → Result A
  err : Raised → Result A

-- `if not holds: raise exception`
abbrev pub guard : (holds : Bool) (exception : Raised) → Result (Unit {0})
guard false exception = err exception
guard true exception = ok tt

-- What holds of the value, if there is one.
abbrev pub Ensures {ℓ κ} : {A : Type ℓ} → (A → Type κ) → Result A → Type κ
Ensures P (ok a) = P a
Ensures P (err e) = Unit

pub Result-cases {ℓ} :
    {A : Type ℓ} (m : Result A) → ((a : A) × (m ≡ ok a)) ⊎ ((e : Raised) × (m ≡ err e))
Result-cases (ok a) = inl (a, refl)
Result-cases (err e) = inr (e, refl)

-- one statement after another: an exception skips what follows
infixl 5 ◌>>=◌
abbrev pub ◌>>=◌ {ℓ κ} : {A : Type ℓ} {B : Type κ} → Result A → (A → Result B) → Result B
err e >>= after = err e
ok v >>= after = after v

pub >>=-eq-ok {ℓ κ} :
    {A : Type ℓ} {B : Type κ} (m : Result A) (after : A → Result B) {w : B}
    → (m >>= after) ≡ ok w
    → (v : A) × (m ≡ ok v) × (after v ≡ ok w)
>>=-eq-ok (err e) after h = cc
>>=-eq-ok (ok v) after h = (v, refl, h)

infixl 5 ◌>>◌
abbrev pub ◌>>◌ {ℓ} : {B : Type ℓ} → Result (Unit {0}) → Result B → Result B
first >> second = first >>= λ _. second

pub >>=-eq-err {ℓ κ} :
    {A : Type ℓ} {B : Type κ} (m : Result A) (f : A → Result B) (e : Raised)
    → m ≢ err e
    → ((a : A) → m ≡ ok a → f a ≢ err e)
    → (m >>= f) ≢ err e
>>=-eq-err (ok a) f e hm hf = hf a refl
>>=-eq-err (err e') f e hm hf = λ p. hm (cc)

pub guard-true : (b : Bool) (e : Raised) → guard b e ≡ ok tt → b ≡ true
guard-true true e h = refl
guard-true false e h = cc

pub >>-eq-ok : (m k : Result (Unit {0})) → (m >> k) ≡ ok tt → (m ≡ ok tt) × (k ≡ ok tt)
>>-eq-ok (ok a) k h = (refl, h)
>>-eq-ok (err e) k h = cc

pub Ensures->>= {ℓ κ ℓ' κ'} :
    {A : Type ℓ} {B : Type κ} (P : A → Type ℓ') (Q : B → Type κ') (m : Result A) (f : A → Result B)
    → Ensures P m
    → ((a : A) → P a → Ensures Q (f a))
    → Ensures Q (m >>= f)
Ensures->>= P Q (ok a) f h k = k a h
Ensures->>= P Q (err e) f h k = tt

pub Ensures_ok {ℓ κ} :
    {A : Type ℓ} (P : A → Type κ) (m : Result A) {a : A} → Ensures P m → m ≡ ok a → P a
Ensures_ok P m h e = subst (Ensures P) e h

pub bind_cong {ℓ κ} :
    {A : Type ℓ} {B : Type κ} {m n : Result A} {f g : A → Result B}
    → m ≡ n
    → ((a : A) → f a ≡ g a)
    → (m >>= f) ≡ (n >>= g)
bind_cong {n = n} {f = f} e h = rw e (ap (λ k. n >>= k) (fun_ext h))
