-- ===== src/Configuration/Control.antt =====
-- What the controller of runtime/configuration_activation.py works with: the stores of one scope, which other
-- processes change too, and the bindings and catalogs behind its interfaces, over an unknown state W.
use justflow.Common.{ℕ, String, Option, List}
use justflow.Common.Dict.{Dict}
use justflow.Configuration.Results.{ControlError, Result, ok, err}
use justflow.Configuration.Records.{ActivationRecord, ExternalOutcome, WorkerReadiness}
use justflow.Configuration.Store.{ActivationRow, ConfigurationStore, ActivePointer}

pub record ControlState (W : Type 0) : Type 0 where
  pub rows : Dict ActivationRow
  pub configuration : ConfigurationStore
  pub world : W

-- Code that may change the state and may raise.
abbrev pub Control : Type 0 → Type 0 → Type 0
Control W A = ControlState W → ControlState W × Result A

module _ {W : Type 0} where
  abbrev pub pure : {A : Type 0} → A → Control W A
  pure a s = (s, ok a)

  abbrev pub raise : {A : Type 0} → ControlError → Control W A
  raise e s = (s, err e)

  abbrev pub lift : {A : Type 0} → Result A → Control W A
  lift m s = (s, m)

  abbrev pub after :
      {A B : Type 0} → ControlState W × Result A → (A → Control W B) → ControlState W × Result B
  after (s, ok a) f = f a s
  after (s, err e) f = (s, err e)

  infixl 5 ◌>>=◌ ◌>>◌
  abbrev pub ◌>>=◌ : {A B : Type 0} → Control W A → (A → Control W B) → Control W B
  (x >>= f) s = after (x s) f

  abbrev pub ◌>>◌ : {A B : Type 0} → Control W A → Control W B → Control W B
  x >> y = x >>= λ _. y

  abbrev pub handled :
      {A : Type 0}
      → ControlState W × Result A
      → (ControlError → Control W A)
      → ControlState W × Result A
  handled (s, ok a) handler = (s, ok a)
  handled (s, err e) handler = handler e s

  -- `try: body` and `except` clauses, which `handler` tells apart
  abbrev pub try_except : {A : Type 0} → Control W A → (ControlError → Control W A) → Control W A
  try_except x handler s = handled (x s) handler

pub record ExternalConfirmation : Type 0 where
  pub outcome : ExternalOutcome
  pub observation_digest : String

-- the manifests and the snapshots that a scope's catalog gets
pub record Assignment : Type 0 where
  pub scope : String
  pub manifests : List String
  pub environment_snapshots : List String

-- PreparedActivation and PreparedWorkerDeployment
pub record Prepared : Type 0 where
  pub revision_id : String
  pub policy_digest : String
  pub artifact : String
  pub task_queue_identity_digest : String
  pub registration_digest : String
  pub definition_digests : List String
  pub aliases : Dict String
  pub assignments : List Assignment

pub record WorkerBinding (W : Type 0) : Type 0 where
  pub rollout : Prepared → (plan_digest : String) → Control W ExternalConfirmation
  pub readiness : Prepared → Control W (Option WorkerReadiness)
  pub route : Prepared → (plan_digest : String) → Control W ExternalConfirmation

-- `turn` is what happens before a transaction of a store: the changes of other processes, or an error of
-- SQLite. The digests are `provenance_digest` of what they are named for.
pub record ControlEnvironment (W : Type 0) : Type 0 where
  pub scope_digest : String
  pub controller_digest : String
  pub lease_duration : ℕ
  pub record_size : ActivationRecord → ℕ
  pub turn : Control W (Unit {0})
  pub now : Control W ℕ
  -- `read_revision`, `prepare` and `prepare_worker_deployment`
  pub prepare : (revision_id : String) → Control W Prepared
  pub store_definition_manifest : (scope manifest : String) → Control W (Unit {0})
  pub store_environment_snapshot : (scope snapshot : String) → Control W (Unit {0})
  pub inspect_aliases : Control W (Dict String × Option String)
  pub replace_aliases : Dict String → (expected_version : Option String) → Control W (Option String)
  pub worker_binding : Option (WorkerBinding W)
  pub reconcile_schedules : Option (Prepared → Control W ExternalConfirmation)
  pub replace_index : Prepared → Control W (Unit {0})
  pub definitions_digest : Prepared → String
  pub readiness_digest : WorkerReadiness → String
  pub aliases_digest : Dict String → Option String → String
  pub pointer_digest : ActivePointer → String
  pub index_digest : Prepared → String
