-- ===== src/Configuration/Controller.antt =====
-- ConfigurationActivationController of runtime/configuration_activation.py: `resume`, `register_readiness` and
-- the steps that they take, as sequences of its calls. The metrics of `_observe` are left out.
pub mod Steps
pub mod Routing
pub mod Keeping
pub mod Extending
pub mod Operations
pub mod Safety
pub mod Carrying
pub mod Resuming
pub mod Pointer
pub mod Effects
pub mod Resume
use text.Mathlib.Text.{◌==◌ as str_eq}
use justflow.Common.{
  ℕ, ◌+◌, String, Bool, true, false, not, ◌&&◌, ◌||◌, Option, none, some, List, [], ◌∷◌, ◌==◌,
  if◌then◌else◌,
}
use justflow.Common.Dict.{Dict}
use justflow.Configuration.Results.{
  OutcomeCode, definitions_unavailable, worker_unavailable, schedules_unavailable,
  routing_unavailable, configuration_conflict, stale_plan, internal_error, ControlError,
  value_error, conflict, integrity, controller, configuration_conflict_error, configuration_error,
  catalog_conflict_error, catalog_error, Result, ok, err, unavailable, not_found, limit, external,
}
use justflow.Configuration.Records.{
  ActivationState, CheckpointKind, ExternalOutcome, ActivationPlan, ActivationTransition,
  ActivationCheckpoint, WorkerReadiness, ActivationRecord, max_activation_history, max_checkpoints,
  state_code, same_state, kind_code, same_kind, is_present, same_presence, ends_at, continues,
  is_history, has_checkpoint, are_numbered, are_unique, needs_outcome, is_valid, validated, pending,
  running, waiting_for_readiness, applied, failed, superseded, rolled_back, definitions,
  worker_rollout, worker_readiness, schedules, catalog_routing, worker_routing, active_pointer,
  runtime_index, confirmed, idempotent,
}
use justflow.Configuration.Activation.{
  allows, or_released, transitioned, transition_activation, find_checkpoint, same_outcome,
  checkpointed, record_activation_checkpoint, is_held, acquire_activation_lease, is_owner,
  release_activation_lease, insert_sorted, sorted, same_texts, same_readiness, registered,
  register_once, register_worker_readiness, Change, apply, changed_at, transitions, checkpoints,
  acquires, releases, registers,
}
use justflow.Configuration.Store.{
  read_activation, update_activation, ActivationRow, ConfigurationStore, ActivePointer,
  compare_and_swap_active, next_version,
}
use justflow.Configuration.Control.{
  ControlState, Control, pure, raise, lift, ◌>>=◌, ◌>>◌, try_except, ExternalConfirmation,
  Assignment, Prepared, WorkerBinding, ControlEnvironment,
}

abbrev pub is_final : ActivationState → Bool
is_final applied = true
is_final superseded = true
is_final rolled_back = true
is_final _ = false

-- an `except Exception` around a binding's call; an ActivationControllerError passes
abbrev pub as_unavailable : OutcomeCode → ControlError → ControlError
as_unavailable code (controller own retryable) = controller own retryable
as_unavailable code _ = controller code true

-- a lease that another controller holds is a conflict
abbrev pub as_held : Result ActivationRecord → Result ActivationRecord
as_held (err value_error) = err conflict
as_held m = m

module _ {W : Type 0} where
  abbrev pub committed :
      {A : Type 0} → ControlState W → Result (Dict ActivationRow × A) → ControlState W × Result A
  committed s (ok (rows, a)) = (record s { rows = rows }, ok a)
  committed s (err e) = (s, err e)

  abbrev pub moved :
      {A : Type 0} → ControlState W → Result (ConfigurationStore × A) → ControlState W × Result A
  moved s (ok (configuration, a)) = (record s { configuration = configuration }, ok a)
  moved s (err e) = (s, err e)

module _ {W : Type 0} (env : ControlEnvironment W) where
  -- a transaction on the activations
  abbrev pub in_rows :
      {A : Type 0} → (Dict ActivationRow → Result (Dict ActivationRow × A)) → Control W A
  in_rows f = env.turn >> λ s. committed s (f s.rows)

  abbrev pub in_configuration :
      {A : Type 0} → (ConfigurationStore → Result (ConfigurationStore × A)) → Control W A
  in_configuration f = env.turn >> λ s. moved s (f s.configuration)

  unfoldable pub read_record : (activation_id : String) → Control W ActivationRecord
  unfolding read_activation
  read_record activation_id =
      env.turn >> λ s. (s, read_activation env.scope_digest env.record_size activation_id s.rows)

  unfoldable pub update : ActivationRecord → (expected_version : ℕ) → Control W ActivationRecord
  unfolding update_activation
  update r expected_version =
      in_rows (update_activation env.scope_digest env.record_size r expected_version)

  -- `if updated == record: return record`: an operation that changes a record raises its version
  abbrev pub update_if_changed : ActivationRecord → ActivationRecord → Control W ActivationRecord
  unfolding update
  update_if_changed updated r =
      let updating = update updated r.version in
      if updated.version == r.version then pure r else updating

  abbrev pub transition_record :
      ActivationRecord
      → ActivationState
      → Option OutcomeCode
      → (release_lease : Bool) → Control W ActivationRecord
  unfolding update transition_activation
  transition_record r state outcome release_lease = do
    now ← env.now
    updated ← lift (transition_activation r state now outcome release_lease)
    update updated r.version

  abbrev pub checkpoint :
      ActivationRecord → CheckpointKind → ExternalConfirmation → Control W ActivationRecord
  unfolding update record_activation_checkpoint
  checkpoint r kind confirmation = do
    now ← env.now
    updated ← lift (
        record_activation_checkpoint r kind confirmation.outcome confirmation.observation_digest
          now)
    update_if_changed updated r

  abbrev pub register : ActivationRecord → WorkerReadiness → Control W ActivationRecord
  unfolding update register_worker_readiness
  register r readiness = do
    now ← env.now
    updated ← lift (register_worker_readiness r readiness now)
    update_if_changed updated r

  abbrev pub acquire : ActivationRecord → Control W ActivationRecord
  unfolding update acquire_activation_lease
  acquire r = do
    now ← env.now
    updated ←
        lift (
          as_held (acquire_activation_lease r env.controller_digest now (now + env.lease_duration)))
    update updated r.version

  abbrev pub release_held : Option String → ActivationRecord → Control W ActivationRecord
  unfolding update release_activation_lease
  release_held none r = pure r
  release_held (some owner) r = do
    now ← env.now
    updated ← lift (release_activation_lease r env.controller_digest now)
    update updated r.version

  abbrev pub give_back : ActivationRecord → Control W ActivationRecord
  unfolding update release_activation_lease
  give_back r = release_held r.lease_owner_digest r

  abbrev pub start_or_resume : ActivationRecord → Control W ActivationRecord
  unfolding update transition_activation
  start_or_resume r =
      let starting = transition_record r running none false in
      if same_state r.state pending || same_state r.state failed then starting else pure r

  abbrev pub waiting : ActivationRecord → Control W ActivationRecord
  unfolding update transition_activation release_activation_lease
  waiting r =
      let releasing = give_back r in
      let starting = transition_record r waiting_for_readiness none true in
      if same_state r.state waiting_for_readiness then releasing else starting

  -- an activation that has ended meanwhile is left as it is
  abbrev pub end_activation :
      (activation_id : String) → ActivationState → OutcomeCode → Control W ActivationRecord
  unfolding read_record update transition_activation
  end_activation activation_id state outcome = do
    current ← read_record activation_id
    let ending = transition_record current state (some outcome) true
    if is_final current.state then pure current else ending
