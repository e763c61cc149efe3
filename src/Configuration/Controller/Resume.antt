-- ===== src/Configuration/Controller/Resume.antt =====
-- `resume` and `register_readiness` of ConfigurationActivationController in
-- runtime/configuration_activation.py. The record that an `except` clause names has the identifier of the one
-- that was read.
use justflow.Common.{String, true, false, Option, none, some, if◌then◌else◌}
use justflow.Configuration.Results.{
  OutcomeCode, definitions_unavailable, configuration_conflict, stale_plan, internal_error,
  ControlError, controller, configuration_conflict_error, configuration_error,
  catalog_conflict_error, catalog_error,
}
use justflow.Configuration.Records.{
  WorkerReadiness, ActivationRecord, same_state, running, waiting_for_readiness, applied, failed,
  superseded,
}
use justflow.Configuration.Activation.{
  transition_activation, register_worker_readiness, release_activation_lease,
  acquire_activation_lease,
}
use justflow.Configuration.Control.{
  Control, pure, raise, ◌>>=◌, ◌>>◌, try_except, Prepared, WorkerBinding, ControlEnvironment,
}
use justflow.Configuration.Controller.{
  is_final, read_record, update, transition_record, register, acquire, give_back, start_or_resume,
  end_activation,
}
use justflow.Configuration.Controller.Steps.{
  observe_readiness, prepare_record, store_definition_objects, ensure_worker_ready,
  reconcile_schedules,
}
use justflow.Configuration.Controller.Routing.{
  switch_catalog, switch_worker_routing, advance_active_pointer, replace_runtime_index,
}

module _ {W : Type 0} (env : ControlEnvironment W) where
  -- workers that were waited for and are still not ready: the lease is given back
  unfoldable pub run_when_ready :
      Option WorkerReadiness
      → ActivationRecord
      → (onwards : ActivationRecord → Control W ActivationRecord) → Control W ActivationRecord
  unfolding update transition_activation release_activation_lease register_worker_readiness
  run_when_ready none r onwards = give_back env r
  run_when_ready (some readiness) r onwards = do
    registered_record ← register env r readiness
    running_record ← transition_record env registered_record running none false
    onwards running_record

  abbrev pub observe_if_bound :
      Option (WorkerBinding W) → ActivationRecord → Control W (Option WorkerReadiness)
  observe_if_bound none r = pure none
  observe_if_bound (some binding) r = do
    prepared ← prepare_record env r
    observe_readiness env (some binding) prepared

  unfoldable pub observe_waiting : ActivationRecord → Control W (Option WorkerReadiness)
  observe_waiting r = observe_if_bound env.worker_binding r

  -- what a record that waits needs before the steps
  unfoldable pub leave_waiting :
      Option WorkerReadiness
      → ActivationRecord
      → (onwards : ActivationRecord → Control W ActivationRecord) → Control W ActivationRecord
  unfolding run_when_ready observe_waiting update transition_activation
  leave_waiting none r onwards = do
    readiness ← observe_waiting r
    run_when_ready readiness r onwards
  leave_waiting (some readiness) r onwards = transition_record env r running none false >>= onwards

  -- the steps that follow the workers' readiness, up to the final transition
  unfoldable pub apply_steps : ActivationRecord → Prepared → Control W ActivationRecord
  unfolding reconcile_schedules switch_catalog switch_worker_routing advance_active_pointer
      replace_runtime_index update transition_activation
  apply_steps r prepared = do
    r ← reconcile_schedules env r prepared
    r ← switch_catalog env r prepared
    r ← switch_worker_routing env r prepared
    r ← advance_active_pointer env r
    r ← replace_runtime_index env r prepared
    transition_record env r applied none true

  unfoldable pub run_steps : ActivationRecord → Control W ActivationRecord
  unfolding store_definition_objects ensure_worker_ready apply_steps
  run_steps r = do
    prepared ← prepare_record env r
    r ← store_definition_objects env r prepared
    r ← ensure_worker_ready env r prepared
    let finishing = apply_steps r prepared
    if same_state r.state waiting_for_readiness then pure r else finishing

  unfoldable pub try_steps : ActivationRecord → Control W ActivationRecord
  unfolding leave_waiting run_steps update transition_activation
  try_steps r = do
    r ← start_or_resume env r
    let leaving = leave_waiting r.worker_readiness r run_steps
    let running_steps = run_steps r
    if same_state r.state waiting_for_readiness then leaving else running_steps

  -- a failure is recorded, and then raised
  abbrev pub fail :
      (activation_id : String) → OutcomeCode → (error : ControlError) → Control W ActivationRecord
  unfolding read_record update transition_activation
  fail activation_id code error = end_activation env activation_id failed code >> raise error

  -- the `except` clauses: an error that none of them names leaves the record as it is
  unfoldable pub settle_activation :
      (activation_id : String) → ControlError → Control W ActivationRecord
  unfolding read_record update transition_activation
  settle_activation activation_id configuration_conflict_error =
      end_activation env activation_id superseded configuration_conflict
  settle_activation activation_id catalog_conflict_error =
      end_activation env activation_id superseded stale_plan
  settle_activation activation_id (controller code retryable) =
      fail activation_id code (controller code retryable)
  settle_activation activation_id catalog_error =
      fail activation_id definitions_unavailable (controller definitions_unavailable true)
  settle_activation activation_id configuration_error =
      fail activation_id internal_error (controller internal_error false)
  settle_activation activation_id error = raise error

  unfoldable pub resume : (activation_id : String) → Control W ActivationRecord
  unfolding read_record try_steps settle_activation update acquire_activation_lease
  resume activation_id = do
    r ← read_record env activation_id
    let resuming = do
      held ← acquire env r
      try_except (try_steps held) (settle_activation activation_id)
    if is_final r.state then pure r else resuming

  -- the readiness that a deployment tells, and the activation resumed
  unfoldable pub register_readiness :
      (activation_id : String) → WorkerReadiness → Control W ActivationRecord
  unfolding read_record update register_worker_readiness resume
  register_readiness activation_id readiness = do
    r ← read_record env activation_id
    _ ← register env r readiness
    resume activation_id
