-- ===== src/Configuration/Controller/Steps.antt =====
-- The steps of ConfigurationActivationController in runtime/configuration_activation.py, in the order in which
-- `resume` takes them.
use text.Mathlib.Text.{◌==◌ as str_eq}
use justflow.Common.{
  String, Bool, true, false, not, ◌&&◌, ◌||◌, Option, none, some, List, [], ◌∷◌, if◌then◌else◌,
}
use justflow.Configuration.Results.{
  OutcomeCode, worker_unavailable, schedules_unavailable, stale_plan, integrity, controller,
}
use justflow.Configuration.Records.{
  ActivationPlan, WorkerReadiness, ActivationRecord, is_present, has_checkpoint, definitions,
  worker_rollout, worker_readiness, schedules, confirmed, idempotent,
}
use justflow.Configuration.Activation.{
  same_texts, transition_activation, record_activation_checkpoint, register_worker_readiness,
  release_activation_lease,
}
use justflow.Configuration.Control.{
  Control, pure, raise, ◌>>=◌, ◌>>◌, try_except, ExternalConfirmation, Assignment, Prepared,
  WorkerBinding, ControlEnvironment,
}
use justflow.Configuration.Controller.{as_unavailable, update, checkpoint, register, waiting}

abbrev pub confirmed_by : String → ExternalConfirmation
confirmed_by digest = record { outcome = confirmed; observation_digest = digest }

abbrev pub idempotent_by : String → ExternalConfirmation
idempotent_by digest = record { outcome = idempotent; observation_digest = digest }

-- the inputs of the runtime are still those that the plan was made for
unfoldable pub is_prepared_for : Prepared → ActivationPlan → Bool
unfolding same_texts
is_prepared_for prepared plan =
    str_eq prepared.policy_digest plan.policy_digest
    && (str_eq prepared.artifact plan.target_artifact
        && (str_eq prepared.task_queue_identity_digest plan.target_task_queue_identity_digest
            && (str_eq prepared.registration_digest plan.target_worker_registration_digest
                && same_texts prepared.definition_digests plan.target_definition_digests)))

module _ {W : Type 0} (env : ControlEnvironment W) where
  abbrev pub prepare_record : ActivationRecord → Control W Prepared
  unfolding is_prepared_for
  prepare_record r = do
    prepared ← env.prepare r.plan.target_revision_id
    if is_prepared_for prepared r.plan then pure prepared else raise (controller stale_plan false)

  unfoldable pub store_each : (String → Control W (Unit {0})) → List String → Control W (Unit {0})
  store_each store [] = pure tt
  store_each store (x ∷ xs) = let rest = store_each store xs in store x >> rest

  unfoldable pub store_assignments : List Assignment → Control W (Unit {0})
  unfolding store_each
  store_assignments [] = pure tt
  store_assignments (a ∷ rest) =
      let stored = store_assignments rest in
      store_each (env.store_definition_manifest a.scope) a.manifests
      >> (store_each (env.store_environment_snapshot a.scope) a.environment_snapshots >> stored)

  unfoldable pub store_definition_objects : ActivationRecord → Prepared → Control W ActivationRecord
  unfolding has_checkpoint store_assignments update record_activation_checkpoint
  store_definition_objects r prepared =
      let storing =
        store_assignments prepared.assignments
        >> checkpoint env r definitions (confirmed_by (env.definitions_digest prepared)) in
      if has_checkpoint definitions r.checkpoints then pure r else storing

  -- the errors of a binding
  abbrev pub guard_binding : {A : Type 0} → OutcomeCode → Control W A → Control W A
  guard_binding code call = try_except call λ e. raise (as_unavailable code e)

  unfoldable pub roll_out :
      ActivationRecord → Prepared → WorkerBinding W → Control W ActivationRecord
  unfolding update record_activation_checkpoint
  roll_out r prepared binding = do
    confirmation ← guard_binding worker_unavailable (binding.rollout prepared r.plan.plan_digest)
    checkpoint env r worker_rollout confirmation

  abbrev pub observe_readiness :
      Option (WorkerBinding W) → Prepared → Control W (Option WorkerReadiness)
  observe_readiness none prepared = pure none
  observe_readiness (some binding) prepared =
      guard_binding worker_unavailable (binding.readiness prepared)

  -- `_validate_worker_readiness`, and the checkpoint of a readiness that is registered
  unfoldable pub confirm_readiness :
      Option WorkerReadiness → ActivationRecord → Prepared → Control W ActivationRecord
  unfolding has_checkpoint update record_activation_checkpoint
  confirm_readiness none r prepared = raise integrity
  confirm_readiness (some readiness) r prepared =
      let confirming =
        checkpoint env r worker_readiness (confirmed_by (env.readiness_digest readiness)) in
      if str_eq readiness.task_queue_identity_digest prepared.task_queue_identity_digest
      then (if has_checkpoint worker_readiness r.checkpoints then pure r else confirming)
      else raise (controller worker_unavailable false)

  abbrev pub wait_or_confirm :
      Option WorkerReadiness → ActivationRecord → Prepared → Control W ActivationRecord
  unfolding confirm_readiness update register_worker_readiness transition_activation
      release_activation_lease
  wait_or_confirm none r prepared = waiting env r
  wait_or_confirm (some readiness) r prepared = do
    registered_record ← register env r readiness
    confirm_readiness registered_record.worker_readiness registered_record prepared

  -- after the rollout: what is registered, or what the workers tell
  unfoldable pub await_readiness :
      Option WorkerReadiness → ActivationRecord → Prepared → Control W ActivationRecord
  unfolding confirm_readiness update register_worker_readiness transition_activation
      release_activation_lease
  await_readiness (some readiness) r prepared = confirm_readiness (some readiness) r prepared
  await_readiness none r prepared = do
    observe_if_bound ← observe_readiness env.worker_binding prepared
    wait_or_confirm observe_if_bound r prepared

  -- the workers are rolled out once, and without a binding somebody else does it
  unfoldable pub roll_out_once :
      Option (WorkerBinding W) → ActivationRecord → Prepared → Control W ActivationRecord
  unfolding roll_out await_readiness update transition_activation release_activation_lease
  roll_out_once none r prepared = waiting env r
  roll_out_once (some binding) r prepared = do
    rolled ← roll_out r prepared binding
    await_readiness rolled.worker_readiness rolled prepared

  unfoldable pub ensure_worker_ready : ActivationRecord → Prepared → Control W ActivationRecord
  unfolding has_checkpoint roll_out_once await_readiness update record_activation_checkpoint
  ensure_worker_ready r prepared =
      let without =
        checkpoint env r worker_readiness (idempotent_by r.plan.worker_observation_digest) in
      let rolling = roll_out_once env.worker_binding r prepared in
      let awaiting = await_readiness r.worker_readiness r prepared in
      if not r.plan.rolls_out
      then (if has_checkpoint worker_readiness r.checkpoints then pure r else without)
      else (if not (is_present r.worker_readiness)
            && not (has_checkpoint worker_rollout r.checkpoints)
          then rolling
          else awaiting)

  abbrev pub reconcile :
      Option (Prepared → Control W ExternalConfirmation) → Prepared → Control W ExternalConfirmation
  reconcile none prepared = raise (controller schedules_unavailable true)
  reconcile (some binding) prepared = guard_binding schedules_unavailable (binding prepared)

  unfoldable pub reconcile_schedules : ActivationRecord → Prepared → Control W ActivationRecord
  unfolding has_checkpoint update record_activation_checkpoint
  reconcile_schedules r prepared =
      let reconciling = reconcile env.reconcile_schedules prepared >>= checkpoint env r schedules in
      if not r.plan.reconciles || has_checkpoint schedules r.checkpoints
      then pure r
      else reconciling
