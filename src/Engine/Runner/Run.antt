-- ===== src/Engine/Runner/Run.antt =====
-- `_execute` and `_restore_state` of engine/runner.py. The fuel counts the
-- rounds of the `while` loop; a run that is out of it returns nothing. The identity and the
-- definition of a run, which `_execute` copies into its record, are left out.
use justflow.Common.{ℕ, zero, suc, String, Bool, true, false, Option, none, some, List, [], ◌∷◌}
use justflow.Config.Models.{FlowStep, ReferencePath}
use justflow.Engine.Exceptions.{
  flow_definition, invariant_violation, reference_resolution, payload_bytes, Result, ok, err,
}
use justflow.Engine.Failures.{FailurePhase}
use justflow.Engine.Limits.{enforce_limit}
use justflow.Engine.Data.Objects.{Object, str, dict, end}
use justflow.Engine.Data.Normalize.{normalize_json_object}
use justflow.Engine.References.{interpolate_params, resolve_reference}
use justflow.Engine.Runner.State.{
  Workflow, RunState, RunnerCheckpoint, LoopCheckpoint, AuditRecord, WorkflowStatus, completed,
  recovered, terminated, Direction, workflow_input, workflow_output, Environment,
}
use justflow.Engine.Runner.Machine.{Exec, pure, raise, lift, calls, reads, modify, ◌>>=◌, ◌>>◌}
use justflow.Engine.Runner.Params.{build_params}
use justflow.Engine.Runner.Execute.{moves, ends, execute_round}

abbrev pub fresh_state : RunState
fresh_state = record {
  params = end;
  step_outputs = end;
  step_timings = [];
  transitions = [];
  failures = [];
  active_episode = none;
  invocations = 0;
  seq = 0;
  phase = FailurePhase.internal;
  current_step_name = none;
  next_seq = 0;
}

-- `_restore_state`, and the position that `_execute` takes from the checkpoint
unfoldable pub restore_state : Option RunnerCheckpoint → RunState
restore_state none = fresh_state
restore_state (some checkpoint) = record checkpoint.state {
  phase = FailurePhase.internal;
  current_step_name = none;
  next_seq = 0;
}

abbrev pub in_phase : FailurePhase → RunState → RunState
in_phase phase s = record s { phase = phase }

abbrev pub status_of : Option String → Bool → WorkflowStatus
status_of (some reason) has_failures = terminated
status_of none true = recovered
status_of none false = completed

abbrev pub has_any {ℓ} : {A : Type ℓ} → List A → Bool
has_any [] = false
has_any (x ∷ xs) = true

abbrev pub closed_record : Option String → RunState → AuditRecord
closed_record reason s = record {
  status = status_of reason (has_any s.failures);
  reason = reason;
  params = s.params;
  steps = s.step_timings;
  transitions = s.transitions;
  failures = s.failures;
  result = none;
}

module _ {W : Type 0} (env : Environment W) (workflow : Workflow) where
  abbrev pub enforce_payload : Object → (limit : ℕ) → Exec W (Unit {0})
  enforce_payload v limit =
      lift (env.payload_size v) >>= λ size. lift (enforce_limit size limit payload_bytes)

  abbrev pub check_contract : Bool → Direction → Object → Exec W (Unit {0})
  check_contract false direction v = pure tt
  check_contract true direction v = calls (env.validate_contract direction v)

  -- the part of `_execute` that a resumed run skips
  unfoldable pub start_run : String → Object → Exec W (Unit {0})
  unfolding normalize_json_object enforce_limit build_params
  start_run request_id trigger_globals = do
    modify (in_phase FailurePhase.workflow_input)
    globals ← lift (normalize_json_object workflow.limits.collection_items trigger_globals)
    enforce_payload (dict globals) workflow.limits.trigger_payload_bytes
    check_contract workflow.has_input_schema workflow_input (dict globals)
    modify (in_phase FailurePhase.parameters)
    params ← lift (build_params env.to_text workflow request_id globals)
    modify (λ s. record s { params = params })

  unfoldable pub execute_from :
      ℕ → Option String → Option LoopCheckpoint → Exec W (Option (Option String))
  unfolding execute_round
  execute_from zero current loop = pure none
  execute_from (suc fuel) none loop = raise (flow_definition invariant_violation)
  execute_from (suc fuel) (some name) loop = execute_round env workflow name loop >>= λ next.
      elim next [ moves target ↦ execute_from fuel target none | ends reason ↦ pure (some reason) ]

  abbrev pub unavailable_result : Option String → Result (Option Object)
  unavailable_result none = err (flow_definition invariant_violation)
  unavailable_result (some reason) = ok none

  -- the configured result; it may be missing where the workflow ends with a reason
  abbrev pub found_result : Option String → Result Object → Result (Option Object)
  found_result reason (ok v) = ok (some v)
  found_result reason (err reference_resolution) = unavailable_result reason
  found_result reason (err e) = err e

  abbrev pub accept_result : Option Object → Exec W (Unit {0})
  accept_result none = pure tt
  accept_result (some v) =
      check_contract workflow.has_output_schema workflow_output v
      >> enforce_payload v workflow.limits.workflow_output_bytes

  unfoldable pub final_result : Option String → Option ReferencePath → Exec W (Option Object)
  unfolding resolve_reference enforce_limit
  final_result reason none = pure none
  final_result reason (some reference) = do
    step_outputs ← reads (λ s. s.step_outputs)
    params ← reads (λ s. s.params)
    result ← lift (found_result reason (resolve_reference reference step_outputs params))
    accept_result result
    pure result

  unfoldable pub archive_record : Option String → AuditRecord → Exec W (Unit {0})
  unfolding enforce_limit interpolate_params
  archive_record none audit = pure tt
  archive_record (some path) audit = do
    modify (in_phase FailurePhase.archive)
    size ← lift (env.archive_size audit)
    lift (enforce_limit size workflow.limits.audit_record_bytes payload_bytes)
    params ← reads (λ s. s.params)
    place ← lift (interpolate_params env.to_text (str path) params)
    calls (env.archive place audit)

  -- what follows the `while` loop
  unfoldable pub finish_run : Option String → Exec W AuditRecord
  unfolding final_result archive_record enforce_limit
  finish_run reason = do
    modify (λ s. record s { active_episode = none })
    closed ← reads (closed_record reason)
    modify (in_phase FailurePhase.result)
    result ← final_result reason workflow.result
    let audit : AuditRecord = record closed { result = result }
    size ← lift (env.record_size audit)
    lift (enforce_limit size workflow.limits.audit_record_bytes payload_bytes)
    lift (enforce_limit size workflow.limits.workflow_output_bytes payload_bytes)
    archive_record workflow.on_complete audit
    pure audit

  abbrev pub finish_at : Option (Option String) → Exec W (Option AuditRecord)
  finish_at none = pure none
  finish_at (some reason) = finish_run reason >>= λ audit. pure (some audit)

  abbrev pub entry_step : List FlowStep → Exec W String
  entry_step [] = raise (flow_definition invariant_violation)
  entry_step (first ∷ rest) = pure first.name

  unfoldable pub execute :
      (fuel : ℕ) → String → Object → Option RunnerCheckpoint → Exec W (Option AuditRecord)
  unfolding start_run execute_from finish_run
  execute fuel request_id trigger_globals none = do
    start_run request_id trigger_globals
    first ← entry_step workflow.flow
    reason ← execute_from fuel (some first) none
    finish_at reason
  execute fuel request_id trigger_globals (some checkpoint) = do
    _ ← entry_step workflow.flow
    reason ← execute_from fuel (some checkpoint.next_step_name) checkpoint.loop
    finish_at reason
