-- ===== src/Engine/Runner/Failing.antt =====
-- `run` of engine/runner.py around `_execute`: how an exception that ends a run is classified, recorded
-- and archived.
use justflow.Common.{
  ℕ, String, Bool, true, false, Option, none, some, List, [], ◌∷◌, ◌++◌, if◌then◌else◌,
}
use justflow.Common.Dict.{lookup, insert}
use justflow.Engine.Exceptions.{
  Raised, flow_continuation, cancelled, flow_execution, handler_failure, Result, ok, err,
}
use justflow.Engine.Failures.{
  FailurePhase, FailureCode, FailureDetail, ExecutionError, archival_failed, classify_failure,
  build_execution_error,
}
use justflow.Engine.Data.Objects.{Object, str, Entries, has_entry}
use justflow.Engine.References.{interpolate_params, find_unresolved_placeholders}
use justflow.Engine.Runner.State.{
  Workflow, StepStatus, failed, StepAuditEntry, RunState, RunnerCheckpoint, AuditRecord,
  Environment, Machine,
}
use justflow.Engine.Runner.Machine.{Exec, lift, calls, ◌>>=◌, ◌>>◌}
use justflow.Engine.Runner.Invoke.{set_entry}
use justflow.Engine.Runner.Execute.{blank}
use justflow.Engine.Runner.Params.{no_unresolved}
use justflow.Engine.Runner.Run.{restore_state, execute}

-- what `run` gives: an audit record, an exception that passes through, or a FlowExecutionError
pub data RunOutcome : Type 0 where
  finished : AuditRecord → RunOutcome
  passed : Raised → RunOutcome
  failed_run : ExecutionError → RunOutcome
  out_of_fuel : RunOutcome

abbrev pub is_failed : StepStatus → Bool
is_failed failed = true
is_failed _ = false

-- `_record_unhandled_step`
abbrev pub already_failed : Option StepAuditEntry → Bool
already_failed none = false
already_failed (some audit) = is_failed audit.status

unfoldable pub record_unhandled : Option String → RunState → RunState
unfolding lookup insert
record_unhandled none s = s
record_unhandled (some name) s =
    if already_failed (lookup name s.step_timings)
    then s
    else record s { step_timings = insert name (blank failed s.next_seq) s.step_timings }

abbrev pub is_step : FailurePhase → Bool
is_step FailurePhase.step = true
is_step _ = false

abbrev pub is_archive : FailurePhase → Bool
is_archive FailurePhase.archive = true
is_archive _ = false

module _ {W : Type 0} (env : Environment W) (workflow : Workflow) where
  -- the failures of an exception: the primary, those that followed, and the one of the step
  abbrev pub failures_of :
      Raised
      → Option (FailureDetail × FailureDetail)
      → RunState
      → FailureDetail × (List FailureDetail × FailureDetail)
  failures_of handler_failure (some (primary, handler)) s = (primary, (handler ∷ [], handler))
  failures_of e carried s = elim s.active_episode [
    | some episode ↦
        let failure =
          classify_failure env.non_retryable e FailurePhase.handler s.current_step_name
            (some FailureCode.handler_failed) in
        (episode.primary, (failure ∷ [], failure))
    | none ↦
        let failure =
          classify_failure env.non_retryable e s.phase
            (if is_step s.phase then s.current_step_name else none) none in
        (failure, ([], failure))
  ]

  -- `_build_execution_error`
  unfoldable pub execution_error : Raised → Machine W → ExecutionError × Machine W
  unfolding classify_failure record_unhandled build_execution_error
  execution_error e m =
      let (primary, (secondary, failure)) = failures_of e m.handler_failed m.state in
      (
        build_execution_error primary secondary,
        record m { state = record_unhandled failure.step m.state },
      )

  abbrev pub default_entry : String → Object → Entries → Entries
  default_entry name v es = if has_entry name es then es else set_entry name v es

  -- the body of the `try` of `_archive_failure`
  unfoldable pub archive_error : String → String → ExecutionError → Exec W (Unit {0})
  unfolding has_entry set_entry interpolate_params find_unresolved_placeholders
  archive_error request_id path error m =
      let params = default_entry "request_id" (str request_id) m.state.params in
      (lift (interpolate_params env.to_text (str path) params) >>= λ place.
      lift (find_unresolved_placeholders place) >>= λ names.
      lift (no_unresolved names) >> calls (env.archive_failure place error))
        m

  -- its `except`
  abbrev pub archived : ExecutionError → Result (Unit {0}) → RunOutcome
  archived error (ok u) = failed_run error
  archived error (err cancelled) = passed cancelled
  archived error (err e) = failed_run (
      build_execution_error error.classification (
        error.secondary
        ++ classify_failure env.non_retryable e FailurePhase.archive none (some archival_failed)
          ∷ []))

  abbrev pub archive_failure :
      Option String → String → ExecutionError → Machine W → RunOutcome × Machine W
  archive_failure none request_id error m = (failed_run error, m)
  archive_failure (some path) request_id error m =
      if is_archive m.state.phase
      then (failed_run error, m)
      else (let (r, m') = archive_error request_id path error m in (archived error r, m'))

  unfoldable pub outcome_of :
      String → Result (Option AuditRecord) → Machine W → RunOutcome × Machine W
  unfolding execution_error archive_error build_execution_error classify_failure
  outcome_of request_id (ok none) m = (out_of_fuel, m)
  outcome_of request_id (ok (some audit)) m = (finished audit, m)
  outcome_of request_id (err cancelled) m = (passed cancelled, m)
  outcome_of request_id (err flow_continuation) m = (passed flow_continuation, m)
  outcome_of request_id (err flow_execution) m = (passed flow_execution, m)
  outcome_of request_id (err e) m =
      let (error, m') = execution_error e m in
      archive_failure workflow.on_complete request_id error m'

  unfoldable pub run :
      (fuel : ℕ) → String → Object → Option RunnerCheckpoint → W → RunOutcome × Machine W
  unfolding restore_state execute outcome_of
  run fuel request_id trigger_globals checkpoint w =
      let m : Machine W = record {
        state = restore_state checkpoint;
        continuation = none;
        handler_failed = none;
        world = w;
      } in
      let (r, m') = execute env workflow fuel request_id trigger_globals checkpoint m in
      outcome_of request_id r m'
