-- ===== src/Engine/Runner/Execute.antt =====
-- One round of the `while` loop of `_execute` in engine/runner.py: the step that is entered, what it
-- runs, and where it leads.
use text.Mathlib.Text.{◌==◌ as str_eq}
use justflow.Common.{
  ℕ, ◌+◌, String, Bool, true, false, not, ◌&&◌, Option, none, some, List, [], ◌∷◌, ◌++◌,
  if◌then◌else◌,
}
use justflow.Common.Dict.{lookup, insert}
use justflow.Config.Models.{FlowStep, WaitForConfig}
use justflow.Engine.Exceptions.{
  Raised, flow_definition, invariant_violation, wait_timeout, loop_exhausted, cancelled,
  handler_failure, Result, ok, err, guard,
}
use justflow.Engine.Failures.{
  FailurePhase, FailureCode, FailureDetail, step_failed, classify_failure,
}
use justflow.Engine.Data.Objects.{Object, dict, Entries, end, entry, key, opaque}
use justflow.Engine.Data.Normalize.{normalize_json_value, normalize_json_object}
use justflow.Engine.Evaluator.Evaluate.{evaluate_condition}
use justflow.Engine.References.{interpolate_params, resolve_input}
use justflow.Engine.Worklist.{member}
use justflow.Engine.Runner.State.{
  StepTarget, service_operation, child_workflow, StepDefinition, Workflow, StepStatus, succeeded,
  skipped, timed_out, slept, exhausted, failed, Matched, timeout, error, exhausted_loop,
  TransitionRecord, StepAuditEntry, FailureEpisode, LoopCheckpoint, iteration, until_loop, plain,
  RunState, Environment,
}
use justflow.Engine.Runner.Machine.{
  Exec, pure, raise, lift, calls, reads, modify, ◌>>=◌, ◌>>◌, as_resolution, checkpoint_after_step,
}
use justflow.Engine.Runner.Graph.{flow_steps, reachable_from_entry, handler_region}
use justflow.Engine.Runner.Invoke.{set_entry, or_missing_key, store_output, invoke, next_step}
use justflow.Engine.Runner.Loops.{run_until, run_iteration}
use justflow.Engine.Runner.Waits.{run_wait}

-- where a round leads: to a next step, or to the end of the workflow at a terminal step
pub data Next : Type 0 where
  moves : Option String → Next
  ends : (reason : Option String) → Next

-- what the operation of a step has done
pub record Worked : Type 0 where
  pub result : Object
  pub attempts : Option ℕ
  pub items : Option (ℕ × ℕ)
  pub until_exhausted : Bool

abbrev pub blank : StepStatus → ℕ → StepAuditEntry
blank status seq = record {
  seq = seq;
  status = status;
  output = none;
  attempts = none;
  items = none;
}

-- An audit entry at the next position.
abbrev pub recorded : String → (ℕ → StepAuditEntry) → RunState → RunState
recorded name audit s = record s {
  step_timings = insert name (audit s.seq) s.step_timings;
  seq = s.seq + 1;
}

abbrev pub with_transition : String → Matched → String → RunState → RunState
with_transition step matched target s = record s {
  transitions = s.transitions ++ (record { step = step; matched = matched; target = target }) ∷ [];
}

abbrev pub with_decision : Option TransitionRecord → RunState → RunState
with_decision none s = s
with_decision (some t) s = record s { transitions = s.transitions ++ t ∷ [] }

-- an episode ends where the step that is entered is none of its handler's
abbrev pub kept_episode : String → Option FailureEpisode → Option FailureEpisode
kept_episode name none = none
kept_episode name (some episode) = if member name episode.handler_steps then some episode else none

unfoldable pub entered : String → RunState → RunState
unfolding member
entered name s = record s {
  phase = FailurePhase.step;
  current_step_name = some name;
  next_seq = s.seq;
  active_episode = kept_episode name s.active_episode;
}

abbrev pub is_some {ℓ} : {A : Type ℓ} → Option A → Bool
is_some none = false
is_some (some a) = true

-- the checkpoint of a loop is of the step that is entered, and of its kind
unfoldable pub matches_step : Option LoopCheckpoint → FlowStep → Bool
matches_step none step = true
matches_step (some (iteration name _ _ _)) step = str_eq name step.name && is_some step.for_each
matches_step (some (until_loop name _ _)) step = str_eq name step.name && is_some step.until

-- {**base, **more}
unfoldable pub update_entries : Entries → Entries → Entries
unfolding set_entry
update_entries base end = base
update_entries base (entry (key k) v more) = update_entries (set_entry k v base) more
update_entries base (entry (opaque k) v more) = update_entries (entry (opaque k) v base) more

abbrev pub or_handler : Option String → Option String → Option String
or_handler none default = default
or_handler (some h) default = some h

abbrev pub or_no_names : Option (List String) → List String
or_no_names none = []
or_no_names (some names) = names

module _ {W : Type 0} (env : Environment W) (workflow : Workflow) where
  -- `self._handler_region(handler)`
  unfoldable pub region_of : String → List String
  unfolding reachable_from_entry handler_region flow_steps
  region_of handler = or_no_names (
      handler_region (flow_steps workflow.flow) (or_no_names (reachable_from_entry workflow.flow))
        handler)

  unfoldable pub advance : Option String → Exec W Next
  unfolding checkpoint_after_step
  advance target = checkpoint_after_step env workflow target >> pure (moves target)

  unfoldable pub run_sleep : FlowStep → ℕ → Exec W Next
  unfolding advance
  run_sleep step seconds = do
    calls (env.sleep seconds)
    modify (recorded step.name (blank slept))
    advance step.then_step

  -- `_next_step`, its record, and the checkpoint
  unfoldable pub take_next : FlowStep → Object → Exec W Next
  unfolding next_step advance
  take_next step output = next_step env workflow step output >>= λ choice.
      (modify (with_decision (choice.1)) >> advance (choice.0))

  -- an expired wait, by its `on_timeout`
  unfoldable pub expire_wait : FlowStep → Option String → Exec W Next
  unfolding advance
  expire_wait step none =
      modify (recorded step.name (blank timed_out)) >> raise (flow_definition wait_timeout)
  expire_wait step (some target) = do
    modify (recorded step.name (blank timed_out))
    modify (with_transition step.name timeout target)
    advance (some target)

  unfoldable pub receive_event : FlowStep → Object → Exec W Next
  unfolding normalize_json_value store_output take_next
  receive_event step payload =
      lift (normalize_json_value workflow.limits.collection_items payload) >>= λ output.
      (store_output env workflow step output
        >> (modify
              (recorded step.name (λ seq. record (blank succeeded seq) { output = some output }))
            >> take_next step output))

  abbrev pub after_wait : FlowStep → WaitForConfig → Option Object → Exec W Next
  after_wait step w none = expire_wait step w.on_timeout
  after_wait step w (some payload) = receive_event step payload

  unfoldable pub run_waiting : FlowStep → WaitForConfig → Exec W Next
  unfolding run_wait expire_wait receive_event
  run_waiting step w = run_wait env w >>= after_wait step w

  -- The body of the `try`: a loop, or one invocation.
  module _ (step : FlowStep) (step_def : StepDefinition) (resolved_input : Object)
      (globals : Entries) where
    unfoldable pub perform : Option LoopCheckpoint → Exec W Worked
    unfolding run_iteration run_until invoke
    perform loop = elim step.for_each [
      | some for_each ↦
          run_iteration env workflow step step_def resolved_input globals for_each loop >>= λ r.
          pure
            (record { result = r.0; attempts = none; items = some (r.1); until_exhausted = false })
      | none ↦ elim step.until [
        | some condition ↦ run_until env workflow step step_def resolved_input globals loop >>= λ r.
            pure (record {
              result = r.result;
              attempts = some r.attempts;
              items = none;
              until_exhausted = not r.satisfied;
            })
        | none ↦ invoke env workflow step_def (plain step.name) resolved_input globals >>= λ v.
            pure (record { result = v; attempts = none; items = none; until_exhausted = false })
      ]
    ]

  -- A failure that starts an episode: its record, the `error` output, the transition to the handler.
  abbrev pub with_failure : String → String → FailureDetail → RunState → RunState
  with_failure name handler failure s = record s {
    failures = s.failures ++ failure ∷ [];
    step_timings = insert name (blank failed s.seq) s.step_timings;
    seq = s.seq + 1;
    step_outputs = set_entry "error" (env.failure_value failure) s.step_outputs;
    transitions = s.transitions ++ (record { step = name; matched = error; target = handler }) ∷ [];
    active_episode =
        some (record { primary = failure; handler = handler; handler_steps = region_of handler });
  }

  unfoldable pub recover : FlowStep → String → Raised → Exec W Next
  unfolding region_of set_entry classify_failure advance
  recover step handler e = do
    modify (
        with_failure step.name handler (
          classify_failure env.non_retryable e FailurePhase.step (some step.name)
            (some step_failed)))
    advance (some handler)

  -- A failure within an episode ends the run.
  unfoldable pub fail_handler : FlowStep → FailureEpisode → Raised → Exec W Next
  unfolding classify_failure
  fail_handler step episode e m = (
    err handler_failure,
    record m {
      handler_failed = some (
        episode.primary,
        classify_failure env.non_retryable e FailurePhase.handler (some step.name)
            (some FailureCode.handler_failed),
      );
    },
  )

  abbrev pub fail_step : FlowStep → Raised → Option FailureEpisode → Option String → Exec W Next
  fail_step step e (some episode) handler = fail_handler step episode e
  fail_step step e none none = raise e
  fail_step step e none (some handler) = recover step handler e

  -- the two `except` clauses
  abbrev pub except_step : FlowStep → Raised → Exec W Next
  except_step step (flow_definition kind) = raise (flow_definition kind)
  except_step step cancelled = raise cancelled
  except_step step e = reads (λ s. s.active_episode) >>= λ episode.
      fail_step step e episode (or_handler step.on_failure workflow.on_error)

  abbrev pub exhaust : FlowStep → Option String → Exec W Next
  exhaust step none = raise (flow_definition loop_exhausted)
  exhaust step (some target) =
      modify (with_transition step.name exhausted_loop target) >> advance (some target)

  abbrev pub worked_entry : StepStatus → Worked → ℕ → StepAuditEntry
  worked_entry status worked seq = record {
    seq = seq;
    status = status;
    output = some worked.result;
    attempts = worked.attempts;
    items = worked.items;
  }

  unfoldable pub complete_step : FlowStep → Worked → Exec W Next
  unfolding store_output take_next advance
  complete_step step worked =
      if worked.until_exhausted
      then modify (recorded step.name (worked_entry exhausted worked))
        >> exhaust step step.on_exhausted
      else (store_output env workflow step worked.result
          >> (modify (recorded step.name (worked_entry succeeded worked))
              >> take_next step worked.result))

  abbrev pub settle_step : FlowStep → Result Worked → Exec W Next
  settle_step step (ok worked) = complete_step step worked
  settle_step step (err e) = except_step step e

  -- `try: … except …: … else: …`
  unfoldable pub attempt_step : FlowStep → Exec W Worked → Exec W Next
  unfolding complete_step recover fail_handler
  attempt_step step body m = let (r, m') = body m in settle_step step r m'

  abbrev pub service_params : StepTarget → Result Entries
  service_params (child_workflow w) = ok end
  service_params (service_operation service action) =
      or_missing_key (lookup service workflow.services)

  abbrev pub should_skip : Option String → Object → Entries → Entries → Result Bool
  should_skip none resolved_input step_outputs params = ok false
  should_skip (some condition) resolved_input step_outputs params =
      elim (evaluate_condition env.parse condition resolved_input step_outputs params) [
        | ok holds ↦ ok (not holds)
        | err e ↦ err e
      ]

  unfoldable pub skip_step : FlowStep → Exec W Next
  unfolding advance
  skip_step step = modify (recorded step.name (blank skipped)) >> advance step.then_step

  unfoldable pub run_operation : FlowStep → String → Option LoopCheckpoint → Exec W Next
  unfolding lookup update_entries interpolate_params normalize_json_object resolve_input
      evaluate_condition skip_step perform attempt_step
  run_operation step op loop = do
    step_def ← lift (or_missing_key (lookup op workflow.steps))
    base ← lift (service_params step_def.target)
    params ← reads (λ s. s.params)
    merged ← lift (
        interpolate_params env.to_text
          (dict (update_entries (update_entries base step_def.params) step.params)) params)
    globals ← lift (normalize_json_object workflow.limits.collection_items merged)
    step_outputs ← reads (λ s. s.step_outputs)
    resolved_input ← lift (as_resolution (resolve_input step.input step_outputs params))
    skips ← lift (as_resolution (should_skip step.condition resolved_input step_outputs params))
    if skips
        then skip_step step
        else attempt_step step (perform step step_def resolved_input globals loop)

  abbrev pub run_op : FlowStep → Option String → Option LoopCheckpoint → Exec W Next
  run_op step none loop = raise (flow_definition invariant_violation)
  run_op step (some op) loop = run_operation step op loop

  abbrev pub run_kind :
      FlowStep → Option ℕ → Option WaitForConfig → Option LoopCheckpoint → Exec W Next
  run_kind step (some seconds) w loop = run_sleep step seconds
  run_kind step none (some w) loop = run_waiting step w
  run_kind step none none loop = run_op step step.op loop

  unfoldable pub run_step : FlowStep → Option LoopCheckpoint → Exec W Next
  unfolding run_sleep run_waiting run_operation
  run_step step loop =
      if step.terminal
      then pure (ends step.reason)
      else run_kind step step.sleep_sec step.wait_for loop

  unfoldable pub execute_round : String → Option LoopCheckpoint → Exec W Next
  unfolding entered flow_steps lookup matches_step run_step
  execute_round name loop = do
    modify (entered name)
    step ← lift (or_missing_key (lookup name (flow_steps workflow.flow)))
    lift (guard (matches_step loop step) (flow_definition invariant_violation))
    run_step step loop
