-- ===== src/Engine/Runner/Invoke.antt =====
-- One invocation of an operation (`_invoke` of engine/runner.py), the choice of the next step
-- (`_next_step`) and the outputs (`_store_output`).
use text.Mathlib.Text.{◌==◌ as str_eq}
use justflow.Common.{◌+◌, String, Bool, Option, none, some, List, [], ◌∷◌, if◌then◌else◌}
use justflow.Common.Dict.{lookup}
use justflow.Config.Models.{FlowStep, OnResultBranch, When, inline, evaluator}
use justflow.Engine.Exceptions.{
  key_error, type_error, condition_evaluation, flow_definition, resolution_error,
  invariant_violation, total_invocations, Result, ok, err,
}
use justflow.Engine.Limits.{enforce_limit}
use justflow.Engine.Data.Objects.{
  Object, null, str, dict, Entries, end, entry, key, opaque, find_entry,
}
use justflow.Engine.Data.Normalize.{normalize_json_value}
use justflow.Engine.References.{interpolate_params}
use justflow.Engine.Evaluator.Evaluate.{evaluate_condition}
use justflow.Engine.Runner.State.{
  StepTarget, service_operation, child_workflow, CacheConfig, StepDefinition, Workflow, Matched,
  default_branch, by_evaluator, by_condition, CacheDirective, TransitionRecord, InvocationName,
  Environment,
}
use justflow.Engine.Runner.Machine.{Exec, pure, raise, lift, calls, reads, modify, ◌>>=◌, ◌>>◌}

-- d[k] = v
unfoldable pub set_entry : String → Object → Entries → Entries
set_entry k v end = entry (key k) v end
set_entry k v (entry (opaque j) w es) = entry (opaque j) w (set_entry k v es)
set_entry k v (entry (key j) w es) =
    if str_eq j k then entry (key j) v es else entry (key j) w (set_entry k v es)

-- The value of an item assignment `x[k] = v`, for a text `k`.
abbrev pub assigned : Object → String → Object → Result Object
assigned (dict es) k v = ok (dict (set_entry k v es))
assigned _ k v = err type_error

abbrev pub or_empty : Option Object → Object
or_empty none = dict end
or_empty (some v) = v

abbrev pub or_else : Option String → String → String
or_else none b = b
or_else (some a) b = a

-- The output stands under the step's name, within it under the alias, and under the alias.
unfoldable pub stored : (name : String) (output : Option String) → Object → Entries → Result Entries
unfolding set_entry find_entry
stored name output result step_outputs =
    elim (assigned (or_empty (find_entry name step_outputs)) (or_else output name) result) [
      | err e ↦ err e
      | ok space ↦ ok (set_entry (or_else output name) result (set_entry name space step_outputs))
    ]

abbrev pub or_missing_key {ℓ} : {A : Type ℓ} → Option A → Result A
or_missing_key none = err key_error
or_missing_key (some a) = ok a

-- a child's record is unwrapped, if it has a result
abbrev pub child_result : Object → Object
child_result (dict es) = elim (find_entry "result" es) [ none ↦ dict es | some v ↦ v ]
child_result v = v

abbrev pub child_globals : Object → Entries → Entries
child_globals null globals = globals
child_globals v globals = set_entry "input" v globals

-- `except ConditionEvaluationError`
abbrev pub as_unevaluated {ℓ} : {A : Type ℓ} → Result A → Result A
as_unevaluated (err (condition_evaluation r)) = err (flow_definition resolution_error)
as_unevaluated r = r

module _ {W : Type 0} (env : Environment W) (workflow : Workflow) where
  unfoldable pub store_output : FlowStep → Object → Exec W (Unit {0})
  unfolding stored
  store_output step result = do
    step_outputs ← reads (λ s. s.step_outputs)
    step_outputs' ← lift (stored step.name step.output result step_outputs)
    modify (λ s. record s { step_outputs = step_outputs' })

  -- the counter stands at the new invocation also where the limit is exceeded
  unfoldable pub count_invocation : Exec W (Unit {0})
  unfolding enforce_limit
  count_invocation = do
    modify (λ s. record s { invocations = s.invocations + 1 })
    invocations ← reads (λ s. s.invocations)
    lift (enforce_limit invocations workflow.limits.total_invocations total_invocations)

  -- The key's text is interpolated; a key that is one placeholder keeps its value's type.
  unfoldable pub cache_directive : Option CacheConfig → Exec W (Option CacheDirective)
  unfolding interpolate_params
  cache_directive none = pure none
  cache_directive (some cache) = do
    params ← reads (λ s. s.params)
    value ← lift (interpolate_params env.to_text (str cache.key) params)
    pure (some (record { resource = cache.resource; key = value; ttl_sec = cache.ttl_sec }))

  unfoldable pub dispatch :
      StepTarget → StepDefinition → InvocationName → Object → Entries → Exec W Object
  unfolding normalize_json_value cache_directive lookup
  dispatch (child_workflow name) step_def step_name resolved_input globals = do
    raw ← calls (env.run_subworkflow name step_name (child_globals resolved_input globals))
    child ← lift (normalize_json_value workflow.limits.collection_items raw)
    pure (child_result child)
  dispatch (service_operation service action) step_def step_name resolved_input globals = do
    cache ← cache_directive step_def.cache
    _ ← lift (or_missing_key (lookup service workflow.services))
    raw ← calls (
        env.run_step (record {
          step_name = step_name;
          service_name = service;
          action = action;
          input = resolved_input;
          globals = globals;
          cache = cache;
          required_resources = step_def.required_resources;
        }))
    lift (normalize_json_value workflow.limits.collection_items raw)

  unfoldable pub invoke : StepDefinition → InvocationName → Object → Entries → Exec W Object
  unfolding count_invocation dispatch
  invoke step_def step_name resolved_input globals = do
    count_invocation
    dispatch step_def.target step_def step_name resolved_input globals

  -- whether a branch's `when` holds of the result, and what the audit trail calls it
  unfoldable pub branch_matches : String → Object → When → Exec W (Bool × Matched)
  unfolding evaluate_condition
  branch_matches step_name result (inline condition) = do
    step_outputs ← reads (λ s. s.step_outputs)
    params ← reads (λ s. s.params)
    holds ←
        lift (as_unevaluated (evaluate_condition env.parse condition result step_outputs params))
    pure (holds, by_condition condition)
  branch_matches step_name result (evaluator name resources) = do
    holds ← λ m.
        let (r, m') = calls (env.run_evaluator name result resources step_name) m in
        (as_unevaluated r, m')
    pure (holds, by_evaluator name)

  unfoldable pub take_branch :
      String → Object → List OnResultBranch → Exec W (Option String × Option TransitionRecord)
  unfolding branch_matches
  take_branch step_name result [] = pure (none, none)
  take_branch step_name result (b ∷ bs) = elim b.default [
    | some d ↦
        pure (some d, some (record { step = step_name; matched = default_branch; target = d }))
    | none ↦ elim b.when [
      | none ↦ raise (flow_definition invariant_violation)
      | some w ↦ branch_matches step_name result w >>= λ verdict.
          if verdict.0
          then elim b.then_step [
            | none ↦ raise (flow_definition invariant_violation)
            | some t ↦
                pure (some t, some (record { step = step_name; matched = verdict.1; target = t }))
          ]
          else take_branch step_name result bs
    ]
  ]

  unfoldable pub next_step : FlowStep → Object → Exec W (Option String × Option TransitionRecord)
  unfolding take_branch
  next_step step result = elim step.on_result [
    | none ↦ pure (step.then_step, none)
    | some [] ↦ pure (step.then_step, none)
    | some (b ∷ bs) ↦ take_branch step.name result (b ∷ bs)
  ]
