-- ===== src/Tests/Runs.antt =====
-- engine/runner.py on fixed data: an executor that answers each call with the number of the call.
use mathlib.Core.Logic.{◌↔◌}
use justflow.Common.{ℕ, ◌+◌, ◌-◌, ◌≤◌, String, ◌≡◌, refl, true, false, none, some, List, [], ◌∷◌}
use justflow.Common.Int.{pos}
use justflow.Config.Models.{FlowStep, OnResultBranch, inline, ReferencePath, default_is_last}
use justflow.Engine.Exceptions.{ok, Ensures}
use justflow.Engine.Failures.{FailurePhase}
use justflow.Engine.Data.Objects.{Object, null, int, list, nil, cons, end}
use justflow.Engine.Evaluator.Syntax.{
  parsed, Expr, compare, comparing, finished, greater, reference, constant,
}
use justflow.Engine.Worklist.{member}
use justflow.Engine.Worklist.Reaches.{In}
use justflow.Engine.Runner.Graph.{flow_steps, reachable_from_entry, handler_region}
use justflow.Engine.Runner.State.{
  service_operation, StepDefinition, RuntimeLimits, Workflow, Environment, Machine, plain,
}
use justflow.Engine.Runner.Machine.{◌>>=◌}
use justflow.Engine.Runner.Invoke.{invoke, take_branch}
use justflow.Engine.Runner.Loops.{run_until_from, run_iteration}
use justflow.Engine.Runner.Counting.{Yields}
use justflow.Engine.Runner.Budget.{invoke-le}
use justflow.Engine.Runner.Attempts.{run_until_from-accounted}
use justflow.Engine.Runner.Items.{run_iteration-accounted}
use justflow.Engine.Runner.Branches.{Moves, take_branch-Moves}
use justflow.Engine.Runner.Connected.{Connects, Escapes}
use justflow.Engine.Runner.Regions.{
  reachable_from_entry-Connects, handler_region-Escapes, handler_region_outside,
}

abbrev limits : RuntimeLimits
limits = record {
  collection_items = 100;
  fanout_items = 10;
  fanout_chunk_items = 2;
  parallelism = 2;
  loop_attempts = 5;
  total_invocations = 20;
  workflow_state_bytes = 1000;
  trigger_payload_bytes = 100;
  workflow_output_bytes = 100;
  audit_record_bytes = 100;
  history_events = 50;
  history_bytes = 5000;
}

abbrev check_op : StepDefinition
check_op = record {
  target = service_operation "orders" "check";
  params = end;
  required_resources = [];
  cache = none;
}

abbrev polling : FlowStep
polling = record {
  name = "poll";
  op = some "check";
  input = none;
  output = none;
  params = end;
  then_step = some "done";
  on_result = none;
  condition = none;
  for_each = none;
  as_var = none;
  parallel = false;
  max_concurrency = none;
  on_iteration_fail = none;
  wait_for = none;
  sleep_sec = none;
  until = some "input > 1";
  max_iterations = some 3;
  interval_sec = some 5;
  on_exhausted = some "repair";
  on_failure = none;
  terminal = false;
  reason = none;
}

abbrev repair : FlowStep
repair = record polling {
  name = "repair";
  until = none;
  max_iterations = none;
  interval_sec = none;
  on_exhausted = none;
}

abbrev pub done : FlowStep
done = record repair { name = "done"; op = none; then_step = none; terminal = true }

abbrev pub workflow : Workflow
workflow = record {
  flow = polling ∷ done ∷ repair ∷ [];
  steps = ("check", check_op) ∷ [];
  services = ("orders", end) ∷ [];
  on_error = none;
  params = end;
  has_input_schema = false;
  has_output_schema = false;
  result = none;
  on_complete = none;
  limits = limits;
  bounded_execution_enabled = true;
}

-- input > 1
abbrev more_than_one : Expr
more_than_one = compare (reference "input") (comparing greater (constant (int (pos 1))) finished)

abbrev pub env : Environment ℕ
env = record {
  run_step = λ i w. (ok (int (pos w)), w + 1);
  run_subworkflow = λ w i g n. (ok null, n);
  run_evaluator = λ e r l s n. (ok true, n);
  wait_for_event = λ signal timeout n. (ok none, n);
  sleep = λ seconds n. (ok tt, n);
  validate_contract = λ direction v n. (ok tt, n);
  archive = λ path r n. (ok tt, n);
  archive_failure = λ path e n. (ok tt, n);
  now = λ n. n;
  from_isoformat = λ text. none;
  epoch_of = λ f. 0;
  non_retryable = λ e. none;
  failure_value = λ d. null;
  payload_size = λ v. ok 1;
  record_size = λ r. ok 1;
  archive_size = λ r. ok 1;
  observe_history = λ n. record { events = n; bytes = n; server_suggested = false };
  parse = λ text. parsed more_than_one;
  to_text = λ v. "";
  describe = λ e. null;
  checkpoint_bytes = λ c. ok 10;
}

abbrev pub start : Machine ℕ
start = record {
  state = record {
    params = end;
    step_outputs = end;
    step_timings = [];
    transitions = [];
    failures = [];
    active_episode = none;
    invocations = 0;
    seq = 0;
    phase = FailurePhase.internal;
    current_step_name = none;
    next_seq = 0;
  };
  continuation = none;
  handler_failed = none;
  world = 0;
}

abbrev after_one : Machine ℕ
after_one = record start { state = record start.state { invocations = 1 }; world = 1 }

invoke_run :
    invoke env workflow check_op (plain "poll") null end start ≡ (ok (int (pos 0)), after_one)
unfolding invoke ◌>>=◌
invoke_run = refl

invoke-le_example :
    (after_one.state.invocations ≡ start.state.invocations + 1) × (after_one.state.invocations ≤ 20)
invoke-le_example = invoke-le env workflow check_op (plain "poll") null end start invoke_run

run_until_from-accounted_example :
    Yields
      (λ n. n ≤ 3 - 0)
      (λ r n. (r.attempts ≡ 0 + n) × (r.attempts ≤ 5) × (r.satisfied ≡ false → r.attempts ≡ 3))
      (run_until_from env workflow polling check_op null end "input > 1" 3 0 null)
run_until_from-accounted_example =
    run_until_from-accounted env workflow polling check_op null end "input > 1" 3 0 null

poll_run :
    (run_until_from env workflow polling check_op null end "input > 1" 3 0 null start).0
    ≡ ok (record { result = int (pos 2); attempts = 3; satisfied = true })
unfolding run_until_from ◌>>=◌
poll_run = refl

abbrev three_items : Object
three_items = list (cons null (cons null (cons null nil)))

abbrev whole_input : ReferencePath
whole_input = record { root = "input"; path = [] }

run_iteration-accounted_example :
    Yields
      (λ n. n ≤ 10)
      (λ r n. (0 + n ≡ (r.1).0) × ((r.1).0 ≤ 10) × ((r.1).1 ≤ 0 + n))
      (run_iteration env workflow repair check_op three_items end whole_input none)
run_iteration-accounted_example =
    run_iteration-accounted env workflow repair check_op three_items end whole_input none

abbrev otherwise_done : OnResultBranch
otherwise_done = record { when = none; default = some "done"; then_step = none }

abbrev when_more : OnResultBranch
when_more = record { when = some (inline "input > 1"); default = none; then_step = some "repair" }

take_branch-Moves_example :
    Ensures Moves ((take_branch env workflow "poll" null (when_more ∷ otherwise_done ∷ []) start).0)
unfolding default_is_last
take_branch-Moves_example =
    take_branch-Moves env workflow "poll" null (when_more ∷ otherwise_done ∷ []) start refl

reachable_from_entry-Connects_example :
    (r : List String) × (reachable_from_entry (polling ∷ done ∷ repair ∷ []) ≡ some r)
    × ((t : String) → In t r ↔ Connects (flow_steps (polling ∷ done ∷ repair ∷ [])) "poll" t)
reachable_from_entry-Connects_example = reachable_from_entry-Connects polling (done ∷ repair ∷ [])

abbrev known : List FlowStep
known = polling ∷ done ∷ repair ∷ []

handler_region-Escapes_example :
    (r : List String) × (handler_region (flow_steps known) ("poll" ∷ "done" ∷ []) "repair" ≡ some r)
    × ((t : String) → In t r ↔ Escapes (flow_steps known) ("poll" ∷ "done" ∷ []) "repair" t)
handler_region-Escapes_example =
    handler_region-Escapes (flow_steps known) ("poll" ∷ "done" ∷ []) "repair"

abbrev poll : String
poll = "poll"

repair_region : handler_region (flow_steps known) ("poll" ∷ "done" ∷ []) "poll" ≡ some ("poll" ∷ [])
unfolding handler_region flow_steps
repair_region = refl

handler_region_outside_example : poll ≡ poll
unfolding member
handler_region_outside_example =
    handler_region_outside (flow_steps known) ("poll" ∷ "done" ∷ []) "poll" ("poll" ∷ []) "poll"
      repair_region refl refl
