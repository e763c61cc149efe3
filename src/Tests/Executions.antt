-- ===== src/Tests/Executions.antt =====
-- `_execute` of engine/runner.py on fixed data.
use text.Mathlib.Text.{◌==◌ as str_eq}
use text.Mathlib.TextEquality.{eq_iff}
use mathlib.Core.Path.{subst}
use justflow.Common.{
  ℕ, ◌+◌, ◌≤◌, ◌<◌, String, ◌≡◌, refl, true, false, Option, none, some, [], ◌∷◌, arith, inl, inr,
  Bool-cases, if◌then◌else◌,
}
use justflow.Common.Dict.{Dict, lookup, insert}
use justflow.Config.Models.{FlowStep}
use justflow.Engine.Exceptions.{flow_continuation, Result, ok, Ensures}
use justflow.Engine.Data.Objects.{dict, end}
use justflow.Engine.Worklist.{member}
use justflow.Engine.Worklist.Reaches.{In}
use justflow.Engine.Runner.State.{
  Workflow, AuditRecord, WorkflowStatus, completed, StepAuditEntry, slept,
}
use justflow.Engine.Runner.Machine.{raise, ◌>>=◌}
use justflow.Engine.Runner.Graph.{flow_steps, add_steps, normal_successors}
use justflow.Engine.Runner.Execute.{attempt_step}
use justflow.Engine.Runner.Run.{fresh_state, execute}
use justflow.Engine.Runner.Audit.{IsSound, targets_of}
use justflow.Engine.Runner.Reports.{Told, Ends, execute-IsTold, execute-Ends}
use justflow.Engine.Runner.Recovery.{Settles, attempt_step-Settles}
use justflow.Tests.Runs.{done, env, start, workflow as polling_workflow}

abbrev pub pause : FlowStep
pause = record done {
  name = "pause";
  then_step = some "done";
  sleep_sec = some 5;
  on_failure = some "done";
  terminal = false;
}

abbrev pub workflow : Workflow
workflow = record polling_workflow {
  flow = pause ∷ done ∷ [];
  steps = [];
  services = [];
  bounded_execution_enabled = false;
}

-- The run sleeps, moves on, and completes.
abbrev summary : Result (Option AuditRecord) → Option (WorkflowStatus × Dict StepAuditEntry)
summary (ok (some audit)) = some (audit.status, audit.steps)
summary _ = none

abbrev slept_at_first : StepAuditEntry
slept_at_first = record { seq = 0; status = slept; output = none; attempts = none; items = none }

execute_run :
    summary ((execute env workflow 10 "r" (dict end) none start).0)
    ≡ some (completed, ("pause", slept_at_first) ∷ [])
unfolding execute ◌>>=◌
execute_run = refl

start-IsSound : IsSound workflow fresh_state
start-IsSound = record { below = tt; spread = tt; edges = tt }

execute-IsTold_example :
    IsSound workflow ((execute env workflow 10 "r" (dict end) none start).1).state
    × Ensures (Told env workflow) ((execute env workflow 10 "r" (dict end) none start).0)
execute-IsTold_example =
    execute-IsTold env workflow (refl, (refl, tt)) "r" (dict end) none start start-IsSound 10

abbrev rank : String → ℕ
rank name = if str_eq name "pause" then 1 else 0

Lower : ℕ → FlowStep → Type 0
Lower n step = (t : String) → In t (targets_of workflow step) → rank t < n

pause-Lower : Lower 1 pause
unfolding Lower normal_successors member
pause-Lower t i = let e : t ≡ "done" = ground (arith, eq_iff "done" t) in rw e (omega arith)

done-Lower : Lower 0 done
unfolding Lower normal_successors member
done-Lower t i = cc

found-Lower : (n : ℕ) (s step : FlowStep) → some s ≡ some step → Lower n s → Lower n step
found-Lower n s step e h = subst (Lower n) (cc (e)) h

rank-lt :
    (name : String) (step : FlowStep) (t : String)
    → lookup name (flow_steps workflow.flow) ≡ some step
    → In t (targets_of workflow step)
    → rank t < rank name
unfolding lookup flow_steps add_steps insert Lower
rank-lt name step t e = elim (Bool-cases (str_eq "pause" name)) [
  | inl first ↦
      let same : name ≡ "pause" = ground (arith, eq_iff "pause" name) in
      rw same (found-Lower 1 pause step (rw same at e) pause-Lower t)
  | inr rest ↦ elim (Bool-cases (str_eq "done" name)) [
    | inl second ↦
        let same : name ≡ "done" = ground (arith, eq_iff "done" name) in
        rw same (found-Lower 0 done step (rw same at e) done-Lower t)
    | inr third ↦ absurd (cc (rw (rest, third) at e))
  ]
]

rank-le : (name : String) → rank name + 2 ≤ 10
rank-le name = ground arith

execute-Ends_example :
    Ensures (Ends env workflow) ((execute env workflow 10 "r" (dict end) none start).0)
execute-Ends_example =
    execute-Ends env workflow (refl, (refl, tt)) "r" (dict end) none start start-IsSound rank
      rank-lt 10 rank-le

attempt_step-Settles_example :
    Settles env workflow pause true none
      (some "done")
      flow_continuation
      start
      (attempt_step env workflow pause (raise flow_continuation) start)
attempt_step-Settles_example =
    attempt_step-Settles env workflow pause (raise flow_continuation) start start flow_continuation
      refl
