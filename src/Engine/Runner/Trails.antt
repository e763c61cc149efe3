-- ===== src/Engine/Runner/Trails.antt =====
-- The `while` loop of `_execute` (engine/runner.py): the audit trail, round after round, and its end.
use text.Mathlib.Text.{◌==◌ as str_eq}
use text.Mathlib.TextEquality.{eq_iff}
use justflow.Common.{
  ℕ, zero, suc, ◌+◌, ◌<◌, ◌≤◌, String, ◌≡◌, refl, ◌∙◌, ap, true, Option, none, some, inl, inr, List,
  [], ◌∷◌, arith, All, Option-cases, Bool-cases,
}
use justflow.Common.Dict.{Dict, lookup, insert, lookup-insert}
use justflow.Config.Models.{FlowStep}
use justflow.Engine.Exceptions.{Result, ok, err, Ensures}
use justflow.Engine.Runner.State.{Workflow, LoopCheckpoint, RunState, Environment}
use justflow.Engine.Runner.Machine.{pure}
use justflow.Engine.Runner.Graph.{flow_steps, add_steps}
use justflow.Engine.Runner.Invoke.{or_missing_key}
use justflow.Engine.Runner.Execute.{Next, moves, ends, is_some, entered, run_step, execute_round}
use justflow.Engine.Runner.Run.{execute_from}
use justflow.Engine.Runner.Keeping.{
  Keeps, Keeps-pure, Keeps-raise, Keeps-lift, Keeps-any_lift, Keeps-modify, Keeps->>=, Keeps-then,
}
use justflow.Engine.Runner.Audit.{targets_of, IsSound}
use justflow.Engine.Runner.Choices.{are_plain}
use justflow.Engine.Worklist.Reaches.{In}
use justflow.Engine.Runner.Rounds.{branches_of, Leads, run_step-Keeps}

abbrev pub IsPlain : FlowStep → Type 0
IsPlain step = are_plain (branches_of step.on_result) ≡ true

-- The keys are the names of plain steps.
abbrev IsNamed : Dict FlowStep → Type 0
IsNamed d =
    (name : String) (step : FlowStep)
    → lookup name d ≡ some step
    → (step.name ≡ name) × IsPlain step

insert-IsNamed :
    (s : FlowStep) (d : Dict FlowStep) → IsPlain s → IsNamed d → IsNamed (insert s.name s d)
insert-IsNamed s d p h name step e = elim (Bool-cases (str_eq s.name name)) [
  | inl same ↦ ground (arith, eq_iff s.name name, lookup-insert s.name name s d)
  | inr other ↦ h name step (rw (lookup-insert s.name name s d, other) at e)
]

add_steps-IsNamed :
    (flow : List FlowStep) (d : Dict FlowStep)
    → All IsPlain flow
    → IsNamed d
    → IsNamed (add_steps d flow)
unfolding add_steps
add_steps-IsNamed [] d p h = h
add_steps-IsNamed (s ∷ flow) d p h =
    add_steps-IsNamed flow (insert s.name s d) p.1 (insert-IsNamed s d p.0 h)

pub flow_steps-IsNamed : (flow : List FlowStep) → All IsPlain flow → IsNamed (flow_steps flow)
unfolding flow_steps lookup
flow_steps-IsNamed flow p = add_steps-IsNamed flow [] p (λ name step e. absurd (cc))

module _ {W : Type 0} (env : Environment W) (workflow : Workflow)
    (plain : All IsPlain workflow.flow) where
  abbrev Sound : RunState → Type 0
  Sound = IsSound workflow

  -- A round of the name leads where the step of the name may.
  abbrev LeadsFrom : String → Next → Type 0
  LeadsFrom name next =
      (step : FlowStep) × (lookup name (flow_steps workflow.flow) ≡ some step)
      × Leads workflow step next

  found :
      (name : String) (step : FlowStep)
      → lookup name (flow_steps workflow.flow) ≡ some step
      → (lookup step.name (flow_steps workflow.flow) ≡ some step) × IsPlain step
  found name step e =
      let (same, p) = flow_steps-IsNamed workflow.flow plain name step e in
      (ap (λ n. lookup n (flow_steps workflow.flow)) same ∙ e, p)

  led_from :
      (name : String) (step : FlowStep)
      → lookup name (flow_steps workflow.flow) ≡ some step
      → (next : Result Next) → Ensures (Leads workflow step) next
      → Ensures (LeadsFrom name) next
  led_from name step e (ok next) h = (step, e, h)
  led_from name step e (err x) h = tt

  run_known :
      (name : String) (loop : Option LoopCheckpoint) (step : FlowStep)
      → lookup name (flow_steps workflow.flow) ≡ some step
      → Keeps Sound (LeadsFrom name) (run_step env workflow step loop)
  run_known name loop step e = record {
    kept = λ m i.
        let (k, p) = found name step e in
        let (i', h) = (run_step-Keeps env workflow step k p loop).kept m i in
        (i', led_from name step e _ h);
  }

  known :
      (name : String)
      → Ensures
          (λ step. lookup name (flow_steps workflow.flow) ≡ some step)
          (or_missing_key (lookup name (flow_steps workflow.flow)))
  known name = elim (Option-cases (lookup name (flow_steps workflow.flow))) [
    | inl missing ↦ rw missing tt
    | inr (step, e) ↦ rw e refl
  ]

  execute_round-Keeps :
      (name : String) (loop : Option LoopCheckpoint)
      → Keeps Sound (LeadsFrom name) (execute_round env workflow name loop)
  unfolding execute_round entered
  execute_round-Keeps name loop = Keeps-then Sound _ _ _ (Keeps-modify Sound _ (λ s k. k)) (λ u.
      Keeps->>= Sound _ _ _ _ (Keeps-lift Sound _ _ (known name)) (λ step e.
        Keeps-then Sound _ _ _ (Keeps-any_lift Sound _) (λ u'. run_known name loop step e)))

  abbrev Runs : (Option (Option String) → Type 0) → ℕ → Next → Type 0
  Runs P fuel next = Keeps Sound P (elim next [
    | moves target ↦ execute_from env workflow fuel target none
    | ends reason ↦ pure (some reason)
  ])

  pub execute_from-Keeps :
      (fuel : ℕ) (current : Option String) (loop : Option LoopCheckpoint)
      → Keeps Sound (λ r. Unit {0}) (execute_from env workflow fuel current loop)
  unfolding execute_from
  execute_from-Keeps zero current loop = Keeps-pure Sound _ _ tt
  execute_from-Keeps (suc fuel) none loop = Keeps-raise Sound _ _
  execute_from-Keeps (suc fuel) (some name) loop =
      Keeps->>= Sound _ _ _ _ (execute_round-Keeps name loop)
        (λ next h. onward (λ target. execute_from-Keeps fuel target none) next)
    where
      onward :
          ((target : Option String)
            → Keeps Sound (λ r. Unit {0}) (execute_from env workflow fuel target none))
          → (next : Next) → Runs (λ r. Unit {0}) fuel next
      onward again (moves target) = again target
      onward again (ends reason) = Keeps-pure Sound _ _ tt

  module _ (rank : String → ℕ)
      (decreases : (name : String) (step : FlowStep) (t : String)
        → lookup name (flow_steps workflow.flow) ≡ some step
        → In t (targets_of workflow step)
        → rank t < rank name) where
    abbrev pub Ended : Option (Option String) → Type 0
    Ended r = is_some r ≡ true

    stranded : (fuel : ℕ) → 1 ≤ fuel → Keeps Sound Ended (execute_from env workflow fuel none none)
    unfolding execute_from
    stranded zero h = absurd (omega (arith, h))
    stranded (suc fuel) h = Keeps-raise Sound _ _

    -- The rounds end before the fuel is out.
    pub execute_from-ends :
        (fuel : ℕ) (name : String) (loop : Option LoopCheckpoint)
        → rank name + 2 ≤ fuel
        → Keeps Sound Ended (execute_from env workflow fuel (some name) loop)
    unfolding execute_from
    execute_from-ends zero name loop h = absurd (omega (arith, h))
    execute_from-ends (suc fuel) name loop h =
        Keeps->>= Sound _ _ _ _ (execute_round-Keeps name loop)
          (onward (λ t l. execute_from-ends fuel t none (omega (arith, h, l))))
      where
        onward :
            ((t : String)
              → rank t < rank name
              → Keeps Sound Ended (execute_from env workflow fuel (some t) none))
            → (next : Next) → LeadsFrom name next
            → Runs Ended fuel next
        onward again (moves none) l = stranded fuel (omega (arith, h))
        onward again (moves (some t)) (step, e, i) = again t (decreases name step t e i)
        onward again (ends reason) l = Keeps-pure Sound _ _ refl
