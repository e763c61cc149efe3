-- ===== src/Engine/Runner/Performing.antt =====
-- The parts of a round of `_execute` (engine/runner.py) that leave the audit trail as it is.
use justflow.Common.{ℕ, String, Option, none, some, inl, inr, Option-cases}
use justflow.Config.Models.{FlowStep}
use justflow.Engine.Data.Objects.{Object, Entries}
use justflow.Engine.Runner.State.{
  Workflow, StepDefinition, LoopCheckpoint, RunState, Environment, iteration, until_loop,
}
use justflow.Engine.Runner.Machine.{checkpoint_after_step}
use justflow.Engine.Runner.Invoke.{store_output}
use justflow.Engine.Runner.Loops.{run_until, continue_until}
use justflow.Engine.Runner.Counting.{Quiet, Quiet->>=, Quiet-reads, Quiet-if, Quiet-pure}
use justflow.Engine.Runner.Attempts.{
  invoke-counted, run_until_from-accounted, enforce_checkpoint-Quiet,
}
use justflow.Engine.Runner.Items.{run_iteration-accounted, reject_loop_cache-Quiet}
use justflow.Engine.Runner.Keeping.{
  Keeps, Keeps-pure, Keeps-raise, Keeps-any_lift, Keeps-reads, Keeps-modify, Keeps-then,
  Yields-Keeps,
}
use justflow.Engine.Runner.Audit.{IsSound}
use justflow.Engine.Runner.Execute.{perform}

module _ {W : Type 0} (env : Environment W) (workflow : Workflow) where
  abbrev pub Sound : RunState → Type 0
  Sound = IsSound workflow

  pub checkpoint_after_step-Quiet :
      (target : Option String) → Quiet (checkpoint_after_step env workflow target)
  unfolding checkpoint_after_step
  checkpoint_after_step-Quiet none = Quiet-pure tt
  checkpoint_after_step-Quiet (some t) =
      Quiet-if workflow.bounded_execution_enabled _ _
        (Quiet->>= _ _ (Quiet-reads _) (λ s. enforce_checkpoint-Quiet env workflow _))
        (Quiet-pure tt)

  pub store_output-Keeps :
      (step : FlowStep) (v : Object)
      → Keeps Sound (λ u. Unit {0}) (store_output env workflow step v)
  unfolding store_output
  store_output-Keeps step v = Keeps-then Sound _ _ _ (Keeps-reads Sound _ _ (λ s. tt)) (λ outputs.
      Keeps-then Sound _ _ _ (Keeps-any_lift Sound _) (λ outputs'. Keeps-modify Sound _ (λ s h. h)))

  module _ (step : FlowStep) (step_def : StepDefinition) (input : Object) (globals : Entries) where
    continue_until-Keeps :
        (condition : Option String) (max_iterations : Option ℕ) (loop : Option LoopCheckpoint)
        → Keeps Sound
            (λ r. Unit {0})
            (continue_until env workflow step step_def input globals condition max_iterations loop)
    continue_until-Keeps (some c) (some n) (some (until_loop name k v)) =
        Yields-Keeps Sound _ (λ i s h. h)
          (run_until_from-accounted env workflow step step_def input globals c n k v)
    continue_until-Keeps (some c) (some n) (some (iteration name k rs f)) =
        Yields-Keeps Sound _ (λ i s h. h)
          (run_until_from-accounted env workflow step step_def input globals c n 0 _)
    continue_until-Keeps (some c) (some n) none =
        Yields-Keeps Sound _ (λ i s h. h)
          (run_until_from-accounted env workflow step step_def input globals c n 0 _)
    continue_until-Keeps (some c) none loop = Keeps-raise Sound _ _
    continue_until-Keeps none n loop = Keeps-raise Sound _ _

    pub perform-Keeps :
        (loop : Option LoopCheckpoint)
        → Keeps Sound (λ w. Unit {0}) (perform env workflow step step_def input globals loop)
    unfolding perform run_until
    perform-Keeps loop = elim (Option-cases step.for_each) [
      | inr (ref, e) ↦
          rw (e, perform)
            (Keeps-then Sound _ _ _
              (Yields-Keeps Sound _ (λ i s h. h)
                (run_iteration-accounted env workflow step step_def input globals ref loop))
              (λ r. Keeps-pure Sound _ _ tt))
      | inl single ↦ elim (Option-cases step.until) [
        | inr (c, e) ↦
            rw (single, e, perform)
              (Keeps-then Sound _ _ _
                (Keeps-then Sound _ _ _
                  (Yields-Keeps Sound _ (λ i s h. h)
                    (reject_loop_cache-Quiet env workflow step step_def input globals))
                  (λ u. continue_until-Keeps _ _ loop))
                (λ r. Keeps-pure Sound _ _ tt))
        | inl once ↦
            rw (single, once, perform)
              (Keeps-then Sound _ _ _
                (Yields-Keeps Sound _ (λ i s h. h)
                  (invoke-counted env workflow step_def _ input globals))
                (λ v. Keeps-pure Sound _ _ tt))
      ]
    ]
