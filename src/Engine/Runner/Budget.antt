-- ===== src/Engine/Runner/Budget.antt =====
-- The limit on the invocations of a run (`_invoke` of engine/runner.py).
use justflow.Common.{
  ℕ, ◌+◌, ◌≤◌, ◌≡◌, sym, ap, ◌∙◌, false, inl, inr, arith, leb, leb→le, Bool-cases,
}
use justflow.Engine.Exceptions.{Result, ok, err}
use justflow.Engine.Limits.{enforce_limit}
use justflow.Engine.Data.Objects.{Object, Entries}
use justflow.Engine.Runner.State.{StepDefinition, Workflow, InvocationName, Environment, Machine}
use justflow.Engine.Runner.Machine.{◌>>=◌}
use justflow.Engine.Runner.Invoke.{count_invocation, invoke}
use justflow.Engine.Runner.Counting.{IsEnd}
use justflow.Engine.Runner.Attempts.{invoke-counted}

one_counted : {A : Type 0} (r : Result A) (n : ℕ) → IsEnd (λ i. i ≡ 1) (λ a i. i ≡ 1) r n → n ≡ 1
one_counted (ok a) n h = h
one_counted (err e) n h = h

module _ {W : Type 0} (env : Environment W) (workflow : Workflow) (step_def : StepDefinition)
    (name : InvocationName) (input : Object) (globals : Entries) where
  over_budget :
      (m : Machine W) {v : Object} {m' : Machine W}
      → leb (m.state.invocations + 1) workflow.limits.total_invocations ≡ false
      → invoke env workflow step_def name input globals m ≡ (ok v, m')
      → ⊥
  unfolding invoke count_invocation ◌>>=◌ enforce_limit
  over_budget m over e = let stopped = ap (λ r. r.0) (rw over at e) in cc

  -- Where an invocation returns, one invocation more than before has been counted, and the count does
  -- not pass the limit of the workflow.
  pub invoke-le :
      (m : Machine W) {v : Object} {m' : Machine W}
      → invoke env workflow step_def name input globals m ≡ (ok v, m')
      → (m'.state.invocations ≡ m.state.invocations + 1)
        × (m'.state.invocations ≤ workflow.limits.total_invocations)
  invoke-le m e =
      let (n, ends, same) = (invoke-counted env workflow step_def name input globals).at_end m in
      let one = one_counted _ n ends in
      let counts = sym (ap (λ r. (r.1).state.invocations) e) ∙ ap (λ s. s.invocations) same in
      elim (Bool-cases (leb (m.state.invocations + 1) workflow.limits.total_invocations)) [
        | inl fits ↦ (omega (arith, counts, one), omega (arith, counts, one, leb→le _ _ fits))
        | inr over ↦ absurd (over_budget m over e)
      ]
