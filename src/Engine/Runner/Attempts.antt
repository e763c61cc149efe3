-- ===== src/Engine/Runner/Attempts.antt =====
-- The invocation counter and the loops of engine/runner.py: what an action returns, and how many
-- invocations it has counted by then.
use justflow.Common.{
  ℕ, zero, suc, ◌+◌, ◌-◌, ◌≤◌, String, ◌≡◌, refl, Bool, true, false, Option, none, some, arith, leb,
  leb→le,
}
use justflow.Engine.Exceptions.{ok, guard-true}
use justflow.Engine.Limits.{enforce_limit-le}
use justflow.Engine.Data.Objects.{Object, Entries}
use justflow.Config.Models.{FlowStep}
use justflow.Engine.Runner.State.{
  StepDefinition, StepTarget, service_operation, child_workflow, InvocationName, Workflow,
  Environment, CacheConfig, LoopCheckpoint, RunnerCheckpoint,
}
use justflow.Engine.Runner.Machine.{
  Exec, modify, ◌>>=◌, enforce_checkpoint, checkpoint_during_loop, is_due,
}
use justflow.Engine.Runner.Counting.{
  counted_zero, Yields, Yields-pure, Yields->>=, Yields-weaken, Yields-if, Quiet, Quiet->>=,
  Yields-quietly, Yields-lift->>=, Quiet-if, Quiet-lift, Quiet-pure, Quiet-reads, Quiet-calls,
}
use justflow.Engine.Runner.Invoke.{count_invocation, cache_directive, dispatch, invoke}
use justflow.Engine.Runner.Loops.{UntilResult, interval, attempt_until, run_until_from}

module _ {W : Type 0} (env : Environment W) (workflow : Workflow) where
  observed : Quiet {W = W} (λ m. (ok (env.observe_history m.world), m))
  observed = record { at_end = λ m. (0, refl, counted_zero m.state) }

  pub enforce_checkpoint-Quiet : (c : RunnerCheckpoint) → Quiet (enforce_checkpoint env workflow c)
  unfolding enforce_checkpoint
  enforce_checkpoint-Quiet c = Quiet->>= _ _ (Quiet-lift _) (λ bytes.
      Quiet->>= _ _ (Quiet-lift _) (λ fits. Quiet->>= _ _ observed (λ o.
        Quiet-if (is_due workflow.limits o) _ _
          (record { at_end = λ m. (0, refl, counted_zero m.state) }) (Quiet-pure tt))))

  pub checkpoint_during_loop-Quiet :
      (name : String) (loop : LoopCheckpoint)
      → Quiet (checkpoint_during_loop env workflow name loop)
  unfolding checkpoint_during_loop
  checkpoint_during_loop-Quiet name loop =
      Quiet-if workflow.bounded_execution_enabled _ _
        (Quiet->>= _ _ (Quiet-reads _) (λ s. enforce_checkpoint-Quiet _)) (Quiet-pure tt)

  cache_directive-Quiet : (c : Option CacheConfig) → Quiet (cache_directive env workflow c)
  unfolding cache_directive
  cache_directive-Quiet none = Quiet-pure none
  cache_directive-Quiet (some c) =
      Quiet->>= _ _ (Quiet-reads _) (λ params. Quiet->>= _ _ (Quiet-lift _) (λ value. Quiet-pure _))

  dispatch-Quiet :
      (target : StepTarget) (step_def : StepDefinition) (name : InvocationName) (input : Object)
      (globals : Entries)
      → Quiet (dispatch env workflow target step_def name input globals)
  unfolding dispatch
  dispatch-Quiet (child_workflow w) step_def name input globals =
      Quiet->>= _ _ (Quiet-calls _) (λ raw. Quiet->>= _ _ (Quiet-lift _) (λ child. Quiet-pure _))
  dispatch-Quiet (service_operation s a) step_def name input globals =
      Quiet->>= _ _ (cache_directive-Quiet _) (λ cache.
        Quiet->>= _ _ (Quiet-lift _)
          (λ params. Quiet->>= _ _ (Quiet-calls _) (λ raw. Quiet-lift _)))

  counts_one :
      Yields {W = W}
        (λ n. n ≡ 1)
        (λ a n. n ≡ 1)
        (modify (λ s. record s { invocations = s.invocations + 1 }))
  counts_one = record { at_end = λ m. (1, refl, refl) }

  -- An action that counts one invocation first counts it on every path.
  one_then :
      {A B : Type 0} (x : Exec W A) (f : A → Exec W B)
      → Yields (λ n. n ≡ 1) (λ a n. n ≡ 1) x
      → ((a : A) → Quiet (f a))
      → Yields (λ n. n ≡ 1) (λ a n. n ≡ 1) (x >>= f)
  one_then x f hx hf =
      Yields->>= (λ n. n ≡ 1) (λ b n. n ≡ 1) (λ n. n ≡ 1) (λ a n. n ≡ 1) x f hx (λ n e. e)
        (λ a n e.
          Yields-weaken (λ k. k ≡ 0) (λ b k. k ≡ 0) (λ k. n + k ≡ 1) (λ b k. n + k ≡ 1) (f a) (hf a)
            (λ k z. omega arith) (λ b k z. omega arith))

  count_invocation-counted : Yields (λ n. n ≡ 1) (λ a n. n ≡ 1) (count_invocation env workflow)
  unfolding count_invocation
  count_invocation-counted =
      one_then _ _ counts_one (λ a. Quiet->>= _ _ (Quiet-reads _) (λ i. Quiet-lift _))

  -- An invocation, whether it returns or raises, has counted one invocation and has changed nothing
  -- else in the state.
  pub invoke-counted :
      (step_def : StepDefinition) (name : InvocationName) (input : Object) (globals : Entries)
      → Yields (λ n. n ≡ 1) (λ v n. n ≡ 1) (invoke env workflow step_def name input globals)
  unfolding invoke
  invoke-counted step_def name input globals =
      one_then _ _ count_invocation-counted (λ u. dispatch-Quiet _ _ _ _ _)

  interval-Quiet : (more : Bool) (seconds : Option ℕ) → Quiet (interval env workflow more seconds)
  interval-Quiet true (some seconds) = Quiet-calls _
  interval-Quiet true none = Quiet-pure tt
  interval-Quiet false seconds = Quiet-pure tt

  module _ (step : FlowStep) (step_def : StepDefinition) (input : Object) (globals : Entries) where
    -- The attempts made are the invocations counted, no more than were left, and all of them where the
    -- condition was not met.
    abbrev pub IsAccounted : (left attempts : ℕ) → UntilResult → ℕ → Type 0
    IsAccounted left attempts r n =
        (r.attempts ≡ attempts + n) × (n ≤ left) × (r.satisfied ≡ false → n ≡ left)

    attempt_until-IsAccounted :
        (condition : String) (left attempts : ℕ) (last : Object)
        → Yields
            (λ n. n ≤ left)
            (IsAccounted left attempts)
            (attempt_until env workflow step step_def input globals condition left attempts last)
    unfolding attempt_until
    attempt_until-IsAccounted condition zero attempts last =
        Yields-pure (λ n. n ≤ 0) (IsAccounted 0 attempts) _ (omega arith, omega arith, λ e. refl)
    attempt_until-IsAccounted condition (suc left) attempts last =
        Yields->>= (λ n. n ≤ suc left) (IsAccounted (suc left) attempts) (λ n. n ≡ 1) (λ v n. n ≡ 1)
          _ _ (invoke-counted _ _ _ _) (λ n e. omega arith)
          (λ v n e.
            let Raises : ℕ → Type 0 = λ k. n + k ≤ suc left in
            let Rest : UntilResult → ℕ → Type 0 =
              λ r k. IsAccounted (suc left) attempts r (n + k) in
            let fits : Raises 0 = omega arith in
            Yields-quietly Raises Rest _ _ (Quiet-reads _) fits (λ outputs.
              Yields-quietly Raises Rest _ _ (Quiet-reads _) fits (λ params.
                Yields-quietly Raises Rest _ _ (Quiet-lift _) fits (λ satisfied.
                  Yields-if Raises Rest satisfied _ _
                    (Yields-pure Raises Rest _ (omega arith, omega arith, λ f. absurd (cc)))
                    (Yields-quietly Raises Rest _ _ (interval-Quiet _ _) fits (λ slept.
                      Yields-quietly Raises Rest _ _ (checkpoint_during_loop-Quiet _ _) fits
                        (λ stored.
                          Yields-weaken (λ k. k ≤ left) (IsAccounted left (attempts + 1)) Raises
                            Rest _ (attempt_until-IsAccounted condition left (attempts + 1) v)
                            (λ k h. omega arith)
                            (λ r k h. (
                              omega (arith, h.0),
                              omega (arith, h.1),
                              λ f. omega (arith, h.2 f),
                            )))))))))

    -- From any state, the repetition of a step ends in a state in which nothing but the number of
    -- invocations differs, by at most the maximum of iterations less the attempts completed before;
    -- where it returns, the attempts it reports are those completed before and one for each
    -- invocation, they do not pass the limit of loop attempts, and without success they are the
    -- maximum.
    pub run_until_from-accounted :
        (condition : String) (max_iterations attempts : ℕ) (last : Object)
        → Yields
            (λ n. n ≤ max_iterations - attempts)
            (λ r n.
              (r.attempts ≡ attempts + n)
              × (r.attempts ≤ workflow.limits.loop_attempts)
              × (r.satisfied ≡ false → r.attempts ≡ max_iterations))
            (run_until_from env workflow step step_def input globals condition max_iterations
              attempts last)
    unfolding run_until_from
    run_until_from-accounted condition max_iterations attempts last =
        let Raises : ℕ → Type 0 = λ n. n ≤ max_iterations - attempts in
        let Result : UntilResult → ℕ → Type 0 = λ r n.
          (r.attempts ≡ attempts + n)
          × (r.attempts ≤ workflow.limits.loop_attempts)
          × (r.satisfied ≡ false → r.attempts ≡ max_iterations) in
        Yields-lift->>= Raises Result _ _ (omega arith) (λ u fits.
          Yields-lift->>= Raises Result _ _ (omega arith) (λ u' ordered.
            let limited = enforce_limit-le max_iterations workflow.limits.loop_attempts _ fits in
            let within = guard-true (leb attempts max_iterations) _ ordered in
            Yields-weaken Raises (IsAccounted (max_iterations - attempts) attempts) Raises Result _
              (attempt_until-IsAccounted condition (max_iterations - attempts) attempts last)
              (λ n h. h)
              (λ r n h. (
                h.0,
                omega (arith, h.0, h.1, limited, leb→le attempts max_iterations within),
                λ f. omega (arith, h.0, h.2 f, leb→le attempts max_iterations within),
              ))))
