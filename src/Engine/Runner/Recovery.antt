-- ===== src/Engine/Runner/Recovery.antt =====
-- What becomes of an exception of a step's work in `_execute` (engine/runner.py).
use justflow.Common.{
  ℕ, ◌+◌, [], ◌∷◌, ◌++◌, String, ◌≡◌, refl, sym, ◌∙◌, ap, Bool, true, false, Option, none, some,
}
use justflow.Common.Dict.{insert}
use justflow.Config.Models.{FlowStep}
use justflow.Engine.Exceptions.{
  Raised, flow_definition, cancelled, handler_failure, Result, ok, err,
}
use justflow.Engine.Failures.{
  FailurePhase, FailureCode, FailureDetail, step_failed, classify_failure,
}
use justflow.Engine.Runner.State.{
  Workflow, FailureEpisode, Environment, Machine, RunState, TransitionRecord, StepAuditEntry, error,
  failed,
}
use justflow.Engine.Runner.Invoke.{set_entry}
use justflow.Engine.Runner.Machine.{Exec, ◌>>=◌}
use justflow.Engine.Runner.Execute.{
  Next, Worked, or_handler, region_of, with_failure, advance, recover, fail_handler, fail_step,
  except_step, attempt_step,
}
use justflow.Engine.Runner.Counting.{Quiet, Quiet->>=, Quiet-pure, counted, counted_zero, IsEnd}
use justflow.Engine.Runner.Performing.{checkpoint_after_step-Quiet}

-- The exceptions that the second clause handles: all but FlowDefinitionError and cancellations.
abbrev pub is_caught : Raised → Bool
is_caught (flow_definition kind) = false
is_caught cancelled = false
is_caught _ = true

module _ {W : Type 0} (env : Environment W) (workflow : Workflow) (step : FlowStep) where
  -- What a failure that a handler takes over changes of the state s, and what it keeps.
  pub record Recovers (handler : String) (failure : FailureDetail) (s s' : RunState) : Type 0 where
    pub recorded : s'.failures ≡ s.failures ++ failure ∷ []
    pub begun :
        (es : FailureEpisode) × (s'.active_episode ≡ some es)
        × (es.primary ≡ failure)
        × (es.handler ≡ handler)
        × (es.handler_steps ≡ region_of env workflow handler)
    pub taken :
        (t : TransitionRecord) × (s'.transitions ≡ s.transitions ++ t ∷ [])
        × (t.step ≡ step.name)
        × (t.matched ≡ error)
        × (t.target ≡ handler)
    pub entered :
        (a : StepAuditEntry) × (s'.step_timings ≡ insert step.name a s.step_timings)
        × (a.seq ≡ s.seq)
        × (a.status ≡ failed)
        × (a.output ≡ none)
    pub counted_up : s'.seq ≡ s.seq + 1
    pub exposed : s'.step_outputs ≡ set_entry "error" (env.failure_value failure) s.step_outputs
    pub params_kept : s'.params ≡ s.params
    pub invocations_kept : s'.invocations ≡ s.invocations

  -- What the clauses leave of an exception e and a machine m, by whether e is caught, the active episode,
  -- and the handler.
  abbrev pub Settles :
      (caught : Bool)
      → Option FailureEpisode
      → (handler : Option String) → Raised
      → Machine W
      → Result Next × Machine W
      → Type 0
  Settles false episode handler e m (r, m') = (r ≡ err e) × (m' ≡ m)
  Settles true (some episode) handler e m (r, m') =
      (r ≡ err handler_failure)
      × (m'.state ≡ m.state)
      × (m'.handler_failed
          ≡ some (
            episode.primary,
            classify_failure env.non_retryable e FailurePhase.handler (some step.name)
                (some FailureCode.handler_failed),
          ))
  Settles true none none e m (r, m') = (r ≡ err e) × (m' ≡ m)
  Settles true none (some handler) e m (r, m') =
      Recovers handler
        (classify_failure env.non_retryable e FailurePhase.step (some step.name) (some step_failed))
        m.state m'.state

  Quiet-state : {A : Type 0} (x : Exec W A) → Quiet x → (m : Machine W) → ((x m).1).state ≡ m.state
  Quiet-state x q m =
      let (n, p, e) = q.at_end m in
      e ∙ ap (λ i. counted i m.state) (none_counted (x m).0 n p) ∙ sym (counted_zero m.state)
    where
      none_counted :
          {A : Type 0} (r : Result A) (n : ℕ) → IsEnd (λ n. n ≡ 0) (λ a n. n ≡ 0) r n → n ≡ 0
      none_counted (ok a) n p = p
      none_counted (err e) n p = p

  Recovers-state :
      (handler : String) (failure : FailureDetail) (s s' : RunState)
      → s' ≡ with_failure env workflow step.name handler failure s
      → Recovers handler failure s s'
  Recovers-state handler failure s s' e = record {
    recorded = ap (λ t. t.failures) e;
    begun = (_, ap (λ t. t.active_episode) e, refl, refl, refl);
    taken = (_, ap (λ t. t.transitions) e, refl, refl, refl);
    entered = (_, ap (λ t. t.step_timings) e, refl, refl, refl);
    counted_up = ap (λ t. t.seq) e;
    exposed = ap (λ t. t.step_outputs) e;
    params_kept = ap (λ t. t.params) e;
    invocations_kept = ap (λ t. t.invocations) e;
  }

  failing-Settles :
      (e : Raised) (episode : Option FailureEpisode) (handler : Option String) (m : Machine W)
      → Settles true episode handler e m (fail_step env workflow step e episode handler m)
  unfolding fail_handler recover advance ◌>>=◌
  failing-Settles e (some episode) handler m = (refl, refl, refl)
  failing-Settles e none none m = (refl, refl)
  failing-Settles e none (some handler) m =
      let failure =
        classify_failure env.non_retryable e FailurePhase.step (some step.name)
          (some step_failed) in
      Recovers-state handler failure m.state _ (
        Quiet-state (advance env workflow (some handler))
          (Quiet->>= _ _ (checkpoint_after_step-Quiet env workflow (some handler))
            (λ u. Quiet-pure _))
          _)

  except_step-Settles :
      (e : Raised) (m : Machine W)
      → Settles
          (is_caught e)
          m.state.active_episode
          (or_handler step.on_failure workflow.on_error)
          e
          m
          (except_step env workflow step e m)
  unfolding ◌>>=◌
  except_step-Settles (flow_definition kind) m = (refl, refl)
  except_step-Settles cancelled m = (refl, refl)
  except_step-Settles e m = failing-Settles e m.state.active_episode _ m

  -- Where the work of a step raises: a FlowDefinitionError or a cancellation passes, with nothing
  -- changed; another exception within an episode becomes a handler failure that carries the episode's
  -- primary failure, and the state stays; outside of one it passes where no handler is configured, and
  -- otherwise the failure is recorded, the transition to the handler taken, and an episode begun.
  pub attempt_step-Settles :
      (body : Exec W Worked) (m m' : Machine W) (e : Raised)
      → body m ≡ (err e, m')
      → Settles
          (is_caught e)
          m'.state.active_episode
          (or_handler step.on_failure workflow.on_error)
          e
          m'
          (attempt_step env workflow step body m)
  unfolding attempt_step
  attempt_step-Settles body m m' e h = rw h (except_step-Settles e m')
