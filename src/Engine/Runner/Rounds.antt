-- ===== src/Engine/Runner/Rounds.antt =====
-- One round of `_execute` (engine/runner.py): the audit trail that it leaves, and where it leads.
use justflow.Common.{
  ℕ, String, ◌≡◌, refl, sym, Bool, true, false, Option, none, some, inl, inr, List, [], ◌∷◌,
  if◌then◌else◌, Option-cases,
}
use mathlib.Core.Path.{subst}
use justflow.Common.Dict.{lookup}
use justflow.Config.Models.{FlowStep, OnResultBranch, WaitForConfig}
use justflow.Engine.Exceptions.{Raised, Result, ok, err, Ensures, flow_definition, cancelled}
use justflow.Engine.Data.Objects.{Object}
use justflow.Engine.Worklist.{member}
use justflow.Engine.Worklist.Reaches.{In, In-head}
use justflow.Engine.Runner.State.{
  Workflow, LoopCheckpoint, TransitionRecord, Matched, FailureEpisode, StepAuditEntry, RunState,
  Environment, Machine, error,
}
use justflow.Engine.Runner.Machine.{Exec, pure, reads, modify, ◌>>=◌}
use justflow.Engine.Runner.Graph.{
  flow_steps, normal_successors, branch_targets, timeout_targets, listed,
}
use justflow.Engine.Runner.Invoke.{take_branch, next_step}
use justflow.Engine.Runner.Keeping.{
  Keeps, Keeps-pure, Keeps-raise, Keeps-any_lift, Keeps-calls, Keeps-reads, Keeps-if, Keeps-modify,
  Keeps->>=, Keeps-then, Yields-Keeps,
}
use justflow.Engine.Runner.Performing.{
  checkpoint_after_step-Quiet, store_output-Keeps, perform-Keeps,
}
use justflow.Engine.Runner.Audit.{
  In-left, In-right, targets_of, IsEdge, IsSound, insert-IsTrail, snoc-IsTrail,
}
use justflow.Engine.Runner.Choices.{are_plain, IsChoice, take_branch-Keeps, run_wait-Keeps}
use justflow.Engine.Runner.Execute.{
  Next, moves, ends, Worked, recorded, with_transition, with_decision, or_handler, advance,
  run_sleep, take_next, expire_wait, receive_event, after_wait, run_waiting, recover, fail_handler,
  fail_step, except_step, exhaust, complete_step, settle_step, attempt_step, skip_step,
  run_operation, run_op, run_kind, run_step,
}

-- The branches of a step.
abbrev pub branches_of : Option (List OnResultBranch) → List OnResultBranch
branches_of none = []
branches_of (some bs) = bs

-- What a round may return: a step that the given one may lead to, or the end at a terminal step.
abbrev pub Leads : Workflow → FlowStep → Next → Type 0
Leads workflow step (moves none) = Unit
Leads workflow step (moves (some t)) = In t (targets_of workflow step)
Leads workflow step (ends reason) = (step.terminal ≡ true) × (reason ≡ step.reason)

abbrev pub LeadsTo : Workflow → FlowStep → Option String → Type 0
LeadsTo workflow step none = Unit
LeadsTo workflow step (some t) = In t (targets_of workflow step)

In-listed : (t : String) (o : Option String) → o ≡ some t → In t (listed o)
unfolding member
In-listed t o e = rw e (In-head t [])

module _ {W : Type 0} (env : Environment W) (workflow : Workflow) (step : FlowStep)
    (known : lookup step.name (flow_steps workflow.flow) ≡ some step)
    (plain : are_plain (branches_of step.on_result) ≡ true) where
  abbrev Sound : RunState → Type 0
  Sound = IsSound workflow

  abbrev Moving : Next → Type 0
  Moving = Leads workflow step

  normal : (t : String) → In t (normal_successors step) → In t (targets_of workflow step)
  normal t i = In-left t (normal_successors step) _ i

  then_leads : (t : String) → step.then_step ≡ some t → In t (targets_of workflow step)
  unfolding normal_successors
  then_leads t e = normal t (In-left t (listed step.then_step) _ (In-listed t step.then_step e))

  branch_leads :
      (bs : List OnResultBranch)
      → step.on_result ≡ some bs
      → (t : String) → In t (branch_targets bs)
      → In t (targets_of workflow step)
  unfolding normal_successors
  branch_leads bs e t i = normal t (
      In-right t (listed step.then_step) _
        (In-left t (elim step.on_result [ none ↦ [] | some bs' ↦ branch_targets bs' ]) _ (rw e i)))

  timeout_leads :
      (w : WaitForConfig)
      → step.wait_for ≡ some w
      → (t : String) → w.on_timeout ≡ some t
      → In t (targets_of workflow step)
  unfolding normal_successors
  timeout_leads w e t e' = normal t (
      In-right t (listed step.then_step) _ (
        In-right t (elim step.on_result [ none ↦ [] | some bs ↦ branch_targets bs ]) _
          (In-left t (timeout_targets step.wait_for) _ (rw e (In-listed t w.on_timeout e')))))

  exhausted_leads : (t : String) → step.on_exhausted ≡ some t → In t (targets_of workflow step)
  unfolding normal_successors
  exhausted_leads t e = normal t (
      In-right t (listed step.then_step) _ (
        In-right t (elim step.on_result [ none ↦ [] | some bs ↦ branch_targets bs ]) _
          (In-right t (timeout_targets step.wait_for) _ (In-listed t step.on_exhausted e))))

  handler_leads :
      (t : String)
      → or_handler step.on_failure workflow.on_error ≡ some t
      → In t (targets_of workflow step)
  handler_leads t e = In-right t (normal_successors step) _ (In-listed t _ e)

  edge :
      (matched : Matched) (t : String)
      → In t (targets_of workflow step)
      → IsEdge workflow (record { step = step.name; matched = matched; target = t })
  edge matched t i = (step, known, i)

  advance-Keeps :
      (target : Option String)
      → LeadsTo workflow step target
      → Keeps Sound Moving (advance env workflow target)
  unfolding advance
  advance-Keeps target h =
      Keeps-then Sound _ _ _
        (Yields-Keeps Sound _ (λ i s k. k) (checkpoint_after_step-Quiet env workflow target))
        (λ u. Keeps-pure Sound _ _ (leads target h))
    where
      leads : (target : Option String) → LeadsTo workflow step target → Moving (moves target)
      leads none h = tt
      leads (some t) h = h

  led :
      (target : Option String)
      → ((t : String) → target ≡ some t → In t (targets_of workflow step))
      → LeadsTo workflow step target
  led none h = tt
  led (some t) h = h t refl

  onward : Keeps Sound Moving (advance env workflow step.then_step)
  onward = advance-Keeps step.then_step (led step.then_step then_leads)

  recording :
      (audit : ℕ → StepAuditEntry)
      → ((n : ℕ) → (audit n).seq ≡ n)
      → Keeps Sound (λ u. Unit {0}) (modify {W = W} (recorded step.name audit))
  recording audit h =
      Keeps-modify Sound _ (λ s k. insert-IsTrail workflow step.name (audit s.seq) (h s.seq) k)

  transition :
      (matched : Matched) (t : String)
      → In t (targets_of workflow step)
      → Keeps Sound (λ u. Unit {0}) (modify {W = W} (with_transition step.name matched t))
  transition matched t i =
      Keeps-modify Sound _ (λ s k. snoc-IsTrail workflow _ (edge matched t i) k)

  run_sleep-Keeps : (seconds : ℕ) → Keeps Sound Moving (run_sleep env workflow step seconds)
  unfolding run_sleep
  run_sleep-Keeps seconds =
      Keeps-then Sound _ _ _ (Keeps-calls Sound _ _ (λ u. tt))
        (λ u. Keeps-then Sound _ _ _ (recording _ (λ n. refl)) (λ u'. onward))

  abbrev Chosen : Option String × Option TransitionRecord → Type 0
  Chosen = IsChoice step.name (targets_of workflow step)

  next_step-Keeps : (v : Object) → Keeps Sound Chosen (next_step env workflow step v)
  unfolding next_step
  next_step-Keeps v = elim (Option-cases step.on_result) [
    | inl no_branches ↦ straight (unfold next_step in rw no_branches refl)
    | inr (bs, e) ↦ branching bs e
  ]
    where
      default : (target : Option String) → LeadsTo workflow step target → Chosen (target, none)
      default none h = tt
      default (some t) h = h

      straight :
          next_step env workflow step v ≡ pure (step.then_step, none)
          → Keeps Sound Chosen (next_step env workflow step v)
      straight e =
          subst (Keeps Sound Chosen) (sym e)
            (Keeps-pure Sound Chosen _ (default step.then_step (led step.then_step then_leads)))

      branching :
          (bs : List OnResultBranch)
          → step.on_result ≡ some bs
          → Keeps Sound Chosen (next_step env workflow step v)
      branching [] e = straight (unfold next_step in rw e refl)
      branching (b ∷ bs) e =
          let taken : next_step env workflow step v
              ≡ take_branch env workflow step.name v (b ∷ bs) =
            unfold next_step in rw e refl in
          subst (Keeps Sound Chosen) (sym taken) (
            take_branch-Keeps env workflow Sound step.name v (targets_of workflow step) (b ∷ bs)
              (rw e at plain) (branch_leads (b ∷ bs) e))

  decide :
      (choice : Option String × Option TransitionRecord)
      → Chosen choice
      → Keeps Sound (λ u. Unit {0}) (modify {W = W} (with_decision (choice.1)))
  decide (t, none) h = Keeps-modify Sound _ (λ s k. k)
  decide (none, some r) h = absurd h
  decide (some t, some r) h =
      Keeps-modify Sound _ (λ s k. snoc-IsTrail workflow r (step, rw (h.0) known, rw (h.1) (h.2)) k)

  Chosen-leads :
      (choice : Option String × Option TransitionRecord)
      → Chosen choice
      → LeadsTo workflow step (choice.0)
  Chosen-leads (none, r) h = tt
  Chosen-leads (some t, none) h = h
  Chosen-leads (some t, some r) h = h.2

  take_next-Keeps : (v : Object) → Keeps Sound Moving (take_next env workflow step v)
  unfolding take_next
  take_next-Keeps v = Keeps->>= Sound Chosen Moving _ _ (next_step-Keeps v) (λ choice h.
      Keeps-then Sound _ _ _ (decide choice h)
        (λ u. advance-Keeps (choice.0) (Chosen-leads choice h)))

  expire_wait-Keeps :
      (w : WaitForConfig)
      → step.wait_for ≡ some w
      → (target : Option String) → w.on_timeout ≡ target
      → Keeps Sound Moving (expire_wait env workflow step target)
  unfolding expire_wait
  expire_wait-Keeps w e none e' =
      Keeps-then Sound _ _ _ (recording _ (λ n. refl)) (λ u. Keeps-raise Sound _ _)
  expire_wait-Keeps w e (some t) e' =
      let i = timeout_leads w e t e' in
      Keeps-then Sound _ _ _ (recording _ (λ n. refl))
        (λ u. Keeps-then Sound _ _ _ (transition _ t i) (λ u'. advance-Keeps (some t) i))

  receive_event-Keeps : (v : Object) → Keeps Sound Moving (receive_event env workflow step v)
  unfolding receive_event
  receive_event-Keeps v = Keeps-then Sound _ _ _ (Keeps-any_lift Sound _) (λ output.
      Keeps-then Sound _ _ _ (store_output-Keeps env workflow step output)
        (λ u. Keeps-then Sound _ _ _ (recording _ (λ n. refl)) (λ u'. take_next-Keeps output)))

  run_waiting-Keeps :
      (w : WaitForConfig)
      → step.wait_for ≡ some w
      → Keeps Sound Moving (run_waiting env workflow step w)
  unfolding run_waiting
  run_waiting-Keeps w e = Keeps-then Sound _ _ _ (run_wait-Keeps env Sound w) after
    where
      after :
          (payload : Option Object) → Keeps Sound Moving (after_wait env workflow step w payload)
      after none = expire_wait-Keeps w e w.on_timeout refl
      after (some v) = receive_event-Keeps v

  exhaust-Keeps :
      (target : Option String)
      → step.on_exhausted ≡ target
      → Keeps Sound Moving (exhaust env workflow step target)
  exhaust-Keeps none e = Keeps-raise Sound _ _
  exhaust-Keeps (some t) e =
      let i = exhausted_leads t e in
      Keeps-then Sound _ _ _ (transition _ t i) (λ u. advance-Keeps (some t) i)

  complete_step-Keeps :
      (worked : Worked) → Keeps Sound Moving (complete_step env workflow step worked)
  unfolding complete_step
  complete_step-Keeps worked =
      Keeps-if Sound _ worked.until_exhausted _ _
        (Keeps-then Sound _ _ _ (recording _ (λ n. refl))
          (λ u. exhaust-Keeps step.on_exhausted refl))
        (Keeps-then Sound _ _ _ (store_output-Keeps env workflow step worked.result) (λ u.
          Keeps-then Sound _ _ _ (recording _ (λ n. refl)) (λ u'. take_next-Keeps worked.result)))

  recover-Keeps :
      (handler : String) (e : Raised)
      → or_handler step.on_failure workflow.on_error ≡ some handler
      → Keeps Sound Moving (recover env workflow step handler e)
  unfolding recover
  recover-Keeps handler e h =
      let i = handler_leads handler h in
      Keeps-then Sound _ _ _
        (Keeps-modify Sound _ (λ s k.
          snoc-IsTrail workflow _ (edge error handler i)
            (insert-IsTrail workflow step.name _ refl k)))
        (λ u. advance-Keeps (some handler) i)

  fail_handler-Keeps :
      (episode : FailureEpisode) (e : Raised)
      → Keeps Sound Moving (fail_handler env workflow step episode e)
  unfolding fail_handler
  fail_handler-Keeps episode e = record { kept = λ m i. (i, tt) }

  fail_step-Keeps :
      (e : Raised) (episode : Option FailureEpisode) (handler : Option String)
      → or_handler step.on_failure workflow.on_error ≡ handler
      → Keeps Sound Moving (fail_step env workflow step e episode handler)
  fail_step-Keeps e (some episode) handler h = fail_handler-Keeps episode e
  fail_step-Keeps e none none h = Keeps-raise Sound _ _
  fail_step-Keeps e none (some handler) h = recover-Keeps handler e h

  failing :
      (e : Raised)
      → Keeps Sound Moving (
          reads (λ s. s.active_episode) >>= λ episode.
          fail_step env workflow step e episode (or_handler step.on_failure workflow.on_error))
  failing e =
      Keeps-then Sound _ _ _ (Keeps-reads Sound _ _ (λ s. tt))
        (λ episode. fail_step-Keeps e episode _ refl)

  except_step-Keeps : (e : Raised) → Keeps Sound Moving (except_step env workflow step e)
  except_step-Keeps (flow_definition kind) = Keeps-raise Sound _ _
  except_step-Keeps cancelled = Keeps-raise Sound _ _
  except_step-Keeps e = failing e

  attempt_step-Keeps :
      (body : Exec W Worked)
      → Keeps Sound (λ w. Unit {0}) body
      → Keeps Sound Moving (attempt_step env workflow step body)
  unfolding attempt_step
  attempt_step-Keeps body h = record { kept = λ m i. settled (body m) (h.kept m i).0 }
    where
      settled :
          (r : Result Worked × Machine W)
          → Sound (r.1).state
          → Sound ((settle_step env workflow step (r.0) (r.1)).1).state
            × Ensures Moving ((settle_step env workflow step (r.0) (r.1)).0)
      settled (ok worked, m) i = (complete_step-Keeps worked).kept m i
      settled (err e, m) i = (except_step-Keeps e).kept m i

  run_operation-Keeps :
      (op : String) (loop : Option LoopCheckpoint)
      → Keeps Sound Moving (run_operation env workflow step op loop)
  unfolding run_operation skip_step
  run_operation-Keeps op loop = Keeps-then Sound _ _ _ (Keeps-any_lift Sound _) (λ step_def.
      Keeps-then Sound _ _ _ (Keeps-any_lift Sound _) (λ base.
        Keeps-then Sound _ _ _ (Keeps-reads Sound _ _ (λ s. tt)) (λ params.
          Keeps-then Sound _ _ _ (Keeps-any_lift Sound _) (λ merged.
            Keeps-then Sound _ _ _ (Keeps-any_lift Sound _) (λ globals.
              Keeps-then Sound _ _ _ (Keeps-reads Sound _ _ (λ s. tt)) (λ outputs.
                Keeps-then Sound _ _ _ (Keeps-any_lift Sound _) (λ input.
                  Keeps-then Sound _ _ _ (Keeps-any_lift Sound _) (λ skips.
                    Keeps-if Sound _ skips _ _
                      (Keeps-then Sound _ _ _ (recording _ (λ n. refl)) (λ u. onward))
                      (attempt_step-Keeps _
                        (perform-Keeps env workflow step step_def input globals loop))))))))))

  run_op-Keeps :
      (op : Option String) (loop : Option LoopCheckpoint)
      → Keeps Sound Moving (run_op env workflow step op loop)
  run_op-Keeps none loop = Keeps-raise Sound _ _
  run_op-Keeps (some op) loop = run_operation-Keeps op loop

  run_kind-Keeps :
      (seconds : Option ℕ) (w : Option WaitForConfig) (loop : Option LoopCheckpoint)
      → step.wait_for ≡ w
      → Keeps Sound Moving (run_kind env workflow step seconds w loop)
  run_kind-Keeps (some n) w loop e = run_sleep-Keeps n
  run_kind-Keeps none (some w) loop e = run_waiting-Keeps w e
  run_kind-Keeps none none loop e = run_op-Keeps step.op loop

  pub run_step-Keeps :
      (loop : Option LoopCheckpoint) → Keeps Sound Moving (run_step env workflow step loop)
  unfolding run_step
  run_step-Keeps loop = chosen step.terminal refl
    where
      chosen :
          (last : Bool)
          → step.terminal ≡ last
          → Keeps Sound Moving (
              if last
              then pure (ends step.reason)
              else run_kind env workflow step step.sleep_sec step.wait_for loop)
      chosen true e = Keeps-pure Sound _ _ (e, refl)
      chosen false e = run_kind-Keeps step.sleep_sec step.wait_for loop refl
