-- ===== src/Engine/Runner/Reports.antt =====
-- The audit record of a whole run of `_execute` (engine/runner.py).
use justflow.Common.{
  ℕ, ◌+◌, ◌<◌, ◌≤◌, String, ◌≡◌, refl, Bool, true, false, Option, none, some, List, [], ◌∷◌, All,
}
use justflow.Common.Dict.{lookup}
use justflow.Config.Models.{FlowStep, ReferencePath}
use justflow.Engine.Exceptions.{Ensures}
use justflow.Engine.Data.Objects.{Object}
use justflow.Engine.Runner.State.{
  Workflow, LoopCheckpoint, RunnerCheckpoint, RunState, AuditRecord, Direction, Environment,
  Machine,
}
use justflow.Engine.Runner.Machine.{reads}
use justflow.Engine.Runner.Graph.{flow_steps}
use justflow.Engine.Runner.Execute.{is_some}
use justflow.Engine.Runner.Run.{
  status_of, has_any, closed_record, enforce_payload, check_contract, start_run, execute_from,
  accept_result, final_result, archive_record, finish_run, finish_at, entry_step, execute,
}
use justflow.Engine.Runner.Keeping.{
  Keeps, Keeps-pure, Keeps-raise, Keeps-any_lift, Keeps-calls, Keeps-reads, Keeps-modify, Keeps->>=,
  Keeps-then,
}
use justflow.Engine.Runner.Audit.{IsSpread, targets_of, IsEdge, IsSound}
use justflow.Engine.Worklist.Reaches.{In}
use justflow.Engine.Runner.Trails.{IsPlain, execute_from-Keeps, execute_from-ends}

-- What the record of a run tells: distinct positions, edges of the flow, and a status that its reason
-- and its failures give.
pub record IsTold (workflow : Workflow) (audit : AuditRecord) : Type 0 where
  pub spread : IsSpread audit.steps
  pub edges : All (IsEdge workflow) audit.transitions
  pub settled : audit.status ≡ status_of audit.reason (has_any audit.failures)

module _ {W : Type 0} (env : Environment W) (workflow : Workflow) where
  abbrev Sound : RunState → Type 0
  Sound = IsSound workflow

  check_contract-Keeps :
      (declared : Bool) (direction : Direction) (v : Object)
      → Keeps Sound (λ u. Unit {0}) (check_contract env workflow declared direction v)
  check_contract-Keeps false direction v = Keeps-pure Sound _ _ tt
  check_contract-Keeps true direction v = Keeps-calls Sound _ _ (λ u. tt)

  enforce_payload-Keeps :
      (v : Object) (limit : ℕ) → Keeps Sound (λ u. Unit {0}) (enforce_payload env workflow v limit)
  enforce_payload-Keeps v limit =
      Keeps-then Sound _ _ _ (Keeps-any_lift Sound _) (λ size. Keeps-any_lift Sound _)

  start_run-Keeps :
      (request_id : String) (trigger_globals : Object)
      → Keeps Sound (λ u. Unit {0}) (start_run env workflow request_id trigger_globals)
  unfolding start_run
  start_run-Keeps request_id trigger_globals =
      Keeps-then Sound _ _ _ (Keeps-modify Sound _ (λ s k. k)) (λ u0.
        Keeps-then Sound _ _ _ (Keeps-any_lift Sound _) (λ globals.
          Keeps-then Sound _ _ _ (enforce_payload-Keeps _ _) (λ u1.
            Keeps-then Sound _ _ _ (check_contract-Keeps _ _ _) (λ u2.
              Keeps-then Sound _ _ _ (Keeps-modify Sound _ (λ s k. k)) (λ u3.
                Keeps-then Sound _ _ _ (Keeps-any_lift Sound _)
                  (λ params. Keeps-modify Sound _ (λ s k. k)))))))

  accept_result-Keeps :
      (r : Option Object) → Keeps Sound (λ u. Unit {0}) (accept_result env workflow r)
  accept_result-Keeps none = Keeps-pure Sound _ _ tt
  accept_result-Keeps (some v) =
      Keeps-then Sound _ _ _ (check_contract-Keeps _ _ _) (λ u. enforce_payload-Keeps _ _)

  final_result-Keeps :
      (reason : Option String) (reference : Option ReferencePath)
      → Keeps Sound (λ v. Unit {0}) (final_result env workflow reason reference)
  unfolding final_result
  final_result-Keeps reason none = Keeps-pure Sound _ _ tt
  final_result-Keeps reason (some reference) =
      Keeps-then Sound _ _ _ (Keeps-reads Sound _ _ (λ s. tt)) (λ step_outputs.
        Keeps-then Sound _ _ _ (Keeps-reads Sound _ _ (λ s. tt)) (λ params.
          Keeps-then Sound _ _ _ (Keeps-any_lift Sound _) (λ result.
            Keeps-then Sound _ _ _ (accept_result-Keeps result) (λ u. Keeps-pure Sound _ _ tt))))

  archive_record-Keeps :
      (path : Option String) (audit : AuditRecord)
      → Keeps Sound (λ u. Unit {0}) (archive_record env workflow path audit)
  unfolding archive_record
  archive_record-Keeps none audit = Keeps-pure Sound _ _ tt
  archive_record-Keeps (some path) audit =
      Keeps-then Sound _ _ _ (Keeps-modify Sound _ (λ s k. k)) (λ u0.
        Keeps-then Sound _ _ _ (Keeps-any_lift Sound _) (λ size.
          Keeps-then Sound _ _ _ (Keeps-any_lift Sound _) (λ u1.
            Keeps-then Sound _ _ _ (Keeps-reads Sound _ _ (λ s. tt)) (λ params.
              Keeps-then Sound _ _ _ (Keeps-any_lift Sound _)
                (λ place. Keeps-calls Sound _ _ (λ u. tt))))))

  closed-Keeps :
      (reason : Option String)
      → Keeps Sound (IsTold workflow) (reads {W = W} (closed_record reason))
  closed-Keeps reason = record {
    kept = λ m i. (i, record { spread = i.spread; edges = i.edges; settled = refl });
  }

  finish_run-Keeps :
      (reason : Option String) → Keeps Sound (IsTold workflow) (finish_run env workflow reason)
  unfolding finish_run
  finish_run-Keeps reason = Keeps-then Sound _ _ _ (Keeps-modify Sound _ (λ s k. k)) (λ u0.
      Keeps->>= Sound _ _ _ _ (closed-Keeps reason) (λ closed told.
        Keeps-then Sound _ _ _ (Keeps-modify Sound _ (λ s k. k)) (λ u1.
          Keeps-then Sound _ _ _ (final_result-Keeps reason workflow.result) (λ result.
            Keeps-then Sound _ _ _ (Keeps-any_lift Sound _) (λ size.
              Keeps-then Sound _ _ _ (Keeps-any_lift Sound _) (λ u2.
                Keeps-then Sound _ _ _ (Keeps-any_lift Sound _) (λ u3.
                  Keeps-then Sound _ _ _ (archive_record-Keeps workflow.on_complete _) (λ u4.
                    Keeps-pure Sound _ _ (record {
                      spread = told.spread;
                      edges = told.edges;
                      settled = told.settled;
                    })))))))))

  -- A run is told where the rounds end.
  abbrev pub Told : Option AuditRecord → Type 0
  Told none = Unit
  Told (some audit) = IsTold workflow audit

  abbrev pub Ends : Option AuditRecord → Type 0
  Ends none = ⊥
  Ends (some audit) = IsTold workflow audit

  finish_at-Keeps : (r : Option (Option String)) → Keeps Sound Told (finish_at env workflow r)
  finish_at-Keeps none = Keeps-pure Sound _ _ tt
  finish_at-Keeps (some reason) =
      Keeps->>= Sound _ _ _ _ (finish_run-Keeps reason) (λ audit told. Keeps-pure Sound _ _ told)

  finish_at-Ends :
      (r : Option (Option String)) → is_some r ≡ true → Keeps Sound Ends (finish_at env workflow r)
  finish_at-Ends none e = absurd (cc)
  finish_at-Ends (some reason) e =
      Keeps->>= Sound _ _ _ _ (finish_run-Keeps reason) (λ audit told. Keeps-pure Sound _ _ told)

  entry_step-Keeps :
      (flow : List FlowStep) → Keeps Sound (λ u. Unit {0}) (entry_step env workflow flow)
  entry_step-Keeps [] = Keeps-raise Sound _ _
  entry_step-Keeps (first ∷ rest) = Keeps-pure Sound _ _ tt

  module _ (P : Option (Option String) → Type 0) (Q : Option AuditRecord → Type 0) (fuel : ℕ)
      (rounds : (name : String) (loop : Option LoopCheckpoint)
        → Keeps Sound P (execute_from env workflow fuel (some name) loop))
      (finish : (r : Option (Option String)) → P r → Keeps Sound Q (finish_at env workflow r)) where
    execute-Keeps :
        (request_id : String) (trigger_globals : Object) (checkpoint : Option RunnerCheckpoint)
        → Keeps Sound Q (execute env workflow fuel request_id trigger_globals checkpoint)
    unfolding execute
    execute-Keeps request_id trigger_globals none =
        Keeps-then Sound _ _ _ (start_run-Keeps request_id trigger_globals) (λ u.
          Keeps-then Sound _ _ _ (entry_step-Keeps workflow.flow)
            (λ first. Keeps->>= Sound _ _ _ _ (rounds first none) finish))
    execute-Keeps request_id trigger_globals (some checkpoint) =
        Keeps-then Sound _ _ _ (entry_step-Keeps workflow.flow) (λ first.
          Keeps->>= Sound _ _ _ _ (rounds checkpoint.next_step_name checkpoint.loop) finish)

  module _ (plain : All IsPlain workflow.flow) (request_id : String) (trigger_globals : Object)
      (checkpoint : Option RunnerCheckpoint) (m : Machine W)
      (sound : IsSound workflow m.state) where
    -- Where no branch of the flow has both a default and a `then`, and the run starts from a sound state
    -- (fresh or of a checkpoint), with any fuel: the state stays sound, and a record that is returned
    -- has its entries at distinct positions, has transitions along the edges of the flow only, and is
    -- terminated, recovered or completed by its reason and its failures.
    pub execute-IsTold :
        (fuel : ℕ)
        → IsSound workflow
            ((execute env workflow fuel request_id trigger_globals checkpoint m).1).state
          × Ensures Told ((execute env workflow fuel request_id trigger_globals checkpoint m).0)
    execute-IsTold fuel =
        (execute-Keeps (λ r. Unit {0}) Told fuel
            (λ name loop. execute_from-Keeps env workflow plain fuel (some name) loop)
            (λ r u. finish_at-Keeps r) request_id trigger_globals checkpoint).kept
          m sound

    -- Where moreover a rank gets smaller along every edge of the flow, handlers included, and the fuel is
    -- above every rank by two: a run that returns gives a record, so its rounds have come to an end.
    pub execute-Ends :
        (rank : String → ℕ)
        → ((name : String) (step : FlowStep) (t : String)
            → lookup name (flow_steps workflow.flow) ≡ some step
            → In t (targets_of workflow step)
            → rank t < rank name)
        → (fuel : ℕ) → ((name : String) → rank name + 2 ≤ fuel)
        → Ensures Ends ((execute env workflow fuel request_id trigger_globals checkpoint m).0)
    execute-Ends rank decreases fuel enough =
        ((execute-Keeps _ Ends fuel
            (λ name loop.
              execute_from-ends env workflow plain rank decreases fuel name loop (enough name))
            finish_at-Ends request_id trigger_globals checkpoint).kept
          m sound).1
