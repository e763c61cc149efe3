-- ===== src/Engine/Runner/Machine.antt =====
-- The methods of engine/runner.py as actions on the state of a run: they return or raise, and keep
-- what they have written.
use justflow.Common.{String, Bool, ◌||◌, Option, none, some, leb, if◌then◌else◌}
use justflow.Engine.Exceptions.{
  Raised, condition_evaluation, reference_resolution, flow_definition, resolution_error,
  flow_continuation, payload_bytes, Result, ok, err,
}
use justflow.Engine.Limits.{enforce_limit}
use justflow.Engine.Runner.State.{
  RuntimeLimits, Workflow, LoopCheckpoint, RunState, RunnerCheckpoint, HistoryObservation,
  Environment, Machine,
}

abbrev pub Exec : Type 0 → Type 0 → Type 0
Exec W A = Machine W → Result A × Machine W

module _ {W A : Type 0} where
  abbrev pub pure : A → Exec W A
  pure a m = (ok a, m)

  abbrev pub raise : Raised → Exec W A
  raise e m = (err e, m)

  abbrev pub lift : Result A → Exec W A
  lift r m = (r, m)

  -- a call of the executor
  abbrev pub calls : (W → Result A × W) → Exec W A
  calls f m = let (r, world) = f m.world in (r, record m { world = world })

  abbrev pub reads : (RunState → A) → Exec W A
  reads f m = (ok (f m.state), m)

abbrev pub modify : {W : Type 0} → (RunState → RunState) → Exec W (Unit {0})
modify f m = (ok tt, record m { state = f m.state })

module _ {W A B : Type 0} where
  abbrev pub and_then : Result A → (A → Exec W B) → Exec W B
  and_then (ok a) f = f a
  and_then (err e) f = raise e

  infixl 5 ◌>>=◌ ◌>>◌
  unfoldable pub ◌>>=◌ : Exec W A → (A → Exec W B) → Exec W B
  ◌>>=◌ x f m = let (r, m') = x m in and_then r f m'

  abbrev pub ◌>>◌ : Exec W A → Exec W B → Exec W B
  x >> y = x >>= λ _. y

-- `except (ReferenceResolutionError, ConditionEvaluationError)`
abbrev pub as_resolution {ℓ} : {A : Type ℓ} → Result A → Result A
as_resolution (err reference_resolution) = err (flow_definition resolution_error)
as_resolution (err (condition_evaluation r)) = err (flow_definition resolution_error)
as_resolution r = r

abbrev pub is_due : RuntimeLimits → HistoryObservation → Bool
is_due limits o =
    o.server_suggested || (leb limits.history_events o.events || leb limits.history_bytes o.bytes)

module _ {W : Type 0} (env : Environment W) (workflow : Workflow) where
  abbrev pub raise_continuation : RunnerCheckpoint → Exec W (Unit {0})
  raise_continuation checkpoint m =
      (err flow_continuation, record m { continuation = some checkpoint })

  -- `_enforce_checkpoint`
  unfoldable pub enforce_checkpoint : RunnerCheckpoint → Exec W (Unit {0})
  unfolding enforce_limit
  enforce_checkpoint checkpoint = do
    bytes ← lift (env.checkpoint_bytes checkpoint)
    lift (enforce_limit bytes workflow.limits.workflow_state_bytes payload_bytes)
    observation ← λ m. (ok (env.observe_history m.world), m)
    if is_due workflow.limits observation then raise_continuation checkpoint else pure tt

  -- `_build_checkpoint` and the guards of `_checkpoint_after_step` and `_checkpoint_during_loop`
  unfoldable pub checkpoint_after_step : Option String → Exec W (Unit {0})
  unfolding enforce_checkpoint
  checkpoint_after_step none = pure tt
  checkpoint_after_step (some next_step_name) =
      if workflow.bounded_execution_enabled
      then (do
        state ← reads (λ s. s)
        enforce_checkpoint (record { state = state; next_step_name = next_step_name; loop = none }))
      else pure tt

  unfoldable pub checkpoint_during_loop : String → LoopCheckpoint → Exec W (Unit {0})
  unfolding enforce_checkpoint
  checkpoint_during_loop step_name loop =
      if workflow.bounded_execution_enabled
      then (do
        state ← reads (λ s. s)
        enforce_checkpoint (record { state = state; next_step_name = step_name; loop = some loop }))
      else pure tt
