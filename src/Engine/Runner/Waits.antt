-- ===== src/Engine/Runner/Waits.antt =====
-- `_run_wait` and `_deadline_epoch` of engine/runner.py. A deadline is in whole seconds; one that has
-- passed leaves no time, as `max(0.0, timeout_sec)` says.
use justflow.Common.{ℕ, ◌-◌, Option, none, some, leb, if◌then◌else◌}
use justflow.Common.Int.{pos, negsuc}
use justflow.Config.Models.{ReferencePath, WaitForConfig}
use justflow.Engine.Exceptions.{
  reference_resolution, value_error, type_error, flow_definition, resolution_error,
  invariant_violation, Result, ok, err,
}
use justflow.Engine.Data.Objects.{Object, int, float, str}
use justflow.Engine.References.{resolve_reference}
use justflow.Engine.Runner.State.{Environment}
use justflow.Engine.Runner.Machine.{Exec, raise, lift, calls, reads, ◌>>=◌}

-- `except (ReferenceResolutionError, ValueError, TypeError)`
abbrev pub as_deadline {ℓ} : {A : Type ℓ} → Result A → Result A
as_deadline (err reference_resolution) = err (flow_definition resolution_error)
as_deadline (err value_error) = err (flow_definition resolution_error)
as_deadline (err type_error) = err (flow_definition resolution_error)
as_deadline r = r

abbrev pub or_value_error : Option ℕ → Result ℕ
or_value_error none = err value_error
or_value_error (some n) = ok n

abbrev pub earlier : ℕ → ℕ → ℕ
earlier a b = if leb a b then a else b

abbrev pub bound : Option ℕ → ℕ → ℕ
bound none remaining = remaining
bound (some timeout_sec) remaining = earlier timeout_sec remaining

module _ {W : Type 0} (env : Environment W) where
  unfoldable pub deadline_epoch : Object → Result ℕ
  deadline_epoch (int (pos n)) = ok n
  deadline_epoch (int (negsuc n)) = ok 0
  deadline_epoch (float f) = ok (env.epoch_of f)
  deadline_epoch (str s) = or_value_error (env.from_isoformat s)
  deadline_epoch _ = err type_error

  unfoldable pub wait_for_event : WaitForConfig → ℕ → Exec W (Option Object)
  wait_for_event w timeout_sec = calls (env.wait_for_event w.signal timeout_sec)

  unfoldable pub wait_until : WaitForConfig → ReferencePath → Exec W (Option Object)
  unfolding wait_for_event deadline_epoch resolve_reference
  wait_until w reference = do
    step_outputs ← reads (λ s. s.step_outputs)
    params ← reads (λ s. s.params)
    value ← lift (as_deadline (resolve_reference reference step_outputs params))
    epoch ← lift (as_deadline (deadline_epoch value))
    now ← λ m. (ok (env.now m.world), m)
    wait_for_event w (bound w.timeout_sec (epoch - now))

  unfoldable pub run_wait : WaitForConfig → Exec W (Option Object)
  unfolding wait_for_event wait_until
  run_wait w = elim w.timeout_until [
    | some reference ↦ wait_until w reference
    | none ↦ elim w.timeout_sec [
      | none ↦ raise (flow_definition invariant_violation)
      | some timeout_sec ↦ wait_for_event w timeout_sec
    ]
  ]
