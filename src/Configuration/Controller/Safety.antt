-- ===== src/Configuration/Controller/Safety.antt =====
-- The steps of runtime/configuration_activation.py keep what holds of every stored activation, and leave their
-- checkpoints.
use text.Mathlib.Text.{◌==◌ as str_eq}
use justflow.Common.{
  ◌≡◌, refl, inl, inr, ◌⊎◌, String, not, ◌&&◌, Option, none, some, List, [], ◌∷◌, if◌then◌else◌,
}
use justflow.Configuration.Results.{OutcomeCode, worker_unavailable}
use justflow.Configuration.Records.{
  CheckpointKind, WorkerReadiness, ActivationRecord, is_present, has_checkpoint,
  waiting_for_readiness, definitions, worker_rollout, worker_readiness,
}
use justflow.Configuration.Activation.{
  transition_activation, record_activation_checkpoint, register_worker_readiness,
  release_activation_lease,
}
use justflow.Configuration.Control.{
  Control, pure, Assignment, Prepared, WorkerBinding, ControlEnvironment,
}
use justflow.Configuration.Controller.{update}
use justflow.Configuration.Controller.Keeping.{
  Done, IsSound, Keeps, pure-Keeps, raise-Keeps, Keeps->>=, Keeps->>, try-Keeps, if-Keeps,
  Keeps-map, Any, IsFair, Relies,
}
use justflow.Configuration.Controller.Extending.{Extends, Extends-refl, Extends-trans}
use justflow.Configuration.Controller.Operations.{checkpoint-Keeps, register-Keeps, waiting-Keeps}
use justflow.Configuration.Controller.Steps.{
  is_prepared_for, prepare_record, store_each, store_assignments, store_definition_objects,
  guard_binding, roll_out, observe_readiness, confirm_readiness, wait_or_confirm, await_readiness,
  roll_out_once, ensure_worker_ready,
}

abbrev pub Reaches : CheckpointKind → ActivationRecord → ActivationRecord → Type 0
Reaches kind r r' = Extends r r' × Done kind r'

module _ {W : Type 0} (env : ControlEnvironment W) (rely : Relies env) where
  -- a checkpoint that is there is not made again
  once-Keeps :
      (kind : CheckpointKind) (r : ActivationRecord) {x : Control W ActivationRecord}
      → IsSound r
      → Keeps (Reaches kind r) x
      → Keeps (Reaches kind r) (if has_checkpoint kind r.checkpoints then pure r else x)
  unfolding has_checkpoint
  once-Keeps kind r sound k =
      if-Keeps (has_checkpoint kind r.checkpoints) (λ e. pure-Keeps r (Extends-refl r sound, e))
        λ e. k

  pub prepare_record-Keeps : (r : ActivationRecord) → Keeps Any (prepare_record env r)
  unfolding is_prepared_for
  prepare_record-Keeps r =
      Keeps->>= (rely.prepare r.plan.target_revision_id)
        λ p a. if-Keeps (is_prepared_for p r.plan) (λ e. pure-Keeps p tt) λ e. raise-Keeps _

  store_each-Keeps :
      (store : String → Control W (Unit {0}))
      → ((x : String) → Keeps Any (store x))
      → (xs : List String) → Keeps Any (store_each env store xs)
  unfolding store_each
  store_each-Keeps store k [] = pure-Keeps tt tt
  store_each-Keeps store k (x ∷ xs) = Keeps->> (k x) (store_each-Keeps store k xs)

  store_assignments-Keeps : (xs : List Assignment) → Keeps Any (store_assignments env xs)
  unfolding store_assignments store_each
  store_assignments-Keeps [] = pure-Keeps tt tt
  store_assignments-Keeps (a ∷ xs) =
      Keeps->> (store_each-Keeps _ (rely.store_definition_manifest a.scope) a.manifests) (
        Keeps->>
          (store_each-Keeps _ (rely.store_environment_snapshot a.scope) a.environment_snapshots)
          (store_assignments-Keeps xs))

  pub store_definition_objects-Keeps :
      (r : ActivationRecord) (p : Prepared)
      → IsSound r
      → Keeps (Reaches definitions r) (store_definition_objects env r p)
  unfolding store_definition_objects store_assignments update record_activation_checkpoint
      has_checkpoint
  store_definition_objects-Keeps r p sound = once-Keeps definitions r sound (
      Keeps->> (store_assignments-Keeps p.assignments)
        (checkpoint-Keeps env rely r definitions _ sound))

  pub guarded-Keeps :
      {A : Type 0} (code : OutcomeCode) {x : Control W A}
      → Keeps Any x
      → Keeps Any (guard_binding env code x)
  guarded-Keeps code k = try-Keeps k λ e. raise-Keeps _

  roll_out-Keeps :
      (r : ActivationRecord) (p : Prepared) (binding : WorkerBinding W)
      → IsFair binding
      → IsSound r
      → Keeps (Extends r) (roll_out env r p binding)
  unfolding roll_out update record_activation_checkpoint
  roll_out-Keeps r p binding fair sound =
      Keeps->>= (guarded-Keeps worker_unavailable (fair.rollout p r.plan.plan_digest))
        λ c a. Keeps-map (λ q k. k.0) (checkpoint-Keeps env rely r worker_rollout c sound)

  pub observe_readiness-Keeps :
      (o : Option (WorkerBinding W)) (p : Prepared)
      → env.worker_binding ≡ o
      → Keeps Any (observe_readiness env o p)
  observe_readiness-Keeps none p e = pure-Keeps none tt
  observe_readiness-Keeps (some binding) p e =
      guarded-Keeps worker_unavailable ((rely.worker_binding binding e).readiness p)

  -- The readiness step ends with its checkpoint, or the activation waits for the workers.
  abbrev pub Readies : ActivationRecord → ActivationRecord → Type 0
  Readies r r' = Extends r r' × ((r'.state ≡ waiting_for_readiness) ⊎ Done worker_readiness r')

  readies : (r r' : ActivationRecord) → Reaches worker_readiness r r' → Readies r r'
  readies r r' (e, d) = (e, inr d)

  awaits :
      (r r' : ActivationRecord) → Extends r r' × (r'.state ≡ waiting_for_readiness) → Readies r r'
  awaits r r' (e, d) = (e, inl d)

  beyond : (q r r' : ActivationRecord) → Extends q r → Readies r r' → Readies q r'
  beyond q r r' e (f, d) = (Extends-trans e f, d)

  confirm_readiness-Keeps :
      (o : Option WorkerReadiness) (r : ActivationRecord) (p : Prepared)
      → IsSound r
      → Keeps (Readies r) (confirm_readiness env o r p)
  unfolding confirm_readiness update record_activation_checkpoint has_checkpoint
  confirm_readiness-Keeps none r p sound = raise-Keeps _
  confirm_readiness-Keeps (some readiness) r p sound =
      if-Keeps (str_eq readiness.task_queue_identity_digest p.task_queue_identity_digest)
        (λ e. Keeps-map (readies r) (
          once-Keeps worker_readiness r sound
            (checkpoint-Keeps env rely r worker_readiness _ sound)))
        λ e. raise-Keeps _

  wait_or_confirm-Keeps :
      (o : Option WorkerReadiness) (r : ActivationRecord) (p : Prepared)
      → IsSound r
      → Keeps (Readies r) (wait_or_confirm env o r p)
  unfolding confirm_readiness update register_worker_readiness transition_activation
      release_activation_lease
  wait_or_confirm-Keeps none r p sound = Keeps-map (awaits r) (waiting-Keeps env rely r sound)
  wait_or_confirm-Keeps (some readiness) r p sound =
      Keeps->>= (register-Keeps env rely r readiness sound) λ q e.
        Keeps-map (λ r' k. beyond r q r' e k)
          (confirm_readiness-Keeps q.worker_readiness q p e.sound)

  await_readiness-Keeps :
      (o : Option WorkerReadiness) (r : ActivationRecord) (p : Prepared)
      → IsSound r
      → Keeps (Readies r) (await_readiness env o r p)
  unfolding await_readiness confirm_readiness update register_worker_readiness transition_activation
      release_activation_lease
  await_readiness-Keeps (some readiness) r p sound =
      confirm_readiness-Keeps (some readiness) r p sound
  await_readiness-Keeps none r p sound =
      Keeps->>= (observe_readiness-Keeps env.worker_binding p refl)
        λ o a. wait_or_confirm-Keeps o r p sound

  roll_out_once-Keeps :
      (o : Option (WorkerBinding W)) (r : ActivationRecord) (p : Prepared)
      → env.worker_binding ≡ o
      → IsSound r
      → Keeps (Readies r) (roll_out_once env o r p)
  unfolding roll_out_once roll_out await_readiness update transition_activation
      release_activation_lease
  roll_out_once-Keeps none r p e sound = Keeps-map (awaits r) (waiting-Keeps env rely r sound)
  roll_out_once-Keeps (some binding) r p e sound =
      Keeps->>= (roll_out-Keeps r p binding (rely.worker_binding binding e) sound) λ q f.
        Keeps-map (λ r' k. beyond r q r' f k) (await_readiness-Keeps q.worker_readiness q p f.sound)

  pub ensure_worker_ready-Keeps :
      (r : ActivationRecord) (p : Prepared)
      → IsSound r
      → Keeps (Readies r) (ensure_worker_ready env r p)
  unfolding ensure_worker_ready has_checkpoint roll_out_once await_readiness update
      record_activation_checkpoint
  ensure_worker_ready-Keeps r p sound =
      if-Keeps (not r.plan.rolls_out)
        (λ e. Keeps-map (readies r) (
          once-Keeps worker_readiness r sound
            (checkpoint-Keeps env rely r worker_readiness _ sound)))
        λ e.
          if-Keeps
            (not (is_present r.worker_readiness)
              && not (has_checkpoint worker_rollout r.checkpoints))
            (λ f. roll_out_once-Keeps env.worker_binding r p refl sound)
            λ f. await_readiness-Keeps r.worker_readiness r p sound
