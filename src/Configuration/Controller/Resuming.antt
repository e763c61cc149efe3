-- ===== src/Configuration/Controller/Resuming.antt =====
-- What `resume` of runtime/configuration_activation.py does to the stored activations, and what it returns.
use justflow.Common.{
  ◌≡◌, refl, inl, inr, ◌⊎◌, ap, ◌∙◌, arith, String, true, false, Option, none, some,
}
use justflow.Configuration.Results.{
  OutcomeCode, definitions_unavailable, configuration_conflict, stale_plan, internal_error,
  ControlError, value_error, conflict, integrity, controller, configuration_conflict_error,
  configuration_error, catalog_conflict_error, catalog_error, unavailable, not_found, limit,
  external,
}
use justflow.Configuration.Records.{
  ActivationState, WorkerReadiness, ActivationRecord, same_state, running, waiting_for_readiness,
  failed, superseded, definitions,
}
use justflow.Configuration.Activation.{
  transition_activation, register_worker_readiness, release_activation_lease,
  acquire_activation_lease,
}
use justflow.Configuration.Control.{ControlState, WorkerBinding, ControlEnvironment}
use justflow.Configuration.Controller.{is_final, read_record, update, end_activation}
use justflow.Configuration.Controller.Keeping.{
  IsSound, IsSafe, Holds, Keeps, pure-Keeps, raise-Keeps, Keeps->>=, Keeps->>, try-Keeps, if-Keeps,
  Keeps-map, Any, Relies,
}
use justflow.Configuration.Controller.Extending.{same_state-eq}
use justflow.Configuration.Controller.Operations.{
  read_record-Keeps, transition-Keeps, register-Keeps, acquire-Keeps, release-Keeps,
  start_or_resume-Keeps, end_activation-Keeps,
}
use justflow.Configuration.Controller.Steps.{store_definition_objects, ensure_worker_ready}
use justflow.Configuration.Controller.Resume.{
  run_when_ready, observe_waiting, leave_waiting, apply_steps, run_steps, try_steps, fail,
  settle_activation, resume, register_readiness, observe_if_bound,
}
use justflow.Configuration.Controller.Safety.{
  prepare_record-Keeps, store_definition_objects-Keeps, observe_readiness-Keeps,
  ensure_worker_ready-Keeps,
}
use justflow.Configuration.Controller.Carrying.{
  is_settled, IsReturned, apply_steps-Keeps, settled-final,
}

not_waiting :
    (state : ActivationState)
    → state ≡ waiting_for_readiness
    → same_state state waiting_for_readiness ≡ false
    → ⊥
not_waiting state e h = ground arith

ended :
    (q : ActivationRecord)
    → (is_final q.state ≡ true) ⊎ (q.state ≡ superseded)
    → is_settled q.state ≡ true
ended q (inl e) = settled-final q.state e
ended q (inr e) = ap is_settled e

module _ {W : Type 0} (env : ControlEnvironment W) (rely : Relies env) where
  run_steps-Keeps : (r : ActivationRecord) → IsSound r → Keeps IsReturned (run_steps env r)
  unfolding run_steps store_definition_objects ensure_worker_ready apply_steps
  run_steps-Keeps r sound = Keeps->>= (prepare_record-Keeps env rely r) λ p a.
      Keeps->>= (store_definition_objects-Keeps env rely r p sound) λ r1 (e1, stored).
        Keeps->>= (ensure_worker_ready-Keeps env rely r1 p e1.sound) λ r2 (e2, how).
          if-Keeps (same_state r2.state waiting_for_readiness)
            (λ e.
              pure-Keeps r2
                (e2.sound, ap is_settled (same_state-eq r2.state waiting_for_readiness e)))
            λ e. elim how [
              | inl waits ↦ absurd (not_waiting r2.state waits e)
              | inr ready ↦
                  apply_steps-Keeps env rely r2 p e2.sound (e2.grows definitions stored) ready
            ]

  run_when_ready-Keeps :
      (o : Option WorkerReadiness) (r : ActivationRecord)
      → IsSound r
      → r.state ≡ waiting_for_readiness
      → Keeps IsReturned (run_when_ready env o r (run_steps env))
  unfolding run_when_ready update transition_activation release_activation_lease
      register_worker_readiness
  run_when_ready-Keeps none r sound w =
      Keeps-map (λ q k. (k.0.sound, ap is_settled (k.1 ∙ w))) (release-Keeps env rely r sound)
  run_when_ready-Keeps (some readiness) r sound w =
      Keeps->>= (register-Keeps env rely r readiness sound) λ q e.
        Keeps->>= (transition-Keeps env rely q running none false λ x. cc)
          λ t (f, s). run_steps-Keeps t f.sound

  observe_if_bound-Keeps :
      (o : Option (WorkerBinding W)) (r : ActivationRecord)
      → env.worker_binding ≡ o
      → Keeps Any (observe_if_bound env o r)
  observe_if_bound-Keeps none r e = pure-Keeps _ tt
  observe_if_bound-Keeps (some binding) r e =
      Keeps->>= (prepare_record-Keeps env rely r)
        λ p a. observe_readiness-Keeps env rely (some binding) p e

  leave_waiting-Keeps :
      (o : Option WorkerReadiness) (r : ActivationRecord)
      → IsSound r
      → r.state ≡ waiting_for_readiness
      → Keeps IsReturned (leave_waiting env o r (run_steps env))
  unfolding leave_waiting run_when_ready observe_waiting update transition_activation
  leave_waiting-Keeps none r sound w =
      Keeps->>= (observe_if_bound-Keeps env.worker_binding r refl)
        λ o a. run_when_ready-Keeps o r sound w
  leave_waiting-Keeps (some readiness) r sound w =
      Keeps->>= (transition-Keeps env rely r running none false λ x. cc)
        λ t (f, s). run_steps-Keeps t f.sound

  try_steps-Keeps : (r : ActivationRecord) → IsSound r → Keeps IsReturned (try_steps env r)
  unfolding try_steps leave_waiting run_steps update transition_activation
  try_steps-Keeps r sound = Keeps->>= (start_or_resume-Keeps env rely r sound) λ q e.
      if-Keeps (same_state q.state waiting_for_readiness)
        (λ w.
          leave_waiting-Keeps q.worker_readiness q e.sound
            (same_state-eq q.state waiting_for_readiness w))
        λ w. run_steps-Keeps q e.sound

  ended-Keeps :
      (id : String) (code : OutcomeCode) → Keeps IsReturned (end_activation env id superseded code)
  unfolding read_record update transition_activation
  ended-Keeps id code =
      Keeps-map (λ q k. (k.0, ended q k.1))
        (end_activation-Keeps env rely id superseded code λ x. cc)

  fail-Keeps :
      (id : String) (code : OutcomeCode) (e : ControlError) → Keeps IsReturned (fail env id code e)
  unfolding read_record update transition_activation
  fail-Keeps id code e =
      Keeps->> (end_activation-Keeps env rely id failed code λ x. cc) (raise-Keeps e)

  settle_activation-Keeps :
      (id : String) (e : ControlError) → Keeps IsReturned (settle_activation env id e)
  unfolding settle_activation read_record update transition_activation
  settle_activation-Keeps id configuration_conflict_error = ended-Keeps id configuration_conflict
  settle_activation-Keeps id catalog_conflict_error = ended-Keeps id stale_plan
  settle_activation-Keeps id (controller code retryable) = fail-Keeps id code _
  settle_activation-Keeps id catalog_error = fail-Keeps id definitions_unavailable _
  settle_activation-Keeps id configuration_error = fail-Keeps id internal_error _
  settle_activation-Keeps id value_error = raise-Keeps _
  settle_activation-Keeps id not_found = raise-Keeps _
  settle_activation-Keeps id conflict = raise-Keeps _
  settle_activation-Keeps id integrity = raise-Keeps _
  settle_activation-Keeps id unavailable = raise-Keeps _
  settle_activation-Keeps id limit = raise-Keeps _
  settle_activation-Keeps id (external n) = raise-Keeps _

  resume-Keeps : (activation_id : String) → Keeps IsReturned (resume env activation_id)
  unfolding resume read_record try_steps settle_activation update acquire_activation_lease
  resume-Keeps id = Keeps->>= (read_record-Keeps env rely id) λ r sound.
      if-Keeps (is_final r.state) (λ e. pure-Keeps r (sound, settled-final r.state e))
        λ e.
          Keeps->>= (acquire-Keeps env rely r sound)
            λ q f. try-Keeps (try_steps-Keeps q f.sound) (settle_activation-Keeps id)

  register_readiness-Keeps :
      (activation_id : String) (readiness : WorkerReadiness)
      → Keeps IsReturned (register_readiness env activation_id readiness)
  unfolding register_readiness read_record update register_worker_readiness resume
  register_readiness-Keeps id readiness =
      Keeps->>= (read_record-Keeps env rely id)
        λ r sound. Keeps->>= (register-Keeps env rely r readiness sound) λ q e. resume-Keeps id

-- Where every applied activation of the store is complete, `resume` and `register_readiness` leave it so, whether
-- they return or raise, as long as the other processes, the clock, the catalogs and the bindings do. A record
-- that they return is complete if it is applied, and in a final state or waiting for the workers. Complete
-- means that the checkpoints are recorded: of the definitions, the workers' readiness, the active pointer and the
-- runtime's index always, and of the schedules, the catalog's routing and the workers' routing where the plan
-- asks for them.
pub resume-IsReturned :
    {W : Type 0} (env : ControlEnvironment W)
    → Relies env
    → (activation_id : String) (readiness : WorkerReadiness) (s : ControlState W) → IsSafe s
    → Holds IsReturned (resume env activation_id s)
      × Holds IsReturned (register_readiness env activation_id readiness s)
unfolding resume register_readiness
resume-IsReturned env rely id readiness s h =
    ((resume-Keeps env rely id).run s h, (register_readiness-Keeps env rely id readiness).run s h)
