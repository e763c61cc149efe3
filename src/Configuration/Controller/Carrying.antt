-- ===== src/Configuration/Controller/Carrying.antt =====
-- An activation that `resume` of runtime/configuration_activation.py returns as applied has its checkpoints.
use justflow.Common.{
  ◌≡◌, refl, sym, ap, ◌∙◌, arith, String, Bool, true, false, not, ◌||◌, Option, none, some,
  if◌then◌else◌,
}
use justflow.Common.Dict.{Dict}
use justflow.Configuration.Results.{schedules_unavailable, routing_unavailable, Result, ok, err}
use justflow.Configuration.Records.{
  ActivationState, CheckpointKind, ActivationPlan, ActivationRecord, has_checkpoint,
  waiting_for_readiness, applied, definitions, worker_readiness, schedules, catalog_routing,
  worker_routing, active_pointer, runtime_index,
}
use justflow.Configuration.Activation.{transition_activation, record_activation_checkpoint}
use justflow.Configuration.Store.{ConfigurationStore, ActivePointer, compare_and_swap_active}
use justflow.Configuration.Control.{
  ControlState, Control, pure, ExternalConfirmation, Prepared, WorkerBinding, ControlEnvironment,
}
use justflow.Configuration.Controller.{moved, is_final, update}
use justflow.Configuration.Controller.Keeping.{
  Done, IsComplete, IsSound, IsSafe, Holds, Keeps, pure-Keeps, raise-Keeps, Keeps->>=, Keeps->>,
  if-Keeps, Keeps-map, Any, Relies,
}
use justflow.Configuration.Controller.Extending.{Extends, Extends-refl, Extends-trans}
use justflow.Configuration.Controller.Operations.{transition-Keeps, checkpoint-Keeps}
use justflow.Configuration.Controller.Steps.{reconcile, reconcile_schedules}
use justflow.Configuration.Controller.Routing.{
  replace_stale_aliases, switch_catalog, route, switch_worker_routing, read_active, swap_pointer,
  move_pointer, advance_active_pointer, replace_runtime_index, has_items, is_advanced, same_aliases,
  same_text,
}
use justflow.Configuration.Controller.Resume.{apply_steps}
use justflow.Configuration.Controller.Safety.{Reaches, guarded-Keeps}

abbrev pub is_settled : ActivationState → Bool
is_settled waiting_for_readiness = true
is_settled state = is_final state

-- A record that is returned: complete if it is applied, and no longer at work.
abbrev pub IsReturned : ActivationRecord → Type 0
IsReturned r = IsSound r × (is_settled r.state ≡ true)

pub settled-final : (state : ActivationState) → is_final state ≡ true → is_settled state ≡ true
settled-final state h = ground arith

needed-there : (needed there : Bool) → (not needed || there) ≡ true → needed ≡ true → there ≡ true
needed-there true there e n = e
needed-there false there e n = cc

abbrev If : Bool → CheckpointKind → ActivationRecord → ActivationRecord → Type 0
If needed kind r r' = Extends r r' × (needed ≡ true → Done kind r')

module _ {W : Type 0} (env : ControlEnvironment W) (rely : Relies env) where
  optional-Keeps :
      (needed : Bool) (kind : CheckpointKind) (r : ActivationRecord)
      {x : Control W ActivationRecord}
      → IsSound r
      → Keeps (Reaches kind r) x
      → Keeps
          (If needed kind r)
          (if not needed || has_checkpoint kind r.checkpoints then pure r else x)
  unfolding has_checkpoint
  optional-Keeps needed kind r sound k =
      if-Keeps (not needed || has_checkpoint kind r.checkpoints)
        (λ e. pure-Keeps r (Extends-refl r sound, λ n. needed-there needed _ e n))
        λ e. Keeps-map (λ q d. (d.0, λ n. d.1)) k

  reconcile-Keeps :
      (o : Option (Prepared → Control W ExternalConfirmation)) (p : Prepared)
      → env.reconcile_schedules ≡ o
      → Keeps Any (reconcile env o p)
  reconcile-Keeps none p e = raise-Keeps _
  reconcile-Keeps (some binding) p e =
      guarded-Keeps env rely schedules_unavailable (rely.reconcile_schedules binding e p)

  reconcile_schedules-Keeps :
      (r : ActivationRecord) (p : Prepared)
      → IsSound r
      → Keeps (If r.plan.reconciles schedules r) (reconcile_schedules env r p)
  unfolding reconcile_schedules has_checkpoint update record_activation_checkpoint
  reconcile_schedules-Keeps r p sound = optional-Keeps r.plan.reconciles schedules r sound (
      Keeps->>= (reconcile-Keeps env.reconcile_schedules p refl)
        λ c a. checkpoint-Keeps env rely r schedules c sound)

  replace_stale_aliases-Keeps :
      (r : ActivationRecord) (p : Prepared) (inspected : Dict String × Option String)
      → Keeps Any (replace_stale_aliases env r p inspected)
  unfolding replace_stale_aliases has_items
  replace_stale_aliases-Keeps r p (aliases, version) =
      if-Keeps (same_aliases aliases p.aliases) (λ e. pure-Keeps _ tt)
        λ e.
          if-Keeps (same_text version r.plan.expected_catalog_alias_version)
            (λ f.
              Keeps->>= (rely.replace_aliases p.aliases r.plan.expected_catalog_alias_version)
                λ v a. pure-Keeps _ tt)
            λ f. raise-Keeps _

  switch_catalog-Keeps :
      (r : ActivationRecord) (p : Prepared)
      → IsSound r
      → Keeps (If r.plan.publishes catalog_routing r) (switch_catalog env r p)
  unfolding switch_catalog has_checkpoint replace_stale_aliases update record_activation_checkpoint
  switch_catalog-Keeps r p sound = optional-Keeps r.plan.publishes catalog_routing r sound (
      Keeps->>= rely.inspect_aliases λ inspected a.
        Keeps->>= (replace_stale_aliases-Keeps r p inspected)
          λ c a. checkpoint-Keeps env rely r catalog_routing c sound)

  route-Keeps :
      (o : Option (WorkerBinding W)) (r : ActivationRecord) (p : Prepared)
      → env.worker_binding ≡ o
      → Keeps Any (route env o r p)
  route-Keeps none r p e = pure-Keeps _ tt
  route-Keeps (some binding) r p e =
      guarded-Keeps env rely routing_unavailable
        ((rely.worker_binding binding e).route p r.plan.plan_digest)

  switch_worker_routing-Keeps :
      (r : ActivationRecord) (p : Prepared)
      → IsSound r
      → Keeps (If r.plan.switches worker_routing r) (switch_worker_routing env r p)
  unfolding switch_worker_routing has_checkpoint update record_activation_checkpoint
  switch_worker_routing-Keeps r p sound = optional-Keeps r.plan.switches worker_routing r sound (
      Keeps->>= (route-Keeps env.worker_binding r p refl)
        λ c a. checkpoint-Keeps env rely r worker_routing c sound)

  moved-Holds :
      {A : Type 0} (s : ControlState W) (m : Result (ConfigurationStore × A))
      → IsSafe s
      → Holds Any (moved s m)
  moved-Holds s (ok (c, a)) h = (h, tt)
  moved-Holds s (err e) h = (h, tt)

  swap_pointer-Keeps : (plan : ActivationPlan) → Keeps Any (swap_pointer env plan)
  unfolding swap_pointer compare_and_swap_active
  swap_pointer-Keeps plan =
      Keeps->>= (Keeps->>= rely.turn λ u p. record { run = λ s h. moved-Holds s _ h })
        λ p a. pure-Keeps _ tt

  move_pointer-Keeps :
      (plan : ActivationPlan) (o : Option ActivePointer) → Keeps Any (move_pointer env plan o)
  unfolding move_pointer swap_pointer
  move_pointer-Keeps plan none = swap_pointer-Keeps plan
  move_pointer-Keeps plan (some current) =
      if-Keeps (is_advanced (some current) plan) (λ e. pure-Keeps _ tt) λ e. swap_pointer-Keeps plan

  read_active-Keeps : Keeps Any (read_active env)
  read_active-Keeps = Keeps->>= rely.turn λ u p. record { run = λ s h. (h, tt) }

  advance_active_pointer-Keeps :
      (r : ActivationRecord)
      → IsSound r
      → Keeps (Reaches active_pointer r) (advance_active_pointer env r)
  unfolding advance_active_pointer has_checkpoint move_pointer update record_activation_checkpoint
  advance_active_pointer-Keeps r sound =
      if-Keeps (has_checkpoint active_pointer r.checkpoints)
        (λ e. pure-Keeps r (Extends-refl r sound, e))
        λ e. Keeps->>= read_active-Keeps λ current a.
          Keeps->>= (move_pointer-Keeps r.plan current)
            λ c a. checkpoint-Keeps env rely r active_pointer c sound

  replace_runtime_index-Keeps :
      (r : ActivationRecord) (p : Prepared)
      → IsSound r
      → Keeps (Reaches runtime_index r) (replace_runtime_index env r p)
  unfolding replace_runtime_index has_checkpoint update record_activation_checkpoint
  replace_runtime_index-Keeps r p sound =
      if-Keeps (has_checkpoint runtime_index r.checkpoints)
        (λ e. pure-Keeps r (Extends-refl r sound, e))
        λ e. Keeps->> (rely.replace_index p) (checkpoint-Keeps env rely r runtime_index _ sound)

  pub apply_steps-Keeps :
      (r : ActivationRecord) (p : Prepared)
      → IsSound r
      → Done definitions r
      → Done worker_readiness r
      → Keeps IsReturned (apply_steps env r p)
  unfolding apply_steps reconcile_schedules switch_catalog switch_worker_routing
      advance_active_pointer replace_runtime_index update transition_activation
  apply_steps-Keeps r p sound stored ready =
      Keeps->>= (reconcile_schedules-Keeps r p sound) λ r1 (e1, d1).
        Keeps->>= (switch_catalog-Keeps r1 p e1.sound) λ r2 (e2, d2).
          Keeps->>= (switch_worker_routing-Keeps r2 p e2.sound) λ r3 (e3, d3).
            Keeps->>= (advance_active_pointer-Keeps r3 e3.sound) λ r4 (e4, d4).
              Keeps->>= (replace_runtime_index-Keeps r4 p e4.sound) λ r5 (e5, d5).
                let from4 = e5 in
                let from3 = Extends-trans e4 from4 in
                let from2 = Extends-trans e3 from3 in
                let from1 = Extends-trans e2 from2 in
                let from0 = Extends-trans e1 from1 in
                let complete : IsComplete r5 = record {
                  stored = from0.grows definitions stored;
                  ready = from0.grows worker_readiness ready;
                  reconciled = λ h.
                      from1.grows schedules
                        (d1 (sym (ap ActivationPlan.reconciles from0.plan) ∙ h));
                  published = λ h.
                      from2.grows catalog_routing
                        (d2 (sym (ap ActivationPlan.publishes from1.plan) ∙ h));
                  switched = λ h.
                      from3.grows worker_routing
                        (d3 (sym (ap ActivationPlan.switches from2.plan) ∙ h));
                  pointed = from4.grows active_pointer d4;
                  indexed = d5;
                } in
                Keeps-map (λ q k. (k.0.sound, ap is_settled k.1))
                  (transition-Keeps env rely r5 applied none true λ a. complete)
