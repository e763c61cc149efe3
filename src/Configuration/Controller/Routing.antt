-- ===== src/Configuration/Controller/Routing.antt =====
-- The last steps of ConfigurationActivationController in runtime/configuration_activation.py: the catalog's
-- aliases, the routing of the workers, the active pointer and the index of the runtime.
use text.Mathlib.Text.{◌==◌ as str_eq}
use justflow.Common.{
  ℕ, ◌+◌, String, Bool, true, false, not, ◌&&◌, ◌||◌, Option, none, some, [], ◌∷◌, ◌==◌,
  if◌then◌else◌, length,
}
use justflow.Common.Dict.{Dict, lookup}
use justflow.Configuration.Results.{routing_unavailable, catalog_conflict_error, ok}
use justflow.Configuration.Records.{
  ActivationPlan, ActivationRecord, has_checkpoint, catalog_routing, worker_routing, active_pointer,
  runtime_index,
}
use justflow.Configuration.Activation.{record_activation_checkpoint}
use justflow.Configuration.Store.{ActivePointer, compare_and_swap_active}
use justflow.Configuration.Control.{
  Control, pure, raise, ◌>>=◌, ◌>>◌, ExternalConfirmation, Prepared, WorkerBinding,
  ControlEnvironment,
}
use justflow.Configuration.Controller.{in_configuration, update, checkpoint}
use justflow.Configuration.Controller.Steps.{confirmed_by, idempotent_by, guard_binding}

abbrev pub same_text : Option String → Option String → Bool
same_text none none = true
same_text (some a) (some b) = str_eq a b
same_text _ _ = false

-- the equality of dicts: every item of the one is one of the other, and there are as many
unfoldable pub has_items : Dict String → Dict String → Bool
unfolding lookup
has_items [] others = true
has_items ((name, digest) ∷ rest) others =
    same_text (lookup name others) (some digest) && has_items rest others

abbrev pub same_aliases : Dict String → Dict String → Bool
unfolding has_items
same_aliases a b = length a == length b && has_items a b

-- the version that the plan comes to
abbrev pub planned_version : Option ℕ → ℕ
planned_version none = 1
planned_version (some version) = version + 1

-- the outcome of the pointer's step if it has been moved before, with the version that the plan comes to
abbrev pub is_advanced : Option ActivePointer → ActivationPlan → Bool
is_advanced none plan = false
is_advanced (some pointer) plan =
    str_eq pointer.revision_id plan.target_revision_id
    && pointer.version == planned_version plan.expected_active_pointer_version

module _ {W : Type 0} (env : ControlEnvironment W) where
  unfoldable pub replace_stale_aliases :
      ActivationRecord → Prepared → Dict String × Option String → Control W ExternalConfirmation
  unfolding has_items
  replace_stale_aliases r prepared (aliases, version) =
      let aliases_of = env.aliases_digest prepared.aliases in
      let replacing = do
        stored ← env.replace_aliases prepared.aliases r.plan.expected_catalog_alias_version
        pure (confirmed_by (aliases_of stored))
      in if same_aliases aliases prepared.aliases
        then pure (idempotent_by (aliases_of version))
        else (if same_text version r.plan.expected_catalog_alias_version
            then replacing
            else raise catalog_conflict_error)

  unfoldable pub switch_catalog : ActivationRecord → Prepared → Control W ActivationRecord
  unfolding has_checkpoint replace_stale_aliases update record_activation_checkpoint
  switch_catalog r prepared =
      let switching = do
        inspected ← env.inspect_aliases
        confirmation ← replace_stale_aliases r prepared inspected
        checkpoint env r catalog_routing confirmation
      in if not r.plan.publishes || has_checkpoint catalog_routing r.checkpoints
        then pure r
        else switching

  -- without a binding, the readiness that is registered stands for the routing
  abbrev pub route :
      Option (WorkerBinding W) → ActivationRecord → Prepared → Control W ExternalConfirmation
  route none r prepared = pure (
      idempotent_by (elim r.worker_readiness [
        | none ↦ r.plan.worker_observation_digest
        | some readiness ↦ env.readiness_digest readiness
      ]))
  route (some binding) r prepared =
      guard_binding env routing_unavailable (binding.route prepared r.plan.plan_digest)

  unfoldable pub switch_worker_routing : ActivationRecord → Prepared → Control W ActivationRecord
  unfolding has_checkpoint update record_activation_checkpoint
  switch_worker_routing r prepared =
      let switching = route env.worker_binding r prepared >>= checkpoint env r worker_routing in
      if not r.plan.switches || has_checkpoint worker_routing r.checkpoints
      then pure r
      else switching

  abbrev pub read_active : Control W (Option ActivePointer)
  read_active = env.turn >> λ s. (s, ok s.configuration.active)

  unfoldable pub swap_pointer : ActivationPlan → Control W ExternalConfirmation
  unfolding compare_and_swap_active
  swap_pointer plan = do
    pointer ← in_configuration env (
        compare_and_swap_active plan.target_revision_id plan.expected_active_revision_id
          plan.expected_active_pointer_version)
    pure (confirmed_by (env.pointer_digest pointer))

  unfoldable pub move_pointer :
      ActivationPlan → Option ActivePointer → Control W ExternalConfirmation
  unfolding swap_pointer
  move_pointer plan none = swap_pointer plan
  move_pointer plan (some current) =
      let swapping = swap_pointer plan in
      if is_advanced (some current) plan
      then pure (idempotent_by (env.pointer_digest current))
      else swapping

  unfoldable pub advance_active_pointer : ActivationRecord → Control W ActivationRecord
  unfolding has_checkpoint move_pointer update record_activation_checkpoint
  advance_active_pointer r =
      let advancing = do
        current ← read_active
        confirmation ← move_pointer r.plan current
        checkpoint env r active_pointer confirmation
      in if has_checkpoint active_pointer r.checkpoints then pure r else advancing

  unfoldable pub replace_runtime_index : ActivationRecord → Prepared → Control W ActivationRecord
  unfolding has_checkpoint update record_activation_checkpoint
  replace_runtime_index r prepared =
      let replacing =
        env.replace_index prepared
        >> checkpoint env r runtime_index (confirmed_by (env.index_digest prepared)) in
      if has_checkpoint runtime_index r.checkpoints then pure r else replacing
