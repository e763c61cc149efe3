-- ===== src/Tests/Activations.antt =====
-- The activation of a configuration on fixed data: configuration/activation_store.py, its SQLite store and
-- runtime/configuration_activation.py.
use justflow.Common.{
  ◌≡◌, refl, inl, inr, ◌⊎◌, arith, ℕ, Bool, true, false, Option, none, some, [], ◌∷◌,
}
use justflow.Common.Dict.{Dict, lookup, insert}
use justflow.Configuration.Results.{value_error, Result, ok, err}
use justflow.Configuration.Records.{
  ActivationState, ActivationPlan, WorkerReadiness, ActivationRecord, ends_at, continues,
  has_checkpoint, are_numbered, are_unique, is_valid, pending, running, applied, definitions,
  confirmed,
}
use justflow.Configuration.Activation.{
  transitioned, checkpointed, find_checkpoint, apply, Change, transitions, same_texts,
  transition_activation, record_activation_checkpoint, acquire_activation_lease,
}
use justflow.Configuration.Store.{
  read_row, inserted_once, has_revision, decoded, row_of, read_activation, update_activation,
  ActivationRow, ActivePointer, compare_and_swap_active,
}
use justflow.Configuration.Control.{ControlState, pure, ◌>>=◌, Prepared, ControlEnvironment}
use justflow.Configuration.Controller.{read_record, update}
use justflow.Configuration.Controller.Keeping.{IsSafe, Holds, pure-Keeps, Relies}
use justflow.Configuration.Controller.Steps.{
  confirmed_by, idempotent_by, is_prepared_for, store_each, store_assignments,
  store_definition_objects, roll_out, confirm_readiness, await_readiness, roll_out_once,
  ensure_worker_ready, reconcile_schedules,
}
use justflow.Configuration.Controller.Routing.{
  replace_stale_aliases, switch_catalog, switch_worker_routing, read_active, swap_pointer,
  move_pointer, advance_active_pointer, replace_runtime_index, has_items,
}
use justflow.Configuration.Controller.Resume.{
  leave_waiting, apply_steps, run_steps, try_steps, settle_activation, resume, register_readiness,
}
use justflow.Configuration.Controller.Operations.{inserted-IsSafe}
use justflow.Configuration.Controller.Carrying.{IsReturned}
use justflow.Configuration.Controller.Resuming.{resume-IsReturned}
use justflow.Configuration.Controller.Pointer.{move_pointer-swap_pointer}
use justflow.Configuration.Activation.Permits.{permits, Succeeds, apply-IsValid}
use justflow.Configuration.Activation.Lookup.{Recorded, find-record_activation_checkpoint}
use justflow.Configuration.Store.Chain.{Reach, IsCurrent, Reach-IsCurrent, created, updated}
use justflow.Configuration.Store.Growth.{Outgrows, Reach-Outgrows}
use justflow.Configuration.Store.{create_activation}

abbrev pub plan : ActivationPlan
plan = record {
  plan_digest = "p";
  scope_digest = "s";
  source_revision_id = none;
  target_revision_id = "r2";
  expected_active_revision_id = some "r1";
  expected_active_pointer_version = some 3;
  expected_catalog_alias_version = none;
  policy_digest = "policy";
  worker_observation_digest = "w";
  schedule_observation_digest = "c";
  target_artifact = "image";
  target_task_queue_identity_digest = "queue";
  target_worker_registration_digest = "workers";
  target_definition_digests = [];
  rolls_out = false;
  publishes = false;
  switches = true;
  reconciles = false;
}

abbrev pub new_record : ActivationRecord
new_record = record {
  activation_id = "a1";
  scope_digest = "s";
  idempotency_key_digest = "k";
  request_digest = "q";
  actor_digest = "u";
  correlation_digest = "x";
  plan = plan;
  state = pending;
  version = 1;
  transitions = [];
  checkpoints = [];
  lease_owner_digest = none;
  lease_expires_at = none;
  worker_readiness = none;
  rollback_of_activation_id = none;
  outcome_code = none;
  created_at = 5;
  updated_at = 5;
}

new_record-IsValid : is_valid new_record ≡ true
unfolding is_valid ends_at are_numbered are_unique
new_record-IsValid = refl

abbrev starts : Change
starts = transitions running 6 none false

abbrev started : ActivationRecord
started = transitioned new_record running 6 none false

apply_run : apply starts new_record ≡ ok started
unfolding apply transition_activation is_valid ends_at continues are_numbered are_unique
apply_run = refl

apply-IsValid_example :
    ((permits starts new_record ≡ true) × Succeeds starts new_record)
    ⊎ ((permits starts new_record ≡ false) × (apply starts new_record ≡ err value_error))
apply-IsValid_example = apply-IsValid starts new_record new_record-IsValid (omega arith)

abbrev with_checkpoint : ActivationRecord
with_checkpoint = checkpointed started definitions confirmed "d" 7

checkpoint_run :
    record_activation_checkpoint started definitions confirmed "d" 7 ≡ ok with_checkpoint
unfolding record_activation_checkpoint find_checkpoint is_valid ends_at continues are_numbered
    are_unique has_checkpoint
checkpoint_run = refl

find-record_activation_checkpoint_example :
    Recorded definitions confirmed "d" started with_checkpoint
find-record_activation_checkpoint_example =
    find-record_activation_checkpoint started with_checkpoint definitions confirmed "d" 7
      checkpoint_run

abbrev pub size : ActivationRecord → ℕ
size r = 100

abbrev first_rows : Dict ActivationRow
first_rows = ("a1", row_of new_record) ∷ []

abbrev second_rows : Dict ActivationRow
second_rows = ("a1", row_of started) ∷ []

abbrev no_rows : Dict ActivationRow
no_rows = []

create_run : create_activation "s" size new_record no_rows ≡ ok (first_rows, new_record)
unfolding create_activation inserted_once lookup insert
create_run = refl

update_run : update_activation "s" size started 1 first_rows ≡ ok (second_rows, started)
unfolding update_activation lookup insert
update_run = refl

none_yet : lookup "a1" no_rows ≡ none
unfolding lookup
none_yet = refl

two_updates : Reach "s" size "a1" second_rows (started ∷ new_record ∷ [])
two_updates =
    updated starts new_record started (created new_record no_rows refl none_yet create_run)
      (inl refl) apply_run update_run

Reach-IsCurrent_example : IsCurrent "s" size "a1" second_rows (started ∷ new_record ∷ [])
Reach-IsCurrent_example = Reach-IsCurrent "s" size "a1" two_updates

Reach-Outgrows_example :
    (r : ActivationRecord) × (lookup "a1" second_rows ≡ some (row_of r)) × Outgrows new_record r
Reach-Outgrows_example = Reach-Outgrows "s" size "a1" two_updates new_record (inr (inl refl))

abbrev pub prepared : Prepared
prepared = record {
  revision_id = "r2";
  policy_digest = "policy";
  artifact = "image";
  task_queue_identity_digest = "queue";
  registration_digest = "workers";
  definition_digests = [];
  aliases = [];
  assignments = record { scope = "s"; manifests = "m" ∷ []; environment_snapshots = [] } ∷ [];
}

-- no other process, and bindings that agree
abbrev environment : ControlEnvironment Bool
environment = record {
  scope_digest = "s";
  controller_digest = "me";
  lease_duration = 30;
  record_size = size;
  turn = pure tt;
  now = pure 9;
  prepare = λ id. pure prepared;
  store_definition_manifest = λ scope manifest. pure tt;
  store_environment_snapshot = λ scope snapshot. pure tt;
  inspect_aliases = pure ([], none);
  replace_aliases = λ aliases version. pure none;
  worker_binding = none;
  reconcile_schedules = none;
  replace_index = λ p. pure tt;
  definitions_digest = λ p. "definitions";
  readiness_digest = λ r. "readiness";
  aliases_digest = λ a v. "aliases";
  pointer_digest = λ p. "pointer";
  index_digest = λ p. "index";
}

environment-Relies : Relies environment
environment-Relies = record {
  turn = pure-Keeps tt tt;
  now = pure-Keeps 9 tt;
  prepare = λ id. pure-Keeps prepared tt;
  store_definition_manifest = λ scope manifest. pure-Keeps tt tt;
  store_environment_snapshot = λ scope snapshot. pure-Keeps tt tt;
  inspect_aliases = pure-Keeps ([], none) tt;
  replace_aliases = λ aliases version. pure-Keeps none tt;
  worker_binding = λ b e. cc;
  reconcile_schedules = λ b e. cc;
  replace_index = λ p. pure-Keeps tt tt;
}

abbrev pub stores : ControlState Bool
stores = record {
  rows = first_rows;
  configuration = record {
    revisions = "r1" ∷ "r2" ∷ [];
    active = some (record { revision_id = "r1"; version = 3 });
  };
  world = true;
}

stores-IsSafe : IsSafe stores
unfolding insert lookup
stores-IsSafe =
    inserted-IsSafe environment environment-Relies new_record [] (λ id row e. cc) (λ e. cc)

abbrev readiness : WorkerReadiness
readiness = record {
  configuration_revision_id = "r2";
  artifact = "image";
  definition_digests = [];
  task_queue_identity_digest = "queue";
  deployment_registration_digest = "workers";
  registered_at = 8;
}

abbrev state_of : Result ActivationRecord → Option ActivationState
state_of (ok r) = some r.state
state_of (err e) = none

resume_run : state_of (resume environment "a1" stores).1 ≡ some applied
unfolding resume read_record read_activation read_row decoded try_steps settle_activation update
    update_activation acquire_activation_lease transition_activation record_activation_checkpoint
    find_checkpoint has_checkpoint leave_waiting run_steps store_definition_objects
    store_assignments store_each ensure_worker_ready reconcile_schedules switch_catalog
    switch_worker_routing advance_active_pointer move_pointer swap_pointer compare_and_swap_active
    has_revision replace_runtime_index apply_steps is_prepared_for same_texts is_valid ends_at
    continues are_numbered are_unique lookup insert roll_out_once roll_out await_readiness
    confirm_readiness has_items replace_stale_aliases
resume_run = refl

resume-IsReturned_example :
    Holds IsReturned (resume environment "a1" stores)
    × Holds IsReturned (register_readiness environment "a1" readiness stores)
resume-IsReturned_example =
    resume-IsReturned environment environment-Relies "a1" readiness stores stores-IsSafe

abbrev pointed : ControlState Bool
pointed = record stores {
  configuration = record {
    revisions = "r1" ∷ "r2" ∷ [];
    active = some (record { revision_id = "r2"; version = 4 });
  };
}

swap_run : swap_pointer environment plan stores ≡ (pointed, ok (confirmed_by "pointer"))
unfolding swap_pointer compare_and_swap_active has_revision
swap_run = refl

move_pointer-swap_pointer_example :
    (pointer : ActivePointer) × (pointed.configuration.active ≡ some pointer)
    × (pointer.revision_id ≡ "r2")
    × ((read_active environment >>= move_pointer environment plan) pointed
        ≡ (pointed, ok (idempotent_by "pointer")))
move_pointer-swap_pointer_example =
    move_pointer-swap_pointer environment plan stores pointed (confirmed_by "pointer") refl swap_run
      refl
