-- ===== src/Configuration/Activation.antt =====
-- The operations of configuration/activation_store.py on an activation record.
pub mod Following
pub mod Outcomes
pub mod Lookup
pub mod Validity
pub mod Permits
use text.Mathlib.Text.{◌==◌ as str_eq}
use Prim.Native.String.{compare as compare_text}
use Prim.Native.Nat.{Ordering}
use justflow.Common.{
  ℕ, suc, ◌+◌, String, Bool, true, false, not, ◌&&◌, ◌||◌, Option, none, some, List, [], ◌∷◌, ◌++◌,
  leb, ltb, ◌==◌, if◌then◌else◌, length,
}
use justflow.Configuration.Results.{OutcomeCode, value_error, Result, ok, err, ◌>>=◌, ◌>>◌, guard}
use justflow.Configuration.Records.{
  ActivationState, CheckpointKind, ExternalOutcome, ActivationPlan, ActivationTransition,
  ActivationCheckpoint, WorkerReadiness, ActivationRecord, max_activation_history, max_checkpoints,
  state_code, same_state, kind_code, same_kind, is_present, same_presence, ends_at, continues,
  is_history, has_checkpoint, are_numbered, are_unique, needs_outcome, is_valid, validated, pending,
  running, waiting_for_readiness, applied, failed, superseded, rolled_back, definitions,
  worker_rollout, worker_readiness, schedules, catalog_routing, worker_routing, active_pointer,
  runtime_index, confirmed, idempotent,
}

-- `_ALLOWED_ACTIVATION_TRANSITIONS`
abbrev pub allows : ActivationState → ActivationState → Bool
allows pending running = true
allows pending superseded = true
allows running waiting_for_readiness = true
allows running applied = true
allows running failed = true
allows running superseded = true
allows running rolled_back = true
allows waiting_for_readiness running = true
allows waiting_for_readiness failed = true
allows waiting_for_readiness superseded = true
allows failed running = true
allows failed superseded = true
allows applied rolled_back = true
allows _ _ = false

abbrev pub or_released {ℓ} : {A : Type ℓ} → Bool → Option A → Option A
or_released true lease = none
or_released false lease = lease

abbrev pub transitioned :
    ActivationRecord
    → ActivationState
    → (occurred_at : ℕ) → Option OutcomeCode
    → (release_lease : Bool) → ActivationRecord
transitioned r to_state occurred_at outcome release_lease =
    let transition : ActivationTransition = record {
      sequence = length r.transitions + 1;
      from_state = r.state;
      to_state = to_state;
      occurred_at = occurred_at;
      outcome_code = outcome;
    } in
    record r {
      state = to_state;
      version = r.version + 1;
      transitions = r.transitions ++ transition ∷ [];
      lease_owner_digest = or_released release_lease r.lease_owner_digest;
      lease_expires_at = or_released release_lease r.lease_expires_at;
      outcome_code = outcome;
      updated_at = occurred_at;
    }

unfoldable pub transition_activation :
    ActivationRecord
    → ActivationState
    → (occurred_at : ℕ) → Option OutcomeCode
    → (release_lease : Bool) → Result ActivationRecord
unfolding is_valid
transition_activation r to_state occurred_at outcome release_lease = do
  guard (allows r.state to_state) value_error
  guard (ltb (length r.transitions) max_activation_history) value_error
  guard (same_presence (needs_outcome to_state) (is_present outcome)) value_error
  validated (transitioned r to_state occurred_at outcome release_lease)

unfoldable pub find_checkpoint :
    CheckpointKind → List ActivationCheckpoint → Option ActivationCheckpoint
find_checkpoint kind [] = none
find_checkpoint kind (c ∷ cs) = if same_kind c.kind kind then some c else find_checkpoint kind cs

abbrev pub same_outcome : ExternalOutcome → ExternalOutcome → Bool
same_outcome confirmed confirmed = true
same_outcome idempotent idempotent = true
same_outcome _ _ = false

abbrev pub checkpointed :
    ActivationRecord → CheckpointKind → ExternalOutcome → String → ℕ → ActivationRecord
checkpointed r kind outcome observation_digest occurred_at =
    let checkpoint : ActivationCheckpoint = record {
      sequence = length r.checkpoints + 1;
      kind = kind;
      outcome = outcome;
      occurred_at = occurred_at;
      observation_digest = observation_digest;
    } in
    record r {
      checkpoints = r.checkpoints ++ checkpoint ∷ [];
      version = r.version + 1;
      updated_at = occurred_at;
    }

unfoldable pub record_activation_checkpoint :
    ActivationRecord
    → CheckpointKind
    → ExternalOutcome
    → (observation_digest : String) (occurred_at : ℕ) → Result ActivationRecord
unfolding is_valid find_checkpoint
record_activation_checkpoint r kind outcome observation_digest occurred_at =
    elim (find_checkpoint kind r.checkpoints) [
      | some existing ↦
          if same_outcome existing.outcome outcome
            && str_eq existing.observation_digest observation_digest
          then ok r
          else err value_error
      | none ↦ validated (checkpointed r kind outcome observation_digest occurred_at)
    ]

-- another controller holds the lease
abbrev pub is_held : Option String → Option ℕ → (owner_digest : String) (acquired_at : ℕ) → Bool
is_held (some owner) (some expires_at) owner_digest acquired_at =
    not (str_eq owner owner_digest) && ltb acquired_at expires_at
is_held _ _ owner_digest acquired_at = false

unfoldable pub acquire_activation_lease :
    ActivationRecord
    → (owner_digest : String) (acquired_at expires_at : ℕ) → Result ActivationRecord
unfolding is_valid
acquire_activation_lease r owner_digest acquired_at expires_at = do
  guard (ltb acquired_at expires_at) value_error
  guard (not (is_held r.lease_owner_digest r.lease_expires_at owner_digest acquired_at)) value_error
  validated (record r {
    lease_owner_digest = some owner_digest;
    lease_expires_at = some expires_at;
    version = r.version + 1;
    updated_at = acquired_at;
  })

abbrev pub is_owner : Option String → String → Bool
is_owner none owner_digest = false
is_owner (some owner) owner_digest = str_eq owner owner_digest

unfoldable pub release_activation_lease :
    ActivationRecord → (owner_digest : String) (released_at : ℕ) → Result ActivationRecord
unfolding is_valid
release_activation_lease r owner_digest released_at = do
  guard (is_owner r.lease_owner_digest owner_digest) value_error
  validated (record r {
    lease_owner_digest = none;
    lease_expires_at = none;
    version = r.version + 1;
    updated_at = released_at;
  })

-- sorted(texts)
unfoldable pub insert_sorted : String → List String → List String
insert_sorted x [] = x ∷ []
insert_sorted x (y ∷ ys) =
    let rest = insert_sorted x ys in
    elim (compare_text x y) [ Ordering.gt ↦ y ∷ rest | _ ↦ x ∷ y ∷ ys ]

unfoldable pub sorted : List String → List String
unfolding insert_sorted
sorted [] = []
sorted (x ∷ xs) = insert_sorted x (sorted xs)

unfoldable pub same_texts : List String → List String → Bool
same_texts [] [] = true
same_texts (x ∷ xs) (y ∷ ys) = str_eq x y && same_texts xs ys
same_texts _ _ = false

-- the equality of two registrations
unfoldable pub same_readiness : WorkerReadiness → WorkerReadiness → Bool
unfolding same_texts
same_readiness a b =
    str_eq a.configuration_revision_id b.configuration_revision_id
    && (str_eq a.artifact b.artifact
        && (same_texts a.definition_digests b.definition_digests
            && (str_eq a.task_queue_identity_digest b.task_queue_identity_digest
                && (str_eq a.deployment_registration_digest b.deployment_registration_digest
                    && a.registered_at == b.registered_at))))

abbrev pub registered : ActivationRecord → WorkerReadiness → ℕ → ActivationRecord
registered r readiness occurred_at = record r {
  worker_readiness = some readiness;
  version = r.version + 1;
  updated_at = occurred_at;
}

-- a registration is kept, whatever comes after it
unfoldable pub register_once :
    (known : Option WorkerReadiness)
    → ActivationRecord
    → WorkerReadiness
    → (occurred_at : ℕ) → Result ActivationRecord
unfolding is_valid same_readiness
register_once none r readiness occurred_at = validated (registered r readiness occurred_at)
register_once (some known) r readiness occurred_at =
    if same_readiness known readiness then ok r else err value_error

unfoldable pub register_worker_readiness :
    ActivationRecord → WorkerReadiness → (occurred_at : ℕ) → Result ActivationRecord
unfolding is_valid sorted same_texts register_once
register_worker_readiness r readiness occurred_at = do
  guard (str_eq readiness.configuration_revision_id r.plan.target_revision_id) value_error
  guard (str_eq readiness.artifact r.plan.target_artifact) value_error
  guard (str_eq readiness.deployment_registration_digest r.plan.target_worker_registration_digest)
      value_error
  guard (same_texts (sorted readiness.definition_digests) (sorted r.plan.target_definition_digests))
      value_error
  register_once r.worker_readiness r readiness occurred_at

-- One of the operations above, with its arguments.
pub data Change : Type 0 where
  transitions :
      ActivationState → (occurred_at : ℕ) → Option OutcomeCode → (release_lease : Bool) → Change
  checkpoints :
      CheckpointKind → ExternalOutcome → (observation_digest : String) (occurred_at : ℕ) → Change
  acquires : (owner_digest : String) (acquired_at expires_at : ℕ) → Change
  releases : (owner_digest : String) (released_at : ℕ) → Change
  registers : WorkerReadiness → (occurred_at : ℕ) → Change

unfoldable pub apply : Change → ActivationRecord → Result ActivationRecord
unfolding transition_activation record_activation_checkpoint acquire_activation_lease
    release_activation_lease register_worker_readiness
apply (transitions to_state now outcome release) r =
    transition_activation r to_state now outcome release
apply (checkpoints kind outcome digest now) r =
    record_activation_checkpoint r kind outcome digest now
apply (acquires owner now expires_at) r = acquire_activation_lease r owner now expires_at
apply (releases owner now) r = release_activation_lease r owner now
apply (registers readiness now) r = register_worker_readiness r readiness now

abbrev pub changed_at : Change → ℕ
changed_at (transitions to_state now outcome release) = now
changed_at (checkpoints kind outcome digest now) = now
changed_at (acquires owner now expires_at) = now
changed_at (releases owner now) = now
changed_at (registers readiness now) = now
