-- ===== src/Configuration/Records.antt =====
-- The activation records of configuration/activation.py. A time is a number of ticks, and an artifact its canonical text.
-- `model_validate` of a record is `validated`, with the bounds of its fields; a ValidationError is a
-- ValueError.
pub mod Appending
use text.Mathlib.Text.{◌==◌ as str_eq}
use Prim.Native.String.{compare as compare_text}
use Prim.Native.Nat.{Ordering}
use justflow.Common.{
  ℕ, suc, ◌+◌, String, Bool, true, false, not, ◌&&◌, ◌||◌, Option, none, some, List, [], ◌∷◌, ◌++◌,
  leb, ltb, ◌==◌, if◌then◌else◌, length,
}
use justflow.Configuration.Results.{OutcomeCode, value_error, Result, ok, err, ◌>>=◌, guard}

pub data ActivationState : Type 0 where
  pending running waiting_for_readiness applied failed superseded rolled_back : ActivationState

pub data CheckpointKind : Type 0 where
  definitions worker_rollout worker_readiness schedules catalog_routing worker_routing
        active_pointer runtime_index :
      CheckpointKind

pub data ExternalOutcome : Type 0 where
  confirmed idempotent : ExternalOutcome

-- The actions of a plan, each to do or not.
pub record ActivationPlan : Type 0 where
  pub plan_digest : String
  pub scope_digest : String
  pub source_revision_id : Option String
  pub target_revision_id : String
  pub expected_active_revision_id : Option String
  pub expected_active_pointer_version : Option ℕ
  pub expected_catalog_alias_version : Option String
  pub policy_digest : String
  pub worker_observation_digest : String
  pub schedule_observation_digest : String
  pub target_artifact : String
  pub target_task_queue_identity_digest : String
  pub target_worker_registration_digest : String
  pub target_definition_digests : List String
  pub rolls_out : Bool
  pub publishes : Bool
  pub switches : Bool
  pub reconciles : Bool

pub record ActivationTransition : Type 0 where
  pub sequence : ℕ
  pub from_state : ActivationState
  pub to_state : ActivationState
  pub occurred_at : ℕ
  pub outcome_code : Option OutcomeCode

pub record ActivationCheckpoint : Type 0 where
  pub sequence : ℕ
  pub kind : CheckpointKind
  pub outcome : ExternalOutcome
  pub occurred_at : ℕ
  pub observation_digest : String

pub record WorkerReadiness : Type 0 where
  pub configuration_revision_id : String
  pub artifact : String
  pub definition_digests : List String
  pub task_queue_identity_digest : String
  pub deployment_registration_digest : String
  pub registered_at : ℕ

pub record ActivationRecord : Type 0 where
  pub activation_id : String
  pub scope_digest : String
  pub idempotency_key_digest : String
  pub request_digest : String
  pub actor_digest : String
  pub correlation_digest : String
  pub plan : ActivationPlan
  pub state : ActivationState
  pub version : ℕ
  pub transitions : List ActivationTransition
  pub checkpoints : List ActivationCheckpoint
  pub lease_owner_digest : Option String
  pub lease_expires_at : Option ℕ
  pub worker_readiness : Option WorkerReadiness
  pub rollback_of_activation_id : Option String
  pub outcome_code : Option OutcomeCode
  pub created_at : ℕ
  pub updated_at : ℕ

abbrev pub max_activation_history : ℕ
max_activation_history = 100

abbrev pub max_checkpoints : ℕ
max_checkpoints = 8

abbrev pub state_code : ActivationState → ℕ
state_code pending = 0
state_code running = 1
state_code waiting_for_readiness = 2
state_code applied = 3
state_code failed = 4
state_code superseded = 5
state_code rolled_back = 6

abbrev pub same_state : ActivationState → ActivationState → Bool
same_state a b = state_code a == state_code b

abbrev pub kind_code : CheckpointKind → ℕ
kind_code definitions = 0
kind_code worker_rollout = 1
kind_code worker_readiness = 2
kind_code schedules = 3
kind_code catalog_routing = 4
kind_code worker_routing = 5
kind_code active_pointer = 6
kind_code runtime_index = 7

abbrev pub same_kind : CheckpointKind → CheckpointKind → Bool
same_kind a b = kind_code a == kind_code b

abbrev pub is_present {ℓ} : {A : Type ℓ} → Option A → Bool
is_present none = false
is_present (some a) = true

abbrev pub same_presence : Bool → Bool → Bool
same_presence true b = b
same_presence false b = not b

-- the last state of the transitions is the record's; without transitions the record is pending
unfoldable pub ends_at : ActivationState → List ActivationTransition → ActivationState → Bool
ends_at start [] state = same_state state start
ends_at start (t ∷ ts) state = ends_at t.to_state ts state

-- contiguous sequence numbers, and each transition from where the one before it has led
unfoldable pub continues : (index : ℕ) → ActivationState → List ActivationTransition → Bool
continues index previous [] = true
continues index previous (t ∷ ts) =
    t.sequence == index && (same_state previous t.from_state && continues (suc index) t.to_state ts)

abbrev pub is_history : List ActivationTransition → Bool
is_history [] = true
is_history (t ∷ ts) = t.sequence == 1 && continues 2 t.to_state ts

unfoldable pub has_checkpoint : CheckpointKind → List ActivationCheckpoint → Bool
has_checkpoint kind [] = false
has_checkpoint kind (c ∷ cs) = same_kind c.kind kind || has_checkpoint kind cs

-- contiguous sequence numbers, and no kind twice
unfoldable pub are_numbered : (index : ℕ) → List ActivationCheckpoint → Bool
are_numbered index [] = true
are_numbered index (c ∷ cs) = c.sequence == index && are_numbered (suc index) cs

unfoldable pub are_unique : List ActivationCheckpoint → Bool
unfolding has_checkpoint
are_unique [] = true
are_unique (c ∷ cs) = not (has_checkpoint c.kind cs) && are_unique cs

-- a failed or superseded activation has an outcome code, and no other has
abbrev pub needs_outcome : ActivationState → Bool
needs_outcome failed = true
needs_outcome superseded = true
needs_outcome _ = false

-- `validate_state`, and the bounds of the fields
unfoldable pub is_valid : ActivationRecord → Bool
unfolding ends_at continues are_numbered are_unique
is_valid r =
    (str_eq r.plan.scope_digest r.scope_digest
      && (same_presence (is_present r.lease_owner_digest) (is_present r.lease_expires_at)
          && leb r.created_at r.updated_at))
    && ((ends_at pending r.transitions r.state && is_history r.transitions)
        && ((are_numbered 1 r.checkpoints && are_unique r.checkpoints)
            && (same_presence (needs_outcome r.state) (is_present r.outcome_code)
                && (leb 1 r.version
                    && (leb (length r.transitions) max_activation_history
                        && leb (length r.checkpoints) max_checkpoints)))))

abbrev pub validated : ActivationRecord → Result ActivationRecord
validated r = if is_valid r then ok r else err value_error
