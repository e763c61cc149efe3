-- ===== src/Configuration/Store.antt =====
-- The activations of configuration/activation_sqlite.py and the active pointer of configuration/sqlite.py,
-- in one runtime scope. A row is its version column and its payload; `size` is the length of the payload
-- in bytes. An exception rolls the transaction back.
pub mod Chain
pub mod Growth
use text.Mathlib.Text.{◌==◌ as str_eq}
use justflow.Common.{
  ℕ, suc, ◌+◌, String, Bool, true, false, not, ◌&&◌, ◌||◌, Option, none, some, List, [], ◌∷◌, leb,
  ◌==◌, if◌then◌else◌,
}
use justflow.Common.Dict.{Dict, lookup, insert}
use justflow.Configuration.Results.{
  OutcomeCode, ControlError, Result, ◌>>=◌, ◌>>◌, guard, Ensures, >>=-eq-ok, guard->>, Ensures_ok,
  ok-inj, definitions_unavailable, worker_unavailable, schedules_unavailable, routing_unavailable,
  configuration_conflict, stale_plan, internal_error, value_error, not_found, conflict, integrity,
  unavailable, limit, controller, configuration_conflict_error, configuration_error,
  catalog_conflict_error, catalog_error, external, ok, err,
}
use justflow.Configuration.Records.{
  ActivationState, CheckpointKind, ExternalOutcome, ActivationPlan, ActivationTransition,
  ActivationCheckpoint, WorkerReadiness, ActivationRecord, max_activation_history, max_checkpoints,
  state_code, same_state, kind_code, same_kind, is_present, same_presence, ends_at, continues,
  is_history, has_checkpoint, are_numbered, are_unique, needs_outcome, is_valid, validated, pending,
  running, waiting_for_readiness, applied, failed, superseded, rolled_back, definitions,
  worker_rollout, worker_readiness, schedules, catalog_routing, worker_routing, active_pointer,
  runtime_index, confirmed, idempotent,
}

pub record ActivationRow : Type 0 where
  pub version : ℕ
  pub payload : ActivationRecord

abbrev pub row_of : ActivationRecord → ActivationRow
row_of r = record { version = r.version; payload = r }

-- the row is there, and nobody has changed it since the record of the expected version was read
abbrev pub is_current : Option ActivationRow → (expected_version : ℕ) → Bool
is_current none expected_version = false
is_current (some row) expected_version = row.version == expected_version

abbrev pub max_activation_record_bytes : ℕ
max_activation_record_bytes = 350000

module _ (scope_digest : String) (size : ActivationRecord → ℕ) where
  abbrev pub require_scope : ActivationRecord → Result (Unit {0})
  require_scope record_ = guard (str_eq record_.scope_digest scope_digest) integrity

  -- `_record_bytes`
  abbrev pub serialized : ActivationRecord → Result ActivationRecord
  serialized r = do guard (leb (size r) max_activation_record_bytes) limit; ok r

  -- `_activation`: a payload that is no valid record of the scope, of which it is the canonical text
  unfoldable pub decoded : ActivationRecord → Result ActivationRecord
  unfolding is_valid
  decoded payload = do
    guard (is_valid payload) integrity
    guard (str_eq payload.scope_digest scope_digest) integrity
    serialized payload

  -- an existing activation of the same request is the one to go on with
  unfoldable pub inserted_once :
      (existing : Option ActivationRow)
      → ActivationRecord
      → Dict ActivationRow
      → Result (Dict ActivationRow × ActivationRecord)
  unfolding insert decoded
  inserted_once none r rows = ok (insert r.activation_id (row_of r) rows, r)
  inserted_once (some row) r rows = do
    existing ← decoded row.payload
    guard
        (str_eq existing.request_digest r.request_digest
          && str_eq existing.idempotency_key_digest r.idempotency_key_digest)
        conflict
    ok (rows, existing)

  unfoldable pub create_activation :
      ActivationRecord → Dict ActivationRow → Result (Dict ActivationRow × ActivationRecord)
  unfolding lookup inserted_once
  create_activation r rows = do
    require_scope r
    _ ← serialized r
    inserted_once (lookup r.activation_id rows) r rows

  unfoldable pub read_row :
      Option ActivationRow → (activation_id : String) → Result ActivationRecord
  unfolding decoded
  read_row none activation_id = err not_found
  read_row (some row) activation_id = do
    r ← decoded row.payload
    guard (str_eq r.activation_id activation_id) integrity
    ok r

  unfoldable pub read_activation :
      (activation_id : String) → Dict ActivationRow → Result ActivationRecord
  unfolding lookup read_row
  read_activation activation_id rows = read_row (lookup activation_id rows) activation_id

  unfoldable pub update_activation :
      ActivationRecord
      → (expected_version : ℕ) → Dict ActivationRow
      → Result (Dict ActivationRow × ActivationRecord)
  unfolding lookup insert
  update_activation r expected_version rows = do
    require_scope r
    guard (r.version == expected_version + 1) integrity
    _ ← serialized r
    guard (is_current (lookup r.activation_id rows) expected_version) conflict
    ok (insert r.activation_id (row_of r) rows, r)

pub record ActivePointer : Type 0 where
  pub revision_id : String
  pub version : ℕ

-- the revisions that are stored, and the pointer to the active one
pub record ConfigurationStore : Type 0 where
  pub revisions : List String
  pub active : Option ActivePointer

unfoldable pub has_revision : String → List String → Bool
has_revision revision_id [] = false
has_revision revision_id (r ∷ rs) = str_eq r revision_id || has_revision revision_id rs

abbrev pub same_revision : Option String → Option String → Bool
same_revision none none = true
same_revision (some a) (some b) = str_eq a b
same_revision _ _ = false

abbrev pub revision_of : Option ActivePointer → Option String
revision_of none = none
revision_of (some p) = some p.revision_id

-- the version is compared only if one is expected
abbrev pub is_version : Option ActivePointer → (expected_version : Option ℕ) → Bool
is_version current none = true
is_version none (some version) = false
is_version (some p) (some version) = p.version == version

abbrev pub next_version : Option ActivePointer → ℕ
next_version none = 1
next_version (some p) = p.version + 1

unfoldable pub compare_and_swap_active :
    (revision_id : String) (expected_revision_id : Option String) (expected_version : Option ℕ)
    → ConfigurationStore
    → Result (ConfigurationStore × ActivePointer)
unfolding has_revision
compare_and_swap_active revision_id expected_revision_id expected_version store = do
  guard (has_revision revision_id store.revisions) configuration_error
  guard
      (same_revision (revision_of store.active) expected_revision_id
        && is_version store.active expected_version)
      configuration_conflict_error
  let pointer : ActivePointer = record {
    revision_id = revision_id;
    version = next_version store.active;
  }
  ok (record store { active = some pointer }, pointer)
