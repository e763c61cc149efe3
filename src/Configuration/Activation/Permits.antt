-- ===== src/Configuration/Activation/Permits.antt =====
-- What the guards of the operations of configuration/activation_store.py permit, and what comes of it.
use text.Mathlib.Text.{◌==◌ as str_eq}
use justflow.Common.{
  ℕ, suc, ◌+◌, ◌≤◌, ◌≡◌, refl, String, Bool, true, false, not, ◌&&◌, List, [], ◌∷◌, arith, length,
  Option, none, some, ltb, Bool-cases, Option-cases, inl, inr, ◌⊎◌, ◌∙◌, sym, ap,
}
use justflow.Configuration.Results.{ControlError, Result, ◌>>◌, guard, value_error, ok, err}
use justflow.Configuration.Records.{
  CheckpointKind, ExternalOutcome, ActivationCheckpoint, WorkerReadiness, ActivationRecord,
  max_activation_history, is_present, same_presence, has_checkpoint, needs_outcome, is_valid,
  validated,
}
use justflow.Configuration.Activation.{
  register_once, allows, transitioned, transition_activation, find_checkpoint, same_outcome,
  record_activation_checkpoint, is_held, acquire_activation_lease, is_owner,
  release_activation_lease, sorted, same_texts, same_readiness, registered,
  register_worker_readiness, Change, apply, changed_at, transitions, checkpoints, acquires,
  releases, registers,
}
use justflow.Configuration.Activation.Validity.{
  IsValid, is_valid-IsValid, IsValid-is_valid, and-true, transitioned-IsValid, checkpointed-IsValid,
  leased-IsValid, registered-IsValid,
}

abbrev matches : Option ActivationCheckpoint → ExternalOutcome → String → Bool
matches none outcome digest = true
matches (some c) outcome digest =
    same_outcome c.outcome outcome && str_eq c.observation_digest digest

abbrev agrees : Option WorkerReadiness → WorkerReadiness → Bool
unfolding same_readiness
agrees none readiness = true
agrees (some known) readiness = same_readiness known readiness

-- What the guards of an operation ask of the record.
unfoldable pub permits : Change → ActivationRecord → Bool
unfolding find_checkpoint sorted same_texts same_readiness
permits (transitions to_state now outcome release) r =
    allows r.state to_state
    && (ltb (length r.transitions) max_activation_history
        && same_presence (needs_outcome to_state) (is_present outcome))
permits (checkpoints kind outcome digest now) r =
    matches (find_checkpoint kind r.checkpoints) outcome digest
permits (acquires owner now expires_at) r =
    ltb now expires_at && not (is_held r.lease_owner_digest r.lease_expires_at owner now)
permits (releases owner now) r = is_owner r.lease_owner_digest owner
permits (registers readiness now) r =
    str_eq readiness.configuration_revision_id r.plan.target_revision_id
    && (str_eq readiness.artifact r.plan.target_artifact
        && (str_eq readiness.deployment_registration_digest r.plan.target_worker_registration_digest
            && (same_texts (sorted readiness.definition_digests)
                  (sorted r.plan.target_definition_digests)
                && agrees r.worker_readiness readiness)))

-- The operation has a valid record, the same one or the next version.
pub record Succeeds (c : Change) (r : ActivationRecord) : Type 0 where
  pub after : ActivationRecord
  pub result : apply c r ≡ ok after
  pub valid : is_valid after ≡ true
  pub version : (after ≡ r) ⊎ (after.version ≡ suc r.version)

pub has-find_checkpoint :
    (k : CheckpointKind) (cs : List ActivationCheckpoint)
    → find_checkpoint k cs ≡ none
    → has_checkpoint k cs ≡ false
unfolding find_checkpoint has_checkpoint
has-find_checkpoint k [] h = refl
has-find_checkpoint k (c ∷ cs) h = ground (arith, has-find_checkpoint k cs)

-- a valid next version is what the operation gives
next :
    {c : Change} {r r' : ActivationRecord}
    → IsValid r'
    → apply c r ≡ validated r'
    → r'.version ≡ r.version + 1
    → Succeeds c r
next {r' = r'} v e n = record {
  after = r';
  result = e ∙ rw (IsValid-is_valid r' v) refl;
  valid = IsValid-is_valid r' v;
  version = inr (omega arith);
}

registered_once :
    (known : Option WorkerReadiness) (r : ActivationRecord) (readiness : WorkerReadiness) (now : ℕ)
    → is_valid r ≡ true
    → r.created_at ≤ now
    → agrees known readiness ≡ true
    → (r' : ActivationRecord) × (register_once known r readiness now ≡ ok r')
      × (is_valid r' ≡ true)
      × ((r' ≡ r) ⊎ (r'.version ≡ suc r.version))
unfolding register_once
registered_once none r readiness now valid late same =
    let v =
      IsValid-is_valid _ (registered-IsValid r readiness now (is_valid-IsValid r valid) late) in
    (registered r readiness now, rw v refl, v, inr (omega arith))
registered_once (some known) r readiness now valid late same = (r, rw same refl, valid, inl refl)

permitted :
    (c : Change) (r : ActivationRecord)
    → is_valid r ≡ true
    → r.created_at ≤ changed_at c
    → permits c r ≡ true
    → Succeeds c r
unfolding apply permits sorted same_texts transition_activation record_activation_checkpoint
    acquire_activation_lease release_activation_lease register_worker_readiness
permitted (transitions to now outcome release) r valid late p =
    let room = ltb (length r.transitions) max_activation_history in
    let named = same_presence (needs_outcome to) (is_present outcome) in
    let (allowed, q) = and-true (allows r.state to) (room && named) p in
    let (room, named) = and-true room named q in
    next (transitioned-IsValid r to now outcome release (is_valid-IsValid r valid) late room named)
      (rw (allowed, room, named) refl) refl
permitted (checkpoints kind outcome digest now) r valid late p =
    elim (Option-cases (find_checkpoint kind r.checkpoints)) [
      | inl e ↦
          next
            (checkpointed-IsValid r kind outcome digest now (is_valid-IsValid r valid) late
              (has-find_checkpoint kind r.checkpoints e))
            (rw (e, record_activation_checkpoint) refl) refl
      | inr (c, e) ↦
          let same : matches (some c) outcome digest ≡ true =
            sym (ap (λ o. matches o outcome digest) e) ∙ p in
          record {
            after = r;
            result = rw (e, same, record_activation_checkpoint) refl;
            valid = valid;
            version = inl refl;
          }
    ]
permitted (acquires owner now expires_at) r valid late p =
    let (later, free) =
      and-true (ltb now expires_at)
        (not (is_held r.lease_owner_digest r.lease_expires_at owner now)) p in
    next (leased-IsValid r (some owner) (some expires_at) now (is_valid-IsValid r valid) late refl)
      (rw (later, free) refl) refl
permitted (releases owner now) r valid late p =
    next (leased-IsValid r none none now (is_valid-IsValid r valid) late refl) (rw p refl) refl
permitted (registers readiness now) r valid late p =
    let revision = str_eq readiness.configuration_revision_id r.plan.target_revision_id in
    let artifact = str_eq readiness.artifact r.plan.target_artifact in
    let deployment =
      str_eq readiness.deployment_registration_digest r.plan.target_worker_registration_digest in
    let covered =
      same_texts (sorted readiness.definition_digests) (sorted r.plan.target_definition_digests) in
    let same = agrees r.worker_readiness readiness in
    let (revision, p1) = and-true revision (artifact && (deployment && (covered && same))) p in
    let (artifact, p2) = and-true artifact (deployment && (covered && same)) p1 in
    let (deployment, p3) = and-true deployment (covered && same) p2 in
    let (covered, p4) = and-true covered same p3 in
    let (r', e, valid', newer) = registered_once r.worker_readiness r readiness now valid late p4 in
    record {
      after = r';
      result = rw (revision, artifact, deployment, covered) e;
      valid = valid';
      version = newer;
    }

refused_once :
    (known : Option WorkerReadiness) (r : ActivationRecord) (readiness : WorkerReadiness) (now : ℕ)
    → agrees known readiness ≡ false
    → register_once known r readiness now ≡ err value_error
unfolding register_once
refused_once none r readiness now p = cc
refused_once (some known) r readiness now p = rw p refl

guard-false :
    {B : Type 0} {b : Bool} {e : ControlError} (m : Result B) → b ≡ false → (guard b e >> m) ≡ err e
guard-false m h = rw h refl

refused-&& :
    {B : Type 0} (a b : Bool) (e : ControlError) (m : Result B)
    → a && b ≡ false
    → (b ≡ false → m ≡ err e)
    → (guard a e >> m) ≡ err e
refused-&& true b e m h k = k h
refused-&& false b e m h k = refl

refused : (c : Change) (r : ActivationRecord) → permits c r ≡ false → apply c r ≡ err value_error
unfolding apply permits sorted same_texts transition_activation record_activation_checkpoint
    acquire_activation_lease release_activation_lease register_worker_readiness register_once
refused (transitions to now outcome release) r p =
    let room = ltb (length r.transitions) max_activation_history in
    let named = same_presence (needs_outcome to) (is_present outcome) in
    let m = validated (transitioned r to now outcome release) in
    refused-&& (allows r.state to) (room && named) value_error
      (guard room value_error >> (guard named value_error >> m)) p
      λ q. refused-&& room named value_error (guard named value_error >> m) q (guard-false m)
refused (checkpoints kind outcome digest now) r p =
    elim (Option-cases (find_checkpoint kind r.checkpoints)) [
      | inl e ↦
          let some_false : matches none outcome digest ≡ false =
            sym (ap (λ o. matches o outcome digest) e) ∙ p in
          cc
      | inr (c, e) ↦
          let other : matches (some c) outcome digest ≡ false =
            sym (ap (λ o. matches o outcome digest) e) ∙ p in
          rw (e, other, record_activation_checkpoint) refl
    ]
refused (acquires owner now expires_at) r p =
    let free = not (is_held r.lease_owner_digest r.lease_expires_at owner now) in
    let m = validated (record r {
      lease_owner_digest = some owner;
      lease_expires_at = some expires_at;
      version = r.version + 1;
      updated_at = now;
    }) in
    refused-&& (ltb now expires_at) free value_error (guard free value_error >> m) p (guard-false m)
refused (releases owner now) r p = rw p refl
refused (registers readiness now) r p =
    let v = value_error in
    let revision = str_eq readiness.configuration_revision_id r.plan.target_revision_id in
    let artifact = str_eq readiness.artifact r.plan.target_artifact in
    let deployment =
      str_eq readiness.deployment_registration_digest r.plan.target_worker_registration_digest in
    let covered =
      same_texts (sorted readiness.definition_digests) (sorted r.plan.target_definition_digests) in
    let same = agrees r.worker_readiness readiness in
    let m = register_once r.worker_readiness r readiness now in
    refused-&& revision (artifact && (deployment && (covered && same))) v
      (guard artifact v >> (guard deployment v >> (guard covered v >> m))) p
      λ q.
        refused-&& artifact (deployment && (covered && same)) v
          (guard deployment v >> (guard covered v >> m)) q
          λ q.
            refused-&& deployment (covered && same) v (guard covered v >> m) q
              λ q. refused-&& covered same v m q (refused_once r.worker_readiness r readiness now)

-- An operation that its guards permit gives a valid record, which is the one it was given or the next
-- version of it, when the clock has not gone back before the record's creation; in no case is the new
-- record the reason of a ValueError. An operation that the guards do not permit raises a ValueError.
pub apply-IsValid :
    (c : Change) (r : ActivationRecord)
    → is_valid r ≡ true
    → r.created_at ≤ changed_at c
    → ((permits c r ≡ true) × Succeeds c r)
      ⊎ ((permits c r ≡ false) × (apply c r ≡ err value_error))
apply-IsValid c r v late = elim (Bool-cases (permits c r)) [
  | inl p ↦ inl (p, permitted c r v late p)
  | inr p ↦ inr (p, refused c r p)
]
