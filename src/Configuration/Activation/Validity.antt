-- ===== src/Configuration/Activation/Validity.antt =====
-- The operations of configuration/activation_store.py on a valid record.
use text.Mathlib.Text.{◌==◌ as str_eq}
use justflow.Common.{
  ℕ, ◌+◌, ◌≤◌, ◌≡◌, refl, String, Bool, true, false, ◌&&◌, [], ◌∷◌, arith, length, length-append,
  Option, leb, ltb, le→leb, ◌∙◌,
}
use justflow.Configuration.Results.{OutcomeCode}
use justflow.Configuration.Records.{
  ActivationState, CheckpointKind, ExternalOutcome, ActivationTransition, ActivationCheckpoint,
  WorkerReadiness, ActivationRecord, max_activation_history, max_checkpoints, same_state,
  is_present, same_presence, ends_at, is_history, has_checkpoint, are_numbered, are_unique,
  needs_outcome, is_valid, pending,
}
use justflow.Configuration.Records.Appending.{
  ends_at-append, is_history-append, are_numbered-append, are_unique-append, length-kind-le,
}
use justflow.Configuration.Activation.{or_released, transitioned, checkpointed, registered}

-- What `is_valid` tests.
pub record IsValid (r : ActivationRecord) : Type 0 where
  pub scope : str_eq r.plan.scope_digest r.scope_digest ≡ true
  pub lease : same_presence (is_present r.lease_owner_digest) (is_present r.lease_expires_at) ≡ true
  pub times : leb r.created_at r.updated_at ≡ true
  pub ended : ends_at pending r.transitions r.state ≡ true
  pub history : is_history r.transitions ≡ true
  pub numbered : are_numbered 1 r.checkpoints ≡ true
  pub unique : are_unique r.checkpoints ≡ true
  pub named : same_presence (needs_outcome r.state) (is_present r.outcome_code) ≡ true
  pub positive : leb 1 r.version ≡ true
  pub bounded : leb (length r.transitions) max_activation_history ≡ true

pub and-true : (a b : Bool) → a && b ≡ true → (a ≡ true) × (b ≡ true)
and-true true b h = (refl, h)
and-true false b h = cc

pub is_valid-IsValid : (r : ActivationRecord) → is_valid r ≡ true → IsValid r
unfolding is_valid
is_valid-IsValid r v =
    let (a, b) = and-true _ _ v in
    let (scope, a1) = and-true _ _ a in
    let (lease, times) = and-true _ _ a1 in
    let (b1, b2) = and-true _ _ b in
    let (ended, history) = and-true _ _ b1 in
    let (b3, b4) = and-true _ _ b2 in
    let (numbered, unique) = and-true _ _ b3 in
    let (named, b5) = and-true _ _ b4 in
    let (positive, b6) = and-true _ _ b5 in
    let (bounded, b7) = and-true _ _ b6 in
    record {
      scope = scope;
      lease = lease;
      times = times;
      ended = ended;
      history = history;
      numbered = numbered;
      unique = unique;
      named = named;
      positive = positive;
      bounded = bounded;
    }

pub IsValid-is_valid : (r : ActivationRecord) → IsValid r → is_valid r ≡ true
unfolding is_valid
IsValid-is_valid r v =
    rw
      (
        v.scope,
        v.lease,
        v.times,
        v.ended,
        v.history,
        v.numbered,
        v.unique,
        v.named,
        v.positive,
        v.bounded,
        le→leb (length r.checkpoints) max_checkpoints (length-kind-le r.checkpoints v.unique),
      )
      refl

same_state_refl : (a : ActivationState) → same_state a a ≡ true
same_state_refl a = ground arith

released-presence :
    {A B : Type 0} (release : Bool) (a : Option A) (b : Option B)
    → same_presence (is_present a) (is_present b) ≡ true
    → same_presence (is_present (or_released release a)) (is_present (or_released release b)) ≡ true
released-presence true a b h = refl
released-presence false a b h = h

pub transitioned-IsValid :
    (r : ActivationRecord) (to : ActivationState) (now : ℕ) (outcome : Option OutcomeCode)
    (release : Bool)
    → IsValid r
    → r.created_at ≤ now
    → ltb (length r.transitions) max_activation_history ≡ true
    → same_presence (needs_outcome to) (is_present outcome) ≡ true
    → IsValid (transitioned r to now outcome release)
transitioned-IsValid r to now outcome release v late room named =
    let t : ActivationTransition = record {
      sequence = length r.transitions + 1;
      from_state = r.state;
      to_state = to;
      occurred_at = now;
      outcome_code = outcome;
    } in
    record {
      scope = v.scope;
      lease = released-presence release _ _ v.lease;
      times = le→leb _ _ late;
      ended = ends_at-append pending r.transitions t to ∙ same_state_refl to;
      history = is_history-append r.transitions t v.history v.ended refl;
      numbered = v.numbered;
      unique = v.unique;
      named = named;
      positive = ground arith;
      bounded = ground (arith, length-append r.transitions (t ∷ []));
    }

pub checkpointed-IsValid :
    (r : ActivationRecord) (kind : CheckpointKind) (outcome : ExternalOutcome) (digest : String)
    (now : ℕ)
    → IsValid r
    → r.created_at ≤ now
    → has_checkpoint kind r.checkpoints ≡ false
    → IsValid (checkpointed r kind outcome digest now)
checkpointed-IsValid r kind outcome digest now v late new =
    let c : ActivationCheckpoint = record {
      sequence = length r.checkpoints + 1;
      kind = kind;
      outcome = outcome;
      occurred_at = now;
      observation_digest = digest;
    } in
    record {
      scope = v.scope;
      lease = v.lease;
      times = le→leb _ _ late;
      ended = v.ended;
      history = v.history;
      numbered = are_numbered-append 1 r.checkpoints c v.numbered (omega arith);
      unique = are_unique-append r.checkpoints c v.unique new;
      named = v.named;
      positive = ground arith;
      bounded = v.bounded;
    }

pub leased-IsValid :
    (r : ActivationRecord) (owner : Option String) (expires : Option ℕ) (now : ℕ)
    → IsValid r
    → r.created_at ≤ now
    → same_presence (is_present owner) (is_present expires) ≡ true
    → IsValid (record r {
      lease_owner_digest = owner;
      lease_expires_at = expires;
      version = r.version + 1;
      updated_at = now;
    })
leased-IsValid r owner expires now v late lease = record {
  scope = v.scope;
  lease = lease;
  times = le→leb _ _ late;
  ended = v.ended;
  history = v.history;
  numbered = v.numbered;
  unique = v.unique;
  named = v.named;
  positive = ground arith;
  bounded = v.bounded;
}

pub registered-IsValid :
    (r : ActivationRecord) (readiness : WorkerReadiness) (now : ℕ)
    → IsValid r
    → r.created_at ≤ now
    → IsValid (registered r readiness now)
registered-IsValid r readiness now v late = record {
  scope = v.scope;
  lease = v.lease;
  times = le→leb _ _ late;
  ended = v.ended;
  history = v.history;
  numbered = v.numbered;
  unique = v.unique;
  named = v.named;
  positive = ground arith;
  bounded = v.bounded;
}
