-- ===== src/Configuration/Activation/Outcomes.antt =====
-- The state and the checkpoints after an operation of configuration/activation_store.py.
use mathlib.Core.Path.{subst}
use text.Mathlib.Text.{◌==◌ as str_eq}
use justflow.Common.{
  ℕ, ◌≡◌, refl, String, Bool, true, false, ◌&&◌, ◌||◌, List, [], ◌∷◌, arith, Option, none, some,
  Option-cases, inl, inr, if◌then◌else◌, ap, sym, ◌∙◌,
}
use justflow.Configuration.Results.{value_error, ok, err}
use justflow.Configuration.Records.{
  ActivationState, CheckpointKind, ExternalOutcome, ActivationCheckpoint, WorkerReadiness,
  ActivationRecord, same_kind, has_checkpoint, validated,
}
use justflow.Configuration.Activation.{
  transitioned, transition_activation, find_checkpoint, same_outcome, checkpointed,
  record_activation_checkpoint, acquire_activation_lease, release_activation_lease, registered,
  register_once, register_worker_readiness, Change, apply, transitions, checkpoints, acquires,
  releases, registers,
}
use justflow.Configuration.Activation.Following.{
  Follows, validated-eq, kept-eq, apply-Follows, lease_of,
}
use justflow.Configuration.Records.Appending.{has_checkpoint-append}

abbrev pub state_after : Change → ActivationRecord → ActivationState
state_after (transitions to_state now outcome release) r = to_state
state_after _ r = r.state

-- a checkpoint is there after it is recorded
abbrev pub Records : Change → ActivationRecord → Type 0
unfolding has_checkpoint
Records (checkpoints kind outcome digest now) r = has_checkpoint kind r.checkpoints ≡ true
Records _ r = Unit

pub record Leads (c : Change) (r r' : ActivationRecord) : Type 0 where
  pub follows : Follows r r'
  pub state : r'.state ≡ state_after c r
  pub recorded : Records c r'

pub has-find_some :
    (k : CheckpointKind) (cs : List ActivationCheckpoint) {c : ActivationCheckpoint}
    → find_checkpoint k cs ≡ some c
    → has_checkpoint k cs ≡ true
unfolding find_checkpoint has_checkpoint
has-find_some k [] h = cc
has-find_some k (d ∷ cs) {c = c} h = ground (arith, has-find_some k cs {c = c})

same_kind_refl : (k : CheckpointKind) → same_kind k k ≡ true
same_kind_refl k = ground arith

or-true : (b c : Bool) → c ≡ true → (b || c) ≡ true
or-true true c h = refl
or-true false c h = h

recorded-state :
    (kind : CheckpointKind) (outcome : ExternalOutcome) (digest : String) (now : ℕ)
    (r r' : ActivationRecord)
    → record_activation_checkpoint r kind outcome digest now ≡ ok r'
    → (r'.state ≡ r.state) × (has_checkpoint kind r'.checkpoints ≡ true)
unfolding record_activation_checkpoint
recorded-state kind outcome digest now r r' e =
    let P : ActivationRecord → Type 0 =
      λ q. (q.state ≡ r.state) × (has_checkpoint kind q.checkpoints ≡ true) in
    elim (Option-cases (find_checkpoint kind r.checkpoints)) [
      | inl new ↦
          let k : validated (checkpointed r kind outcome digest now) ≡ ok r' =
            sym (rw (new, record_activation_checkpoint) refl) ∙ e in
          subst P {x = checkpointed r kind outcome digest now} (validated-eq _ k) (
            refl,
            has_checkpoint-append kind r.checkpoints _
                ∙ or-true (has_checkpoint kind r.checkpoints) _ (same_kind_refl kind),
          )
      | inr (c, known) ↦
          let k : (if same_outcome c.outcome outcome && str_eq c.observation_digest digest
                then ok r
                else err value_error)
              ≡ ok r' =
            sym (rw (known, record_activation_checkpoint) refl) ∙ e in
          subst P (kept-eq _ k) (refl, has-find_some kind r.checkpoints known)
    ]

validated-state :
    (q : ActivationRecord) {r' : ActivationRecord} → validated q ≡ ok r' → r'.state ≡ q.state
validated-state q e = ap ActivationRecord.state (sym (validated-eq q e))

registered-state :
    (known : Option WorkerReadiness) (readiness : WorkerReadiness) (now : ℕ)
    (r r' : ActivationRecord)
    → register_once known r readiness now ≡ ok r'
    → r'.state ≡ r.state
unfolding register_once
registered-state none readiness now r r' e = validated-state (registered r readiness now) e
registered-state (some known) readiness now r r' e = ap ActivationRecord.state (sym (kept-eq _ e))

-- An operation that gives a record leads to the state that it names, or stays in the state, and records the
-- checkpoint that it names.
pub apply-Leads : (c : Change) (r r' : ActivationRecord) → apply c r ≡ ok r' → Leads c r r'
unfolding apply transition_activation acquire_activation_lease release_activation_lease
    register_worker_readiness
apply-Leads (transitions to now outcome release) r r' e =
    let k : validated (transitioned r to now outcome release) ≡ ok r' = ground arith in
    record {
      follows = apply-Follows (transitions to now outcome release) r r' e;
      state = validated-state (transitioned r to now outcome release) k;
      recorded = tt;
    }
apply-Leads (checkpoints kind outcome digest now) r r' e =
    let (same, there) = recorded-state kind outcome digest now r r' e in
    record {
      follows = apply-Follows (checkpoints kind outcome digest now) r r' e;
      state = same;
      recorded = there;
    }
apply-Leads (acquires owner now expires_at) r r' e =
    let k : validated (lease_of (some owner) (some expires_at) now r) ≡ ok r' = ground arith in
    record {
      follows = apply-Follows (acquires owner now expires_at) r r' e;
      state = validated-state (lease_of (some owner) (some expires_at) now r) k;
      recorded = tt;
    }
apply-Leads (releases owner now) r r' e =
    let k : validated (lease_of none none now r) ≡ ok r' = ground arith in
    record {
      follows = apply-Follows (releases owner now) r r' e;
      state = validated-state (lease_of none none now r) k;
      recorded = tt;
    }
apply-Leads (registers readiness now) r r' e =
    let k : register_once r.worker_readiness r readiness now ≡ ok r' = ground arith in
    record {
      follows = apply-Follows (registers readiness now) r r' e;
      state = registered-state r.worker_readiness readiness now r r' k;
      recorded = tt;
    }
