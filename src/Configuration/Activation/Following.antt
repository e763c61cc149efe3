-- ===== src/Configuration/Activation/Following.antt =====
-- How an operation of configuration/activation_store.py changes a record.
use mathlib.Core.Path.{subst}
use text.Mathlib.Text.{◌==◌ as str_eq}
use justflow.Common.{
  ℕ, suc, ◌+◌, ◌≡◌, refl, String, Bool, true, false, ◌&&◌, [], ◌∷◌, ◌++◌, arith, Option, none, some,
  Bool-cases, Option-cases, inl, inr, ◌⊎◌, if◌then◌else◌, sym, ◌∙◌,
}
use justflow.Configuration.Results.{ok-inj, OutcomeCode, value_error, ok, err}
use justflow.Configuration.Records.{
  ActivationState, CheckpointKind, ExternalOutcome, ActivationTransition, ActivationCheckpoint,
  WorkerReadiness, ActivationRecord, is_valid, validated,
}
use justflow.Configuration.Activation.{
  allows, transitioned, transition_activation, find_checkpoint, same_outcome, checkpointed,
  record_activation_checkpoint, acquire_activation_lease, release_activation_lease, registered,
  register_once, register_worker_readiness, Change, apply, transitions, checkpoints, acquires,
  releases, registers,
}

-- The transitions of a record, with its state, before and after.
abbrev pub Moves : ActivationRecord → ActivationRecord → Type 0
Moves r r' =
    ((r'.state ≡ r.state) × (r'.transitions ≡ r.transitions))
    ⊎ ((t : ActivationTransition) × (r'.transitions ≡ r.transitions ++ t ∷ [])
        × (t.from_state ≡ r.state)
        × (t.to_state ≡ r'.state)
        × (allows r.state r'.state ≡ true))

abbrev pub Adds : ActivationRecord → ActivationRecord → Type 0
Adds r r' =
    (r'.checkpoints ≡ r.checkpoints)
    ⊎ ((c : ActivationCheckpoint) × (r'.checkpoints ≡ r.checkpoints ++ c ∷ []))

pub record Follows (r r' : ActivationRecord) : Type 0 where
  pub identity : r'.activation_id ≡ r.activation_id
  pub plan : r'.plan ≡ r.plan
  pub creation : r'.created_at ≡ r.created_at
  pub moves : Moves r r'
  pub adds : Adds r r'
  pub readiness : (r.worker_readiness ≡ none) ⊎ (r'.worker_readiness ≡ r.worker_readiness)
  pub version : (r' ≡ r) ⊎ (r'.version ≡ suc r.version)

pub Follows-refl : (r : ActivationRecord) → Follows r r
Follows-refl r = record {
  identity = refl;
  plan = refl;
  creation = refl;
  moves = inl (refl, refl);
  adds = inl refl;
  readiness = inr refl;
  version = inl refl;
}

pub validated-eq : (r : ActivationRecord) {r' : ActivationRecord} → validated r ≡ ok r' → r ≡ r'
validated-eq r {r'} e = elim (Bool-cases (is_valid r)) [
  | inl v ↦ ok-inj (sym (rw v refl) ∙ e)
  | inr v ↦ cc
]

pub kept-eq :
    (b : Bool) {r r' : ActivationRecord} → (if b then ok r else err value_error) ≡ ok r' → r ≡ r'
kept-eq true e = ok-inj e
kept-eq false e = cc

abbrev pub lease_of : Option String → Option ℕ → ℕ → ActivationRecord → ActivationRecord
lease_of owner expires now r = record r {
  lease_owner_digest = owner;
  lease_expires_at = expires;
  version = r.version + 1;
  updated_at = now;
}

leased-Follows :
    (owner : Option String) (expires : Option ℕ) (now : ℕ) (r : ActivationRecord)
    → Follows r (lease_of owner expires now r)
leased-Follows owner expires now r = record {
  identity = refl;
  plan = refl;
  creation = refl;
  moves = inl (refl, refl);
  adds = inl refl;
  readiness = inr refl;
  version = inr (omega arith);
}

transitioned-Follows :
    (to : ActivationState) (now : ℕ) (outcome : Option OutcomeCode) (release : Bool)
    (r : ActivationRecord)
    → allows r.state to ≡ true
    → Follows r (transitioned r to now outcome release)
transitioned-Follows to now outcome release r allowed = record {
  identity = refl;
  plan = refl;
  creation = refl;
  moves = inr (_, refl, refl, refl, allowed);
  adds = inl refl;
  readiness = inr refl;
  version = inr (omega arith);
}

checkpointed-Follows :
    (kind : CheckpointKind) (outcome : ExternalOutcome) (digest : String) (now : ℕ)
    (r r' : ActivationRecord)
    → record_activation_checkpoint r kind outcome digest now ≡ ok r'
    → Follows r r'
unfolding record_activation_checkpoint
checkpointed-Follows kind outcome digest now r r' e =
    elim (Option-cases (find_checkpoint kind r.checkpoints)) [
      | inl new ↦
          let k : validated (checkpointed r kind outcome digest now) ≡ ok r' =
            sym (rw (new, record_activation_checkpoint) refl) ∙ e in
          subst (Follows r) {x = checkpointed r kind outcome digest now} (validated-eq _ k)
            (record {
              identity = refl;
              plan = refl;
              creation = refl;
              moves = inl (refl, refl);
              adds = inr (_, refl);
              readiness = inr refl;
              version = inr (omega arith);
            })
      | inr (c, known) ↦
          let k : (if same_outcome c.outcome outcome && str_eq c.observation_digest digest
                then ok r
                else err value_error)
              ≡ ok r' =
            sym (rw (known, record_activation_checkpoint) refl) ∙ e in
          subst (Follows r) (kept-eq _ k) (Follows-refl r)
    ]

registered-Follows :
    (known : Option WorkerReadiness) (readiness : WorkerReadiness) (now : ℕ)
    (r r' : ActivationRecord)
    → r.worker_readiness ≡ known
    → register_once known r readiness now ≡ ok r'
    → Follows r r'
unfolding register_once
registered-Follows none readiness now r r' k e =
    subst (Follows r) {x = registered r readiness now} (validated-eq _ e) (record {
      identity = refl;
      plan = refl;
      creation = refl;
      moves = inl (refl, refl);
      adds = inl refl;
      readiness = inl k;
      version = inr (omega arith);
    })
registered-Follows (some known) readiness now r r' k e =
    subst (Follows r) (kept-eq _ e) (Follows-refl r)

-- An operation that gives a record gives one that follows the record it was given.
pub apply-Follows : (c : Change) (r r' : ActivationRecord) → apply c r ≡ ok r' → Follows r r'
unfolding apply transition_activation acquire_activation_lease release_activation_lease
    register_worker_readiness
apply-Follows (transitions to now outcome release) r r' e =
    let allowed : allows r.state to ≡ true = ground arith in
    let k : validated (transitioned r to now outcome release) ≡ ok r' = ground arith in
    subst (Follows r) (validated-eq _ k) (transitioned-Follows to now outcome release r allowed)
apply-Follows (checkpoints kind outcome digest now) r r' e =
    checkpointed-Follows kind outcome digest now r r' e
apply-Follows (acquires owner now expires_at) r r' e =
    let k : validated (lease_of (some owner) (some expires_at) now r) ≡ ok r' = ground arith in
    subst (Follows r) (validated-eq _ k) (leased-Follows (some owner) (some expires_at) now r)
apply-Follows (releases owner now) r r' e =
    let k : validated (lease_of none none now r) ≡ ok r' = ground arith in
    subst (Follows r) (validated-eq _ k) (leased-Follows none none now r)
apply-Follows (registers readiness now) r r' e =
    let k : register_once r.worker_readiness r readiness now ≡ ok r' = ground arith in
    registered-Follows r.worker_readiness readiness now r r' refl k
