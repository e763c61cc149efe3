-- ===== src/Configuration/Activation/Lookup.antt =====
-- Checkpoints of configuration/activation_store.py that are recorded and looked up.
use mathlib.Core.Path.{subst}
use text.Mathlib.Text.{◌==◌ as str_eq}
use text.Mathlib.TextEquality.{eq_iff}
use justflow.Common.{
  ℕ, ◌+◌, ◌≡◌, refl, String, true, false, ◌&&◌, List, [], ◌∷◌, ◌++◌, arith, length, none, some,
  Bool-cases, Option-cases, inl, inr, if◌then◌else◌, ap, sym, ◌∙◌,
}
use justflow.Configuration.Results.{ok-inj, ok, err, value_error}
use justflow.Configuration.Records.{
  CheckpointKind, ExternalOutcome, ActivationCheckpoint, ActivationRecord, same_kind, validated,
}
use justflow.Configuration.Activation.{
  find_checkpoint, record_activation_checkpoint, same_outcome, checkpointed,
}
use justflow.Configuration.Activation.Following.{validated-eq}

-- What a lookup finds once a checkpoint has been recorded.
pub record Recorded (kind : CheckpointKind) (outcome : ExternalOutcome) (digest : String)
    (r r' : ActivationRecord) : Type 0 where
  pub found : ActivationCheckpoint
  pub lookup : find_checkpoint kind r'.checkpoints ≡ some found
  pub outcome_found : found.outcome ≡ outcome
  pub digest_found : found.observation_digest ≡ digest
  pub others :
      (k : CheckpointKind)
      → find_checkpoint k r'.checkpoints
        ≡ (if same_kind kind k then some found else find_checkpoint k r.checkpoints)
  pub again : (later : ℕ) → record_activation_checkpoint r' kind outcome digest later ≡ ok r'

same_outcome-eq : (a b : ExternalOutcome) → same_outcome a b ≡ true → a ≡ b
same_outcome-eq a b h = ground arith

same_outcome_refl : (a : ExternalOutcome) → same_outcome a a ≡ true
same_outcome_refl a = ground arith

same_kind-eq : (a b : CheckpointKind) → same_kind a b ≡ true → a ≡ b
same_kind-eq a b h = ground arith

same_kind_refl : (a : CheckpointKind) → same_kind a a ≡ true
same_kind_refl a = ground arith

find-append-new :
    (k : CheckpointKind) (cs : List ActivationCheckpoint) (c : ActivationCheckpoint)
    → find_checkpoint k cs ≡ none
    → find_checkpoint k (cs ++ c ∷ []) ≡ (if same_kind c.kind k then some c else none)
unfolding find_checkpoint
find-append-new k [] c h = refl
find-append-new k (d ∷ cs) c h = ground (arith, find-append-new k cs c)

find-append-other :
    (k : CheckpointKind) (cs : List ActivationCheckpoint) (c : ActivationCheckpoint)
    → same_kind c.kind k ≡ false
    → find_checkpoint k (cs ++ c ∷ []) ≡ find_checkpoint k cs
unfolding find_checkpoint
find-append-other k [] c h = rw h refl
find-append-other k (d ∷ cs) c h = ground (arith, find-append-other k cs c)

known-others :
    (k kind : CheckpointKind) (cs : List ActivationCheckpoint) (c : ActivationCheckpoint)
    → find_checkpoint kind cs ≡ some c
    → find_checkpoint k cs ≡ (if same_kind kind k then some c else find_checkpoint k cs)
known-others k kind cs c e = elim (Bool-cases (same_kind kind k)) [
  | inl own ↦ ap (λ j. find_checkpoint j cs) (sym (same_kind-eq kind k own)) ∙ e ∙ rw own refl
  | inr other ↦ rw other refl
]

-- a checkpoint that is there, recorded again
again :
    (r : ActivationRecord) (kind : CheckpointKind) (outcome : ExternalOutcome) (digest : String)
    (c : ActivationCheckpoint) (later : ℕ)
    → find_checkpoint kind r.checkpoints ≡ some c
    → (same_outcome c.outcome outcome && str_eq c.observation_digest digest) ≡ true
    → record_activation_checkpoint r kind outcome digest later ≡ ok r
unfolding record_activation_checkpoint
again r kind outcome digest c later e same = rw (e, same, record_activation_checkpoint) refl

err≢ok : {A : Type 0} {a : A} → err value_error ≡ ok a → ⊥
err≢ok e = cc

Recorded-known :
    (r : ActivationRecord) (kind : CheckpointKind) (outcome : ExternalOutcome) (digest : String)
    (c : ActivationCheckpoint)
    → find_checkpoint kind r.checkpoints ≡ some c
    → (same_outcome c.outcome outcome && str_eq c.observation_digest digest) ≡ true
    → Recorded kind outcome digest r r
Recorded-known r kind outcome digest c e same = record {
  found = c;
  lookup = e;
  outcome_found = same_outcome-eq c.outcome outcome (ground arith);
  digest_found = ground (arith, eq_iff c.observation_digest digest);
  others = λ k. known-others k kind r.checkpoints c e;
  again = λ later. again r kind outcome digest c later e same;
}

Recorded-new :
    (r : ActivationRecord) (kind : CheckpointKind) (outcome : ExternalOutcome) (digest : String)
    (now : ℕ)
    → find_checkpoint kind r.checkpoints ≡ none
    → Recorded kind outcome digest r (checkpointed r kind outcome digest now)
Recorded-new r kind outcome digest now new =
    let c : ActivationCheckpoint = record {
      sequence = length r.checkpoints + 1;
      kind = kind;
      outcome = outcome;
      occurred_at = now;
      observation_digest = digest;
    } in
    let found : find_checkpoint kind (r.checkpoints ++ c ∷ []) ≡ some c =
      find-append-new kind r.checkpoints c new ∙ rw (same_kind_refl kind) refl in
    record {
      found = c;
      lookup = found;
      outcome_found = refl;
      digest_found = refl;
      others = λ k. elim (Bool-cases (same_kind kind k)) [
        | inl own ↦
            ap (λ j. find_checkpoint j (r.checkpoints ++ c ∷ [])) (sym (same_kind-eq kind k own))
            ∙ found
            ∙ rw own refl
        | inr other ↦ find-append-other k r.checkpoints c other ∙ rw other refl
      ];
      again = λ later.
          again (checkpointed r kind outcome digest now) kind outcome digest c later found
            (ground (arith, same_outcome_refl outcome, eq_iff digest digest));
    }

-- A checkpoint that has been recorded is found, with its outcome and its digest; the checkpoints of the other
-- kinds are found as before, and recording it again, at any time, leaves the record as it is.
pub find-record_activation_checkpoint :
    (r r' : ActivationRecord) (kind : CheckpointKind) (outcome : ExternalOutcome) (digest : String)
    (now : ℕ)
    → record_activation_checkpoint r kind outcome digest now ≡ ok r'
    → Recorded kind outcome digest r r'
unfolding record_activation_checkpoint
find-record_activation_checkpoint r r' kind outcome digest now e =
    elim (Option-cases (find_checkpoint kind r.checkpoints)) [
      | inl new ↦
          let k : validated (checkpointed r kind outcome digest now) ≡ ok r' =
            sym (rw (new, record_activation_checkpoint) refl) ∙ e in
          subst (Recorded kind outcome digest r)
            (validated-eq (checkpointed r kind outcome digest now) k)
            (Recorded-new r kind outcome digest now new)
      | inr (c, known) ↦
          elim (Bool-cases (same_outcome c.outcome outcome && str_eq c.observation_digest digest)) [
            | inl same ↦
                let k : ok r ≡ ok r' = sym (again r kind outcome digest c now known same) ∙ e in
                subst (Recorded kind outcome digest r) (ok-inj k)
                  (Recorded-known r kind outcome digest c known same)
            | inr other ↦
                let k : err value_error ≡ ok r' =
                  sym (rw (known, other, record_activation_checkpoint) refl) ∙ e in
                absurd (err≢ok k)
          ]
    ]
