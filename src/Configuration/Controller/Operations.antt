-- ===== src/Configuration/Controller/Operations.antt =====
-- The controller's operations on a stored activation (runtime/configuration_activation.py) keep what holds of
-- every stored one.
use text.Mathlib.Text.{◌==◌ as str_eq}
use justflow.Common.{
  ◌≡◌, refl, inl, inr, ◌⊎◌, sym, ◌∙◌, Bool-cases, ◌≢◌, ℕ, ◌+◌, String, Bool, true, false, ◌||◌,
  Option, none, some, ◌==◌, if◌then◌else◌, leb,
}
use mathlib.Core.Path.{subst}
use justflow.Common.Dict.{Dict, lookup, insert, lookup-insert}
use justflow.Configuration.Results.{
  ◌>>◌ as ◌then◌, ◌>>=◌ as ◌bind◌, Ensures, guard, OutcomeCode, conflict, integrity, Result, ok,
  limit,
}
use justflow.Configuration.Records.{
  ActivationState, CheckpointKind, WorkerReadiness, ActivationRecord, same_state, is_valid, pending,
  running, waiting_for_readiness, applied, failed,
}
use justflow.Configuration.Activation.{
  apply, Change, transitions, checkpoints, registers, acquires, releases, transition_activation,
  record_activation_checkpoint, register_worker_readiness, release_activation_lease,
  acquire_activation_lease,
}
use justflow.Configuration.Store.{
  is_current, max_activation_record_bytes, read_row, decoded, row_of, read_activation,
  update_activation, ActivationRow,
}
use justflow.Configuration.Control.{
  ControlState, lift, ◌>>=◌, ExternalConfirmation, ControlEnvironment,
}
use justflow.Configuration.Controller.{
  committed, as_held, is_final, read_record, update, update_if_changed, transition_record,
  checkpoint, register, acquire, give_back, release_held, start_or_resume, waiting, end_activation,
}
use justflow.Configuration.Activation.Outcomes.{state_after, Leads, apply-Leads}
use justflow.Configuration.Controller.Keeping.{
  Done, IsComplete, IsSound, IsSafe, Holds, Keeps, pure-Keeps, lift-Keeps, Keeps->>=, if-Keeps,
  Keeps-map, Any, Relies,
}
use justflow.Configuration.Controller.Extending.{
  Extends, Extends-refl, Follows-Extends, unchanged, AllSound, some-inj, same_state-eq, as_held-eq,
  equal-Ensures, guarded-Ensures, bound-Ensures, commit-Holds,
}

module _ {W : Type 0} (env : ControlEnvironment W) (rely : Relies env) where
  read_row-IsSound :
      (id : String) (o : Option ActivationRow)
      → ((row : ActivationRow) → o ≡ some row → IsSound row.payload)
      → Ensures IsSound (read_row env.scope_digest env.record_size o id)
  unfolding read_row decoded
  read_row-IsSound id none h = tt
  read_row-IsSound id (some row) h =
      let p = row.payload in
      let sized = guard (leb (env.record_size p) max_activation_record_bytes) limit then ok p in
      let scoped = guard (str_eq p.scope_digest env.scope_digest) integrity then sized in
      bound-Ensures IsSound IsSound (guard (is_valid p) integrity then scoped)
        (λ r. guard (str_eq r.activation_id id) integrity then ok r)
        (guarded-Ensures IsSound _ integrity scoped (
          guarded-Ensures IsSound _ integrity sized
            (guarded-Ensures IsSound _ limit (ok p) (h row refl))))
        λ r k. guarded-Ensures IsSound _ integrity (ok r) k

  pub read_record-Keeps : (id : String) → Keeps IsSound (read_record env id)
  unfolding read_record read_activation
  read_record-Keeps id =
      Keeps->>= rely.turn
        λ u p. record { run = λ s h. (h, read_row-IsSound id (lookup id s.rows) (h id)) }

  pub inserted-IsSafe :
      (r : ActivationRecord) (rows : Dict ActivationRow)
      → ((id : String) (row : ActivationRow) → lookup id rows ≡ some row → IsSound row.payload)
      → IsSound r
      → (id : String) (row : ActivationRow)
      → lookup id (insert r.activation_id (row_of r) rows) ≡ some row
      → IsSound row.payload
  inserted-IsSafe r rows h sound id row e = elim (Bool-cases (str_eq r.activation_id id)) [
    | inl own ↦
        let k : some (row_of r) ≡ some row = sym (lookup-insert _ _ _ rows ∙ rw own refl) ∙ e in
        subst (λ q. IsSound (ActivationRow.payload q)) (some-inj k) sound
    | inr other ↦
        h id row (sym (lookup-insert r.activation_id id (row_of r) rows ∙ rw other refl) ∙ e)
  ]

  update-committed :
      (r : ActivationRecord) (n : ℕ) (s : ControlState W)
      → IsSafe s
      → IsSound r
      → Holds
          (λ q. q ≡ r)
          (committed s (update_activation env.scope_digest env.record_size r n s.rows))
  unfolding update_activation
  update-committed r n s h sound =
      let P : Dict ActivationRow × ActivationRecord → Type 0 = λ o. AllSound o.0 × (o.1 ≡ r) in
      let rows' = insert r.activation_id (row_of r) s.rows in
      let stored =
        guard (is_current (lookup r.activation_id s.rows) n) conflict then ok (rows', r) in
      let sized = guard (leb (env.record_size r) max_activation_record_bytes) limit then ok r in
      let rest = sized bind λ _. stored in
      let next = guard (r.version == n + 1) integrity then rest in
      commit-Holds (λ q. q ≡ r) s _ h
        (guarded-Ensures P _ integrity next (
          guarded-Ensures P _ integrity rest (
            bound-Ensures Any P sized (λ _. stored) (guarded-Ensures Any _ limit (ok r) tt)
              λ a k.
                guarded-Ensures P _ conflict (ok (rows', r))
                  (inserted-IsSafe r s.rows h sound, refl))))

  pub update-Keeps :
      (r : ActivationRecord) (n : ℕ) → IsSound r → Keeps (λ q. q ≡ r) (update env r n)
  unfolding update
  update-Keeps r n sound =
      Keeps->>= rely.turn λ u p. record { run = λ s h. update-committed r n s h sound }

  -- an operation and the update of its row
  changed-Keeps :
      (c : Change) (r : ActivationRecord) (m : Result ActivationRecord)
      → ((r' : ActivationRecord) → m ≡ ok r' → Leads c r r')
      → (state_after c r ≡ applied → IsComplete r)
      → Keeps (λ r'. Extends r r' × Leads c r r') (lift m >>= λ u. update env u r.version)
  unfolding update update_activation
  changed-Keeps c r m l h = Keeps->>= (lift-Keeps m (equal-Ensures (Leads c r) m l)) λ u k.
      let extends = Follows-Extends r u k.follows λ a. h (sym k.state ∙ a) in
      Keeps-map (λ q e. subst (λ q. Extends r q × Leads c r q) (sym e) (extends, k))
        (update-Keeps u r.version extends.sound)

  -- the same, where a record that has not changed is not written
  renewed-Keeps :
      (c : Change) (r : ActivationRecord) (m : Result ActivationRecord)
      → ((r' : ActivationRecord) → m ≡ ok r' → Leads c r r')
      → (state_after c r ≡ applied → IsComplete r)
      → Keeps (λ r'. Extends r r' × Leads c r r') (lift m >>= λ u. update_if_changed env u r)
  unfolding update update_activation
  renewed-Keeps c r m l h = Keeps->>= (lift-Keeps m (equal-Ensures (Leads c r) m l)) λ u k.
      let extends = Follows-Extends r u k.follows λ a. h (sym k.state ∙ a) in
      if-Keeps (u.version == r.version)
        (λ e.
          pure-Keeps r
            (subst (λ q. Extends r q × Leads c r q) (unchanged r u k.follows e) (extends, k)))
        λ e.
          Keeps-map (λ q e. subst (λ q. Extends r q × Leads c r q) (sym e) (extends, k))
            (update-Keeps u r.version extends.sound)

  -- A transition to `applied` needs the checkpoints of the plan.
  pub transition-Keeps :
      (r : ActivationRecord) (state : ActivationState) (outcome : Option OutcomeCode)
      (release_lease : Bool)
      → (state ≡ applied → IsComplete r)
      → Keeps
          (λ r'. Extends r r' × (r'.state ≡ state))
          (transition_record env r state outcome release_lease)
  unfolding update update_activation transition_activation apply
  transition-Keeps r state outcome release_lease h = Keeps->>= rely.now λ now p.
      let c = transitions state now outcome release_lease in
      Keeps-map (λ q k. (k.0, k.1.state))
        (changed-Keeps c r (transition_activation r state now outcome release_lease)
          (λ r' e. apply-Leads c r r' e) h)

  pub checkpoint-Keeps :
      (r : ActivationRecord) (kind : CheckpointKind) (confirmation : ExternalConfirmation)
      → IsSound r
      → Keeps (λ r'. Extends r r' × Done kind r') (checkpoint env r kind confirmation)
  unfolding update update_activation record_activation_checkpoint apply
  checkpoint-Keeps r kind confirmation sound = Keeps->>= rely.now λ now p.
      let c = checkpoints kind confirmation.outcome confirmation.observation_digest now in
      Keeps-map (λ q k. (k.0, k.1.recorded))
        (renewed-Keeps c r
          (record_activation_checkpoint r kind confirmation.outcome confirmation.observation_digest
            now)
          (λ r' e. apply-Leads c r r' e) sound)

  pub register-Keeps :
      (r : ActivationRecord) (readiness : WorkerReadiness)
      → IsSound r
      → Keeps (Extends r) (register env r readiness)
  unfolding update update_activation register_worker_readiness apply
  register-Keeps r readiness sound = Keeps->>= rely.now λ now p.
      let c = registers readiness now in
      Keeps-map (λ q k. k.0)
        (renewed-Keeps c r (register_worker_readiness r readiness now)
          (λ r' e. apply-Leads c r r' e) sound)

  pub acquire-Keeps : (r : ActivationRecord) → IsSound r → Keeps (Extends r) (acquire env r)
  unfolding update update_activation acquire_activation_lease apply
  acquire-Keeps r sound = Keeps->>= rely.now λ now p.
      let c = acquires env.controller_digest now (now + env.lease_duration) in
      let m = acquire_activation_lease r env.controller_digest now (now + env.lease_duration) in
      Keeps-map (λ q k. k.0)
        (changed-Keeps c r (as_held m) (λ r' e. apply-Leads c r r' (as_held-eq m e)) sound)

  released-Keeps :
      (owner : Option String) (r : ActivationRecord)
      → IsSound r
      → Keeps (λ r'. Extends r r' × (r'.state ≡ r.state)) (release_held env owner r)
  unfolding update update_activation release_activation_lease apply
  released-Keeps none r sound = pure-Keeps r (Extends-refl r sound, refl)
  released-Keeps (some owner) r sound = Keeps->>= rely.now λ now p.
      let c = releases env.controller_digest now in
      Keeps-map (λ q k. (k.0, k.1.state))
        (changed-Keeps c r (release_activation_lease r env.controller_digest now)
          (λ r' e. apply-Leads c r r' e) sound)

  pub release-Keeps :
      (r : ActivationRecord)
      → IsSound r
      → Keeps (λ r'. Extends r r' × (r'.state ≡ r.state)) (give_back env r)
  unfolding update update_activation release_activation_lease
  release-Keeps r sound = released-Keeps r.lease_owner_digest r sound

  pub start_or_resume-Keeps :
      (r : ActivationRecord) → IsSound r → Keeps (Extends r) (start_or_resume env r)
  unfolding update update_activation transition_activation
  start_or_resume-Keeps r sound =
      if-Keeps (same_state r.state pending || same_state r.state failed)
        (λ e. Keeps-map (λ q k. k.0) (transition-Keeps r running none false λ x. cc))
        λ e. pure-Keeps r (Extends-refl r sound)

  pub waiting-Keeps :
      (r : ActivationRecord)
      → IsSound r
      → Keeps (λ r'. Extends r r' × (r'.state ≡ waiting_for_readiness)) (waiting env r)
  unfolding update update_activation transition_activation release_activation_lease
  waiting-Keeps r sound =
      if-Keeps (same_state r.state waiting_for_readiness)
        (λ e.
          Keeps-map (λ q k. (k.0, k.1 ∙ same_state-eq r.state waiting_for_readiness e))
            (release-Keeps r sound))
        λ e. transition-Keeps r waiting_for_readiness none true λ x. cc

  -- An ended activation is returned as it is, and another one in the state that was asked for.
  pub end_activation-Keeps :
      (id : String) (state : ActivationState) (code : OutcomeCode)
      → state ≢ applied
      → Keeps
          (λ r. IsSound r × ((is_final r.state ≡ true) ⊎ (r.state ≡ state)))
          (end_activation env id state code)
  unfolding read_record update update_activation transition_activation
  end_activation-Keeps id state code other = Keeps->>= (read_record-Keeps id) λ r sound.
      if-Keeps (is_final r.state) (λ e. pure-Keeps r (sound, inl e))
        λ e.
          Keeps-map (λ q k. (k.0.sound, inr k.1))
            (transition-Keeps r state (some code) true λ x. absurd (other x))
