-- ===== src/Configuration/Controller/Pointer.antt =====
-- The active pointer of configuration/sqlite.py, moved by a controller of runtime/configuration_activation.py
-- that stops before it has recorded that.
use justflow.Common.{◌≡◌, refl, sym, ap, ◌∙◌, arith, ℕ, String, true, Option, none, some}
use justflow.Configuration.Results.{ControlError, Result, ok, err}
use justflow.Configuration.Records.{ActivationPlan, is_present}
use justflow.Configuration.Store.{
  same_revision, revision_of, is_version, ConfigurationStore, ActivePointer,
  compare_and_swap_active, next_version,
}
use justflow.Configuration.Control.{
  ControlState, pure, ◌>>=◌, ExternalConfirmation, after, ControlEnvironment,
}
use justflow.Configuration.Controller.{moved}
use justflow.Configuration.Controller.Steps.{confirmed_by, idempotent_by}
use justflow.Configuration.Controller.Routing.{
  planned_version, read_active, swap_pointer, move_pointer, is_advanced,
}
use text.Mathlib.TextEquality.{eq_iff}

abbrev ExpectsAlike : ActivationPlan → Type 0
ExpectsAlike plan =
    is_present plan.expected_active_revision_id ≡ is_present plan.expected_active_pointer_version

pub record Swapped (plan : ActivationPlan) (c c' : ConfigurationStore) (pointer : ActivePointer)
    : Type 0 where
  pub after : c' ≡ record c { active = some pointer }
  pub target : pointer.revision_id ≡ plan.target_revision_id
  pub advanced : is_advanced (some pointer) plan ≡ true

planned-next :
    (o : Option ActivePointer) (revision : Option String) (version : Option ℕ)
    → same_revision (revision_of o) revision ≡ true
    → is_version o version ≡ true
    → is_present revision ≡ is_present version
    → next_version o ≡ planned_version version
planned-next none none none r v e = refl
planned-next none none (some n) r v e = cc
planned-next none (some revision) version r v e = cc
planned-next (some p) none version r v e = cc
planned-next (some p) (some revision) none r v e = cc
planned-next (some p) (some revision) (some n) r v e = ground arith

advanced :
    (pointer : ActivePointer) (plan : ActivationPlan)
    → pointer.revision_id ≡ plan.target_revision_id
    → pointer.version ≡ planned_version plan.expected_active_pointer_version
    → is_advanced (some pointer) plan ≡ true
advanced pointer plan t v = ground (arith, eq_iff pointer.revision_id plan.target_revision_id)

pub swapped :
    (plan : ActivationPlan) (c c' : ConfigurationStore) (pointer : ActivePointer)
    → ExpectsAlike plan
    → compare_and_swap_active plan.target_revision_id plan.expected_active_revision_id
        plan.expected_active_pointer_version c
      ≡ ok (c', pointer)
    → Swapped plan c c' pointer
unfolding compare_and_swap_active
swapped plan c c' pointer alike e =
    let same : same_revision (revision_of c.active) plan.expected_active_revision_id ≡ true =
      ground arith in
    let version : is_version c.active plan.expected_active_pointer_version ≡ true = ground arith in
    let moved_version : pointer.version ≡ next_version c.active = ground arith in
    let target : pointer.revision_id ≡ plan.target_revision_id = ground arith in
    let now : record c { active = some pointer } ≡ c' = ground arith in
    record {
      after = sym now;
      target = target;
      advanced = advanced pointer plan target (
          moved_version
          ∙ planned-next c.active plan.expected_active_revision_id
              plan.expected_active_pointer_version same version alike);
    }

err≢ok : {A : Type 0} {e : ControlError} {a : A} → err e ≡ ok a → ⊥
err≢ok e = cc

abbrev second : {A B : Type 0} → A × B → B
second (a, b) = b

moved-inv :
    {W : Type 0} (s s' : ControlState W) (m : Result (ConfigurationStore × ActivePointer))
    (f : ActivePointer → ExternalConfirmation) {confirmation : ExternalConfirmation}
    → after (moved s m) (λ p. pure (f p)) ≡ (s', ok confirmation)
    → (c : ConfigurationStore) × (p : ActivePointer) × (m ≡ ok (c, p)) × (s'.configuration ≡ c)
moved-inv s s' (err e) f h = absurd (err≢ok (ap second h))
moved-inv s s' (ok (c, p)) f h = (
  c,
  p,
  refl,
  sym (ap (λ (o : ControlState _ × Result ExternalConfirmation). o.0.configuration) h),
)

swap-inv :
    {W : Type 0} (o : ControlState W × Result (Unit {0})) (s' : ControlState W)
    (m : ConfigurationStore → Result (ConfigurationStore × ActivePointer))
    (f : ActivePointer → ExternalConfirmation) {confirmation : ExternalConfirmation}
    → after (after o (λ u s. moved s (m s.configuration))) (λ p. pure (f p)) ≡ (s', ok confirmation)
    → (c : ConfigurationStore) × (c' : ConfigurationStore) × (p : ActivePointer) × (m c
        ≡ ok (c', p))
      × (s'.configuration ≡ c')
swap-inv (s, ok u) s' m f h =
    let (c', p, e, k) = moved-inv s s' (m s.configuration) f h in (s.configuration, c', p, e, k)
swap-inv (s, err e) s' m f h = absurd (err≢ok (ap second h))

module _ {W : Type 0} (env : ControlEnvironment W) where
  -- The pointer's step again, by the controller that goes on after one has stopped between moving the
  -- pointer and recording its checkpoint: if nobody has moved the pointer since, the step finds it as the plan
  -- wants it, changes nothing and raises no conflict, so the pointer moves once.
  pub move_pointer-swap_pointer :
      (plan : ActivationPlan) (s s' : ControlState W) (confirmation : ExternalConfirmation)
      → is_present plan.expected_active_revision_id
        ≡ is_present plan.expected_active_pointer_version
      → swap_pointer env plan s ≡ (s', ok confirmation)
      → env.turn s' ≡ (s', ok tt)
      → (pointer : ActivePointer) × (s'.configuration.active ≡ some pointer)
        × (pointer.revision_id ≡ plan.target_revision_id)
        × ((read_active env >>= move_pointer env plan) s'
            ≡ (s', ok (idempotent_by (env.pointer_digest pointer))))
  unfolding move_pointer swap_pointer
  move_pointer-swap_pointer plan s s' confirmation alike e quiet =
      let (c, c', pointer, swap, now) =
        swap-inv (env.turn s) s'
          (compare_and_swap_active plan.target_revision_id plan.expected_active_revision_id
            plan.expected_active_pointer_version)
          (λ p. confirmed_by (env.pointer_digest p)) e in
      let w = swapped plan c c' pointer alike swap in
      let active : s'.configuration.active ≡ some pointer =
        ap ConfigurationStore.active (now ∙ w.after) in
      (pointer, active, w.target, rw (quiet, active, w.advanced) refl)
