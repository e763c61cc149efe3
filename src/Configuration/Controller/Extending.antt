-- ===== src/Configuration/Controller/Extending.antt =====
-- What an operation of configuration/activation_store.py leaves of a record, and what a transaction leaves of
-- the stored ones.
use justflow.Common.{
  ◌≡◌, refl, inl, inr, sym, ap, ◌∙◌, arith, String, Bool, true, false, ◌||◌, some, ◌==◌,
  if◌then◌else◌,
}
use justflow.Common.Dict.{Dict, lookup}
use justflow.Configuration.Results.{
  ◌>>◌ as ◌then◌, ◌>>=◌ as ◌bind◌, Ensures, guard, ControlError, Result, ok, err,
}
use justflow.Configuration.Records.{
  ActivationState, CheckpointKind, ActivationPlan, ActivationRecord, same_state, same_kind,
  has_checkpoint, applied, definitions, worker_readiness, schedules, catalog_routing,
  worker_routing, active_pointer, runtime_index,
}
use justflow.Configuration.Store.{ActivationRow}
use justflow.Configuration.Control.{ControlState}
use justflow.Configuration.Controller.{committed, as_held}
use justflow.Configuration.Activation.Following.{Follows, Adds}
use justflow.Configuration.Records.Appending.{has_checkpoint-append}
use justflow.Configuration.Controller.Keeping.{Done, IsComplete, IsSound, IsSafe, Holds}

-- What an operation leaves of a record: the plan and the checkpoints, and that it is sound.
pub record Extends (r r' : ActivationRecord) : Type 0 where
  pub sound : IsSound r'
  pub plan : r'.plan ≡ r.plan
  pub grows : (k : CheckpointKind) → Done k r → Done k r'

pub Extends-refl : (r : ActivationRecord) → IsSound r → Extends r r
Extends-refl r h = record { sound = h; plan = refl; grows = λ k d. d }

pub Extends-trans : {q r t : ActivationRecord} → Extends q r → Extends r t → Extends q t
Extends-trans e f = record {
  sound = f.sound;
  plan = f.plan ∙ e.plan;
  grows = λ k d. f.grows k (e.grows k d);
}

pub or-left : (b c : Bool) → b ≡ true → (b || c) ≡ true
or-left true c h = refl
or-left false c h = cc

pub adds-Done : (k : CheckpointKind) (r r' : ActivationRecord) → Adds r r' → Done k r → Done k r'
unfolding has_checkpoint
adds-Done k r r' (inl e) d = ap (has_checkpoint k) e ∙ d
adds-Done k r r' (inr (c, e)) d =
    ap (has_checkpoint k) e
    ∙ has_checkpoint-append k r.checkpoints c
    ∙ or-left (has_checkpoint k r.checkpoints) (same_kind c.kind k) d

pub IsComplete-grows :
    (r r' : ActivationRecord)
    → r'.plan ≡ r.plan
    → ((k : CheckpointKind) → Done k r → Done k r')
    → IsComplete r
    → IsComplete r'
IsComplete-grows r r' p g c = record {
  stored = g definitions c.stored;
  ready = g worker_readiness c.ready;
  reconciled = λ h. g schedules (c.reconciled (sym (ap ActivationPlan.reconciles p) ∙ h));
  published = λ h. g catalog_routing (c.published (sym (ap ActivationPlan.publishes p) ∙ h));
  switched = λ h. g worker_routing (c.switched (sym (ap ActivationPlan.switches p) ∙ h));
  pointed = g active_pointer c.pointed;
  indexed = g runtime_index c.indexed;
}

-- what follows a record, if it is complete where it is applied, extends it
pub Follows-Extends :
    (r r' : ActivationRecord) → Follows r r' → (r'.state ≡ applied → IsComplete r) → Extends r r'
Follows-Extends r r' f h =
    let g : (k : CheckpointKind) → Done k r → Done k r' = λ k d. adds-Done k r r' f.adds d in
    record { sound = λ a. IsComplete-grows r r' f.plan g (h a); plan = f.plan; grows = g }

pub unchanged : (r r' : ActivationRecord) → Follows r r' → (r'.version == r.version) ≡ true → r' ≡ r
unchanged r r' f e = elim f.version [ inl same ↦ same | inr newer ↦ absurd (ground arith) ]

abbrev pub AllSound : Dict ActivationRow → Type 0
AllSound rows =
    (id : String) (row : ActivationRow) → lookup id rows ≡ some row → IsSound row.payload

pub some-inj : {A : Type 0} {a b : A} → some a ≡ some b → a ≡ b
some-inj e = cc

pub same_state-eq : (a b : ActivationState) → same_state a b ≡ true → a ≡ b
same_state-eq a b h = ground arith

pub as_held-eq : (m : Result ActivationRecord) {r : ActivationRecord} → as_held m ≡ ok r → m ≡ ok r
as_held-eq (ok a) e = e
as_held-eq (err x) e = ground arith

pub equal-Ensures :
    {A : Type 0} (P : A → Type 0) (m : Result A) → ((a : A) → m ≡ ok a → P a) → Ensures P m
equal-Ensures P (ok a) h = h a refl
equal-Ensures P (err e) h = tt

pub guarded-Ensures :
    {A : Type 0} (P : A → Type 0) (b : Bool) (e : ControlError) (m : Result A)
    → Ensures P m
    → Ensures P (guard b e then m)
guarded-Ensures P true e m h = h
guarded-Ensures P false e m h = tt

pub bound-Ensures :
    {A B : Type 0} (P : A → Type 0) (Q : B → Type 0) (m : Result A) (f : A → Result B)
    → Ensures P m
    → ((a : A) → P a → Ensures Q (f a))
    → Ensures Q (m bind f)
bound-Ensures P Q (ok a) f h k = k a h
bound-Ensures P Q (err e) f h k = tt

pub commit-Holds :
    {W A : Type 0} (P : A → Type 0) (s : ControlState W) (m : Result (Dict ActivationRow × A))
    → IsSafe s
    → Ensures (λ (o : Dict ActivationRow × A). AllSound o.0 × P o.1) m
    → Holds P (committed s m)
commit-Holds P s (ok (rows, a)) h k = k
commit-Holds P s (err e) h k = (h, tt)
