-- ===== src/Configuration/Controller/Keeping.antt =====
-- Code of runtime/configuration_activation.py that keeps what holds of every stored activation, while other
-- processes change the stores too.
use justflow.Common.{◌≡◌, refl, String, Bool, true, false, Option, some, if◌then◌else◌}
use justflow.Common.Dict.{Dict, lookup}
use justflow.Configuration.Results.{Ensures, ControlError, Result, ok, err}
use justflow.Configuration.Records.{
  CheckpointKind, ActivationRecord, has_checkpoint, applied, definitions, worker_readiness,
  schedules, catalog_routing, worker_routing, active_pointer, runtime_index,
}
use justflow.Configuration.Store.{ActivationRow}
use justflow.Configuration.Control.{
  ControlState, Control, pure, raise, lift, ◌>>=◌, ◌>>◌, try_except, ExternalConfirmation, after,
  handled, Prepared, WorkerBinding, ControlEnvironment,
}

abbrev pub Done : CheckpointKind → ActivationRecord → Type 0
unfolding has_checkpoint
Done kind r = has_checkpoint kind r.checkpoints ≡ true

-- The checkpoints that an applied activation has.
pub record IsComplete (r : ActivationRecord) : Type 0 where
  pub stored : Done definitions r
  pub ready : Done worker_readiness r
  pub reconciled : r.plan.reconciles ≡ true → Done schedules r
  pub published : r.plan.publishes ≡ true → Done catalog_routing r
  pub switched : r.plan.switches ≡ true → Done worker_routing r
  pub pointed : Done active_pointer r
  pub indexed : Done runtime_index r

-- an activation that is applied has its checkpoints
abbrev pub IsSound : ActivationRecord → Type 0
IsSound r = r.state ≡ applied → IsComplete r

abbrev pub IsSafe : {W : Type 0} → ControlState W → Type 0
IsSafe s = (id : String) (row : ActivationRow) → lookup id s.rows ≡ some row → IsSound row.payload

Ensures-map :
    {A : Type 0} {P Q : A → Type 0} (m : Result A)
    → ((a : A) → P a → Q a)
    → Ensures P m
    → Ensures Q m
Ensures-map (ok a) f p = f a p
Ensures-map (err e) f p = tt

module _ {W : Type 0} where
  abbrev pub Holds : {A : Type 0} → (A → Type 0) → ControlState W × Result A → Type 0
  Holds P (s, m) = IsSafe s × Ensures P m

  -- Started where every applied activation has its checkpoints, the code ends so, and what it returns has P.
  pub record Keeps {A : Type 0} (P : A → Type 0) (x : Control W A) : Type 0 where
    pub run : (s : ControlState W) → IsSafe s → Holds P (x s)

  pub pure-Keeps : {A : Type 0} {P : A → Type 0} (a : A) → P a → Keeps P (pure a)
  pure-Keeps a p = record { run = λ s h. (h, p) }

  pub raise-Keeps : {A : Type 0} {P : A → Type 0} (e : ControlError) → Keeps P (raise e)
  raise-Keeps e = record { run = λ s h. (h, tt) }

  pub lift-Keeps : {A : Type 0} {P : A → Type 0} (m : Result A) → Ensures P m → Keeps P (lift m)
  lift-Keeps m p = record { run = λ s h. (h, p) }

  after-Holds :
      {A B : Type 0} {P : A → Type 0} {Q : B → Type 0} (o : ControlState W × Result A)
      (f : A → Control W B)
      → Holds P o
      → ((a : A) → P a → Keeps Q (f a))
      → Holds Q (after o f)
  after-Holds (s, ok a) f (h, p) k = (k a p).run s h
  after-Holds (s, err e) f (h, p) k = (h, tt)

  pub Keeps->>= :
      {A B : Type 0} {P : A → Type 0} {Q : B → Type 0} {x : Control W A} {f : A → Control W B}
      → Keeps P x
      → ((a : A) → P a → Keeps Q (f a))
      → Keeps Q (x >>= f)
  Keeps->>= {x = x} {f = f} k l = record { run = λ s h. after-Holds (x s) f (k.run s h) l }

  pub Keeps->> :
      {A B : Type 0} {P : A → Type 0} {Q : B → Type 0} {x : Control W A} {y : Control W B}
      → Keeps P x
      → Keeps Q y
      → Keeps Q (x >> y)
  Keeps->> k l = Keeps->>= k λ a p. l

  handled-Holds :
      {A : Type 0} {P : A → Type 0} (o : ControlState W × Result A)
      (handler : ControlError → Control W A)
      → Holds P o
      → ((e : ControlError) → Keeps P (handler e))
      → Holds P (handled o handler)
  handled-Holds (s, ok a) handler h k = h
  handled-Holds (s, err e) handler (h, p) k = (k e).run s h

  pub try-Keeps :
      {A : Type 0} {P : A → Type 0} {x : Control W A} {handler : ControlError → Control W A}
      → Keeps P x
      → ((e : ControlError) → Keeps P (handler e))
      → Keeps P (try_except x handler)
  try-Keeps {x = x} {handler = handler} k l = record {
    run = λ s h. handled-Holds (x s) handler (k.run s h) l;
  }

  pub if-Keeps :
      {A : Type 0} {P : A → Type 0} (b : Bool) {x y : Control W A}
      → (b ≡ true → Keeps P x)
      → (b ≡ false → Keeps P y)
      → Keeps P (if b then x else y)
  if-Keeps true k l = k refl
  if-Keeps false k l = l refl

  holds-map :
      {A : Type 0} {P Q : A → Type 0} (o : ControlState W × Result A)
      → ((a : A) → P a → Q a)
      → Holds P o
      → Holds Q o
  holds-map (s, m) f (h, p) = (h, Ensures-map m f p)

  pub Keeps-map :
      {A : Type 0} {P Q : A → Type 0} {x : Control W A}
      → ((a : A) → P a → Q a)
      → Keeps P x
      → Keeps Q x
  Keeps-map {x = x} f k = record { run = λ s h. holds-map (x s) f (k.run s h) }

-- What the other processes, the clock, the catalogs and the bindings do keeps what holds of the stored
-- activations; whatever else they do, and whether they raise, is left open.
abbrev pub Any : {A : Type 0} → A → Type 0
Any a = Unit

pub record IsFair {W : Type 0} (binding : WorkerBinding W) : Type 0 where
  pub rollout : (p : Prepared) (d : String) → Keeps Any (binding.rollout p d)
  pub readiness : (p : Prepared) → Keeps Any (binding.readiness p)
  pub route : (p : Prepared) (d : String) → Keeps Any (binding.route p d)

pub record Relies {W : Type 0} (env : ControlEnvironment W) : Type 0 where
  pub turn : Keeps Any env.turn
  pub now : Keeps Any env.now
  pub prepare : (revision_id : String) → Keeps Any (env.prepare revision_id)
  pub store_definition_manifest :
      (scope manifest : String) → Keeps Any (env.store_definition_manifest scope manifest)
  pub store_environment_snapshot :
      (scope snapshot : String) → Keeps Any (env.store_environment_snapshot scope snapshot)
  pub inspect_aliases : Keeps Any env.inspect_aliases
  pub replace_aliases :
      (aliases : Dict String) (v : Option String) → Keeps Any (env.replace_aliases aliases v)
  pub worker_binding :
      (binding : WorkerBinding W) → env.worker_binding ≡ some binding → IsFair binding
  pub reconcile_schedules :
      (reconcile : Prepared → Control W ExternalConfirmation)
      → env.reconcile_schedules ≡ some reconcile
      → (p : Prepared) → Keeps Any (reconcile p)
  pub replace_index : (p : Prepared) → Keeps Any (env.replace_index p)
