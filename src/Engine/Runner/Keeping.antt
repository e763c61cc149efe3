-- ===== src/Engine/Runner/Keeping.antt =====
-- Actions of engine/runner.py that keep an invariant of the run's state.
use mathlib.Core.Path.{subst}
use justflow.Common.{ℕ, sym, Bool, true, false, if◌then◌else◌}
use justflow.Engine.Exceptions.{Raised, Result, ok, err, Ensures}
use justflow.Engine.Runner.State.{RunState, Machine}
use justflow.Engine.Runner.Machine.{Exec, pure, raise, lift, calls, reads, modify, ◌>>=◌, and_then}
use justflow.Engine.Runner.Counting.{Yields, counted}

module _ {A : Type 0} where
  ensured : (P : A → Type 0) (r : Result A) → ((a : A) → P a) → Ensures P r
  ensured P (ok a) h = h a
  ensured P (err e) h = tt

  pub anything : (r : Result A) → Ensures (λ a. Unit {0}) r
  anything r = ensured (λ a. Unit {0}) r (λ a. tt)

module _ {W : Type 0} (I : RunState → Type 0) where
  -- From a state where I holds, the action leaves one where I holds, and P holds of what it returns.
  pub record Keeps {A : Type 0} (P : A → Type 0) (x : Exec W A) : Type 0 where
    pub kept : (m : Machine W) → I m.state → I ((x m).1).state × Ensures P ((x m).0)

  module _ {A : Type 0} (P : A → Type 0) where
    pub Keeps-pure : (a : A) → P a → Keeps P (pure a)
    Keeps-pure a p = record { kept = λ m i. (i, p) }

    pub Keeps-raise : (e : Raised) → Keeps P (raise e)
    Keeps-raise e = record { kept = λ m i. (i, tt) }

    pub Keeps-lift : (r : Result A) → Ensures P r → Keeps P (lift r)
    Keeps-lift r h = record { kept = λ m i. (i, h) }

    pub Keeps-calls : (f : W → Result A × W) → ((a : A) → P a) → Keeps P (calls f)
    Keeps-calls f h = record { kept = λ m i. (i, ensured P (f m.world).0 h) }

    pub Keeps-reads : (f : RunState → A) → ((s : RunState) → P (f s)) → Keeps P (reads f)
    Keeps-reads f h = record { kept = λ m i. (i, h m.state) }

    pub Keeps-if :
        (b : Bool) (x y : Exec W A) → Keeps P x → Keeps P y → Keeps P (if b then x else y)
    Keeps-if true x y hx hy = hx
    Keeps-if false x y hx hy = hy

  pub Keeps-modify :
      (f : RunState → RunState)
      → ((s : RunState) → I s → I (f s))
      → Keeps (λ u. Unit {0}) (modify f)
  Keeps-modify f h = record { kept = λ m i. (h m.state i, tt) }

  module _ {A B : Type 0} (P : A → Type 0) (Q : B → Type 0) where
    followed :
        (f : A → Exec W B) (r : Result A × Machine W)
        → I (r.1).state × Ensures P (r.0)
        → ((a : A) → P a → Keeps Q (f a))
        → I ((and_then (r.0) f (r.1)).1).state × Ensures Q ((and_then (r.0) f (r.1)).0)
    followed f (ok a, m) (i, p) h = (h a p).kept m i
    followed f (err e, m) (i, p) h = (i, tt)

    pub Keeps->>= :
        (x : Exec W A) (f : A → Exec W B)
        → Keeps P x
        → ((a : A) → P a → Keeps Q (f a))
        → Keeps Q (x >>= f)
    unfolding ◌>>=◌
    Keeps->>= x f hx hf = record { kept = λ m i. followed f (x m) (hx.kept m i) hf }

  module _ {A B : Type 0} (Q : B → Type 0) where
    -- A first action of whose result nothing is used.
    pub Keeps-then :
        (x : Exec W A) (f : A → Exec W B)
        → Keeps (λ a. Unit {0}) x
        → ((a : A) → Keeps Q (f a))
        → Keeps Q (x >>= f)
    Keeps-then x f hx hf = Keeps->>= (λ a. Unit {0}) Q x f hx (λ a u. hf a)

  module _ {A : Type 0} where
    pub Keeps-any_lift : (r : Result A) → Keeps (λ a. Unit {0}) (lift r)
    Keeps-any_lift r = record { kept = λ m i. (i, anything r) }

    -- What only counts invocations keeps I, where I does not look at the counter.
    pub Yields-Keeps :
        {E : ℕ → Type 0} {P : A → ℕ → Type 0} (x : Exec W A)
        → ((n : ℕ) (s : RunState) → I s → I (counted n s))
        → Yields E P x
        → Keeps (λ a. Unit {0}) x
    Yields-Keeps x stable y = record {
      kept = λ m i.
          let (n, p, e) = y.at_end m in (subst I (sym e) (stable n m.state i), anything (x m).0);
    }
