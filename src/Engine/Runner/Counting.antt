-- ===== src/Engine/Runner/Counting.antt =====
-- Actions of engine/runner.py that change nothing in the run's state but the counter of invocations.
use mathlib.Core.Path.{subst}
use justflow.Common.{ℕ, ◌+◌, ◌≡◌, refl, sym, ◌∙◌, ap, Bool, true, false, arith, if◌then◌else◌}
use justflow.Engine.Exceptions.{Result, ok, err}
use justflow.Engine.Runner.State.{RunState, Machine}
use justflow.Engine.Runner.Machine.{Exec, pure, lift, calls, reads, ◌>>=◌, and_then}

-- the state with n more invocations
abbrev pub counted : ℕ → RunState → RunState
counted n s = record s { invocations = s.invocations + n }

counted_add : (n k : ℕ) (s : RunState) → counted k (counted n s) ≡ counted (n + k) s
counted_add n k s = ap (λ i. record s { invocations = i }) (omega arith)

pub counted_zero : (s : RunState) → s ≡ counted 0 s
counted_zero s = ap (λ i. record s { invocations = i }) (omega arith)

-- What a finished action has counted (n, of which E or, with the value returned, P holds), where
-- nothing else in the state has changed.
abbrev pub IsEnd : {A : Type 0} → (ℕ → Type 0) → (A → ℕ → Type 0) → Result A → ℕ → Type 0
IsEnd E P (ok a) n = P a n
IsEnd E P (err e) n = E n

module _ {A : Type 0} (E : ℕ → Type 0) (P : A → ℕ → Type 0) where
  still : (r : Result A) → E 0 → ((a : A) → r ≡ ok a → P a 0) → IsEnd E P r 0
  still (ok a) q h = h a refl
  still (err e) q h = q

  module _ (F : ℕ → Type 0) (Q : A → ℕ → Type 0) where
    weaken :
        (r : Result A) (n : ℕ)
        → (E n → F n)
        → ((a : A) → P a n → Q a n)
        → IsEnd E P r n
        → IsEnd F Q r n
    weaken (ok a) n k h p = h a p
    weaken (err e) n k h p = k p

  shifted :
      (n k : ℕ) (r : Result A)
      → IsEnd (λ i. E (n + i)) (λ b i. P b (n + i)) r k
      → IsEnd E P r (n + k)
  shifted n k (ok b) p = p
  shifted n k (err e) p = p

module _ {W : Type 0} where
  abbrev pub AtEnd :
      {A : Type 0} → (ℕ → Type 0) → (A → ℕ → Type 0) → Machine W → Result A × Machine W → Type 0
  AtEnd E P m (r, m') = (n : ℕ) × IsEnd E P r n × (m'.state ≡ counted n m.state)

  pub record Yields {A : Type 0} (E : ℕ → Type 0) (P : A → ℕ → Type 0) (x : Exec W A) : Type 0 where
    pub at_end : (m : Machine W) → AtEnd E P m (x m)

  module _ {A : Type 0} (E : ℕ → Type 0) (P : A → ℕ → Type 0) where
    pub Yields-pure : (a : A) → P a 0 → Yields E P (pure a)
    Yields-pure a p = record { at_end = λ m. (0, p, counted_zero m.state) }

    pub Yields-lift : (r : Result A) → E 0 → ((a : A) → r ≡ ok a → P a 0) → Yields E P (lift r)
    Yields-lift r q h = record { at_end = λ m. (0, still E P r q h, counted_zero m.state) }

    pub Yields-calls : (f : W → Result A × W) → E 0 → ((a : A) → P a 0) → Yields E P (calls f)
    Yields-calls f q h = record {
      at_end = λ m. (0, still E P (f m.world).0 q (λ a e. h a), counted_zero m.state);
    }

    pub Yields-if :
        (b : Bool) (x y : Exec W A) → Yields E P x → Yields E P y → Yields E P (if b then x else y)
    Yields-if true x y hx hy = hx
    Yields-if false x y hx hy = hy

    module _ (F : ℕ → Type 0) (Q : A → ℕ → Type 0) where
      pub Yields-weaken :
          (x : Exec W A)
          → Yields E P x
          → ((n : ℕ) → E n → F n)
          → ((a : A) (n : ℕ) → P a n → Q a n)
          → Yields F Q x
      Yields-weaken x hx k h = record {
        at_end =
            λ m. let (n, p, e) = hx.at_end m in (n, weaken E P F Q _ n (k n) (λ a. h a n) p, e);
      }

  module _ {B : Type 0} (F : ℕ → Type 0) (Q : B → ℕ → Type 0) where
    module _ {A : Type 0} (E : ℕ → Type 0) (P : A → ℕ → Type 0) where
      AtEnd-and_then :
          (m : Machine W) (f : A → Exec W B) (r : Result A × Machine W)
          → AtEnd E P m r
          → ((n : ℕ) → E n → F n)
          → ((a : A) (n : ℕ) → P a n → Yields (λ k. F (n + k)) (λ b k. Q b (n + k)) (f a))
          → AtEnd F Q m (and_then r.0 f r.1)
      AtEnd-and_then m f (ok a, m') (n, p, e) k h =
          let (i, q, e') = (h a n p).at_end m' in
          (n + i, shifted F Q n i _ q, e' ∙ (ap (counted i) e ∙ counted_add n i m.state))
      AtEnd-and_then m f (err _, m') (n, p, e) k h = (n, k n p, e)

      pub Yields->>= :
          (x : Exec W A) (f : A → Exec W B)
          → Yields E P x
          → ((n : ℕ) → E n → F n)
          → ((a : A) (n : ℕ) → P a n → Yields (λ k. F (n + k)) (λ b k. Q b (n + k)) (f a))
          → Yields F Q (x >>= f)
      unfolding ◌>>=◌
      Yields->>= x f hx k hf = record { at_end = λ m. AtEnd-and_then m f (x m) (hx.at_end m) k hf }

-- an action that counts nothing
abbrev pub Quiet : {W A : Type 0} → Exec W A → Type 0
Quiet x = Yields (λ n. n ≡ 0) (λ a n. n ≡ 0) x

module _ {W A B : Type 0} (F : ℕ → Type 0) (Q : B → ℕ → Type 0) where
  AtEnd-quietly :
      (m : Machine W) (f : A → Exec W B) (r : Result A × Machine W)
      → AtEnd (λ n. n ≡ 0) (λ a n. n ≡ 0) m r
      → F 0
      → ((a : A) → Yields F Q (f a))
      → AtEnd F Q m (and_then r.0 f r.1)
  AtEnd-quietly m f (ok a, m') (n, z, e) q h =
      let (i, p, e') = (h a).at_end m' in
      let same = e ∙ (ap (λ j. counted j m.state) z ∙ sym (counted_zero m.state)) in
      (i, p, e' ∙ ap (counted i) same)
  AtEnd-quietly m f (err _, m') (n, z, e) q h = (n, subst F (sym z) q, e)

  pub Yields-quietly :
      (x : Exec W A) (f : A → Exec W B)
      → Quiet x
      → F 0
      → ((a : A) → Yields F Q (f a))
      → Yields F Q (x >>= f)
  unfolding ◌>>=◌
  Yields-quietly x f hx q hf = record { at_end = λ m. AtEnd-quietly m f (x m) (hx.at_end m) q hf }

module _ {W A : Type 0} where
  pub Quiet-if : (b : Bool) (x y : Exec W A) → Quiet x → Quiet y → Quiet (if b then x else y)
  Quiet-if true x y hx hy = hx
  Quiet-if false x y hx hy = hy

  pub Quiet-lift : (r : Result A) → Quiet {W = W} (lift r)
  Quiet-lift r = Yields-lift (λ n. n ≡ 0) (λ a n. n ≡ 0) r refl (λ a e. refl)

  pub Quiet-pure : (a : A) → Quiet {W = W} (pure a)
  Quiet-pure a = Yields-pure (λ n. n ≡ 0) (λ a n. n ≡ 0) a refl

  pub Quiet-reads : (f : RunState → A) → Quiet {W = W} (reads f)
  Quiet-reads f = record { at_end = λ m. (0, refl, counted_zero m.state) }

  pub Quiet-calls : (f : W → Result A × W) → Quiet (calls f)
  Quiet-calls f = Yields-calls (λ n. n ≡ 0) (λ a n. n ≡ 0) f refl (λ a. refl)

module _ {W A B : Type 0} where
  pub Quiet->>= :
      (x : Exec W A) (f : A → Exec W B) → Quiet x → ((a : A) → Quiet (f a)) → Quiet (x >>= f)
  Quiet->>= x f hx hf = Yields-quietly (λ n. n ≡ 0) (λ b n. n ≡ 0) x f hx refl hf

module _ {W A B : Type 0} (F : ℕ → Type 0) (Q : B → ℕ → Type 0) where
  lifted :
      (r : Result A) (f : A → Exec W B) (m : Machine W)
      → F 0
      → ((a : A) → r ≡ ok a → Yields F Q (f a))
      → AtEnd F Q m (and_then r f m)
  lifted (ok a) f m q h = (h a refl).at_end m
  lifted (err e) f m q h = (0, q, counted_zero m.state)

  -- What follows may use that r has returned.
  pub Yields-lift->>= :
      (r : Result A) (f : A → Exec W B)
      → F 0
      → ((a : A) → r ≡ ok a → Yields F Q (f a))
      → Yields F Q (lift r >>= f)
  unfolding ◌>>=◌
  Yields-lift->>= r f q h = record { at_end = λ m. lifted r f m q h }
