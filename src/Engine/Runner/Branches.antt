-- ===== src/Engine/Runner/Branches.antt =====
-- Where the branches of a step lead (`_next_step` of engine/runner.py).
use justflow.Common.{
  String, ◌≡◌, refl, true, Option, none, some, inl, inr, List, [], ◌∷◌, arith, Option-cases,
  Bool-cases,
}
use justflow.Config.Models.{OnResultBranch, default_is_last}
use justflow.Engine.Exceptions.{Result, ok, err, Ensures}
use justflow.Engine.Data.Objects.{Object}
use justflow.Engine.Runner.State.{Workflow, TransitionRecord, Environment, Machine}
use justflow.Engine.Runner.Machine.{Exec, ◌>>=◌, and_then}
use justflow.Engine.Runner.Invoke.{branch_matches, take_branch}

-- A next step, and a record of the transition to it.
abbrev pub Moves : Option String × Option TransitionRecord → Type 0
Moves (some t, some r) = r.target ≡ t
Moves (some t, none) = ⊥
Moves (none, r) = ⊥

module _ {W A B : Type 0} (P : B → Type 0) where
  follows :
      (f : A → Exec W B) (r : Result A) (m : Machine W)
      → ((a : A) (m' : Machine W) → Ensures P ((f a m').0))
      → Ensures P ((and_then r f m).0)
  follows f (ok a) m h = h a m
  follows f (err e) m h = tt

  Ensures-Exec :
      (x : Exec W A) (f : A → Exec W B) (m : Machine W)
      → ((a : A) (m' : Machine W) → Ensures P ((f a m').0))
      → Ensures P (((x >>= f) m).0)
  unfolding ◌>>=◌
  Ensures-Exec x f m h = follows f (x m).0 (x m).1 h

module _ {W : Type 0} (env : Environment W) (workflow : Workflow) (name : String)
    (result : Object) where
  -- Where the default stands last, a choice among the branches that returns names a next step, and
  -- records the transition to it.
  pub take_branch-Moves :
      (bs : List OnResultBranch) (m : Machine W)
      → default_is_last bs ≡ true
      → Ensures Moves ((take_branch env workflow name result bs m).0)
  unfolding take_branch default_is_last
  take_branch-Moves [] m h = absurd (cc)
  take_branch-Moves (b ∷ bs) m h = elim (Option-cases b.default) [
    | inr (d, e) ↦ rw (e, take_branch) refl
    | inl no_default ↦ elim (Option-cases b.when) [
      | inl no_when ↦ rw (no_default, no_when, take_branch) tt
      | inr (w, e) ↦
          rw (no_default, e, take_branch)
            (Ensures-Exec Moves (branch_matches env workflow name result w) _ m (λ verdict m'.
              elim (Bool-cases verdict.0) [
                | inl holds ↦ elim (Option-cases b.then_step) [
                  | inl nowhere ↦ rw (holds, nowhere) tt
                  | inr (t, e') ↦ rw (holds, e') refl
                ]
                | inr fails ↦ rw fails (take_branch-Moves bs m' (remaining b bs h no_default))
              ]))
    ]
  ]
    where
      remaining :
          (b : OnResultBranch) (bs : List OnResultBranch)
          → default_is_last (b ∷ bs) ≡ true
          → b.default ≡ none
          → default_is_last bs ≡ true
      remaining b [] h e = ground arith
      remaining b (b' ∷ bs) h e = ground arith
