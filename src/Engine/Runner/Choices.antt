-- ===== src/Engine/Runner/Choices.antt =====
-- Where `_next_step` and `_run_wait` of engine/runner.py lead, and the invariants they keep.
use justflow.Common.{
  String, ◌≡◌, refl, Bool, true, not, ◌&&◌, Option, none, some, inl, inr, List, [], ◌∷◌, arith,
  Option-cases, Bool-cases,
}
use justflow.Config.Models.{
  OnResultBranch, When, inline, evaluator, present, WaitForConfig, ReferencePath,
}
use justflow.Engine.Exceptions.{Result, ok}
use justflow.Engine.Data.Objects.{Object}
use justflow.Engine.Worklist.{member}
use justflow.Engine.Worklist.Reaches.{In, In-head}
use justflow.Engine.Runner.State.{Workflow, TransitionRecord, RunState, Environment, Machine}
use justflow.Engine.Runner.Graph.{branch_target, branch_targets, listed}
use justflow.Engine.Runner.Invoke.{as_unevaluated, branch_matches, take_branch}
use justflow.Engine.Runner.Waits.{wait_for_event, wait_until, run_wait}
use justflow.Engine.Runner.Keeping.{
  anything, Keeps, Keeps-pure, Keeps-raise, Keeps-any_lift, Keeps-calls, Keeps-reads, Keeps-then,
}
use justflow.Engine.Runner.Audit.{In-right}

-- A default branch has no `then` that the graph would take for its target.
abbrev pub is_plain : OnResultBranch → Bool
is_plain b = not (present b.default && present b.then_step)

abbrev pub are_plain : List OnResultBranch → Bool
are_plain [] = true
are_plain (b ∷ bs) = is_plain b && are_plain bs

-- A choice: a target among the given ones, with its record, or none.
module _ (name : String) (targets : List String) where
  abbrev pub IsChoice : Option String × Option TransitionRecord → Type 0
  IsChoice (none, none) = Unit
  IsChoice (none, some r) = ⊥
  IsChoice (some t, none) = In t targets
  IsChoice (some t, some r) = (r.step ≡ name) × (r.target ≡ t) × In t targets

In-default :
    (b : OnResultBranch) (bs : List OnResultBranch) (d : String)
    → is_plain b ≡ true
    → b.default ≡ some d
    → In d (branch_targets (b ∷ bs))
unfolding branch_targets member
In-default b bs d p e = elim (Option-cases b.then_step) [
  | inl nowhere ↦ rw (nowhere, e) (In-head d (branch_targets bs))
  | inr (t, e') ↦ absurd (ground arith)
]

In-then :
    (b : OnResultBranch) (bs : List OnResultBranch) (t : String)
    → b.then_step ≡ some t
    → In t (branch_targets (b ∷ bs))
unfolding branch_targets member
In-then b bs t e = rw e (In-head t (branch_targets bs))

In-rest :
    (b : OnResultBranch) (bs : List OnResultBranch) (t : String)
    → In t (branch_targets bs)
    → In t (branch_targets (b ∷ bs))
unfolding branch_targets
In-rest b bs t i = In-right t (listed (branch_target b)) (branch_targets bs) i

module _ {W : Type 0} (env : Environment W) (workflow : Workflow) (I : RunState → Type 0)
    (name : String) (result : Object) where
  resolved_once :
      (f : Machine W → Result Bool × Machine W)
      → Keeps I (λ b. Unit {0}) f
      → Keeps I (λ b. Unit {0}) (λ m. let (r, m') = f m in (as_unevaluated r, m'))
  resolved_once f h = record { kept = λ m i. ((h.kept m i).0, anything (as_unevaluated ((f m).0))) }

  branch_matches-Keeps :
      (w : When) → Keeps I (λ v. Unit {0}) (branch_matches env workflow name result w)
  unfolding branch_matches
  branch_matches-Keeps (inline condition) =
      Keeps-then I _ _ _ (Keeps-reads I _ _ (λ s. tt)) (λ outputs.
        Keeps-then I _ _ _ (Keeps-reads I _ _ (λ s. tt))
          (λ params. Keeps-then I _ _ _ (Keeps-any_lift I _) (λ holds. Keeps-pure I _ _ tt)))
  branch_matches-Keeps (evaluator e resources) =
      Keeps-then I _ _ _ (resolved_once _ (Keeps-calls I _ _ (λ b. tt)))
        (λ holds. Keeps-pure I _ _ tt)

  pub take_branch-Keeps :
      (targets : List String) (bs : List OnResultBranch)
      → are_plain bs ≡ true
      → ((t : String) → In t (branch_targets bs) → In t targets)
      → Keeps I (IsChoice name targets) (take_branch env workflow name result bs)
  unfolding take_branch
  take_branch-Keeps targets [] p sub = Keeps-pure I _ _ tt
  take_branch-Keeps targets (b ∷ bs) p sub = elim (Option-cases b.default) [
    | inr (d, e) ↦
        rw (e, take_branch)
          (Keeps-pure I _ _ (refl, refl, sub d (In-default b bs d (ground arith) e)))
    | inl no_default ↦ elim (Option-cases b.when) [
      | inl no_when ↦ rw (no_default, no_when, take_branch) (Keeps-raise I _ _)
      | inr (w, e) ↦
          rw (no_default, e, take_branch)
            (Keeps-then I _ _ _ (branch_matches-Keeps w) (λ verdict. elim (Bool-cases verdict.0) [
              | inl holds ↦ elim (Option-cases b.then_step) [
                | inl nowhere ↦ rw (holds, nowhere) (Keeps-raise I _ _)
                | inr (t, e') ↦
                    rw (holds, e') (Keeps-pure I _ _ (refl, refl, sub t (In-then b bs t e')))
              ]
              | inr fails ↦
                  rw fails
                    (take_branch-Keeps targets bs (ground arith) (λ t i. sub t (In-rest b bs t i)))
            ]))
    ]
  ]

module _ {W : Type 0} (env : Environment W) (I : RunState → Type 0) where
  observed : {A : Type 0} (f : Machine W → A) → Keeps I (λ a. Unit {0}) (λ m. (ok (f m), m))
  observed f = record { kept = λ m i. (i, tt) }

  wait_until-Keeps :
      (w : WaitForConfig) (r : ReferencePath) → Keeps I (λ v. Unit {0}) (wait_until env w r)
  unfolding wait_until wait_for_event
  wait_until-Keeps w r = Keeps-then I _ _ _ (Keeps-reads I _ _ (λ s. tt)) (λ outputs.
      Keeps-then I _ _ _ (Keeps-reads I _ _ (λ s. tt)) (λ params.
        Keeps-then I _ _ _ (Keeps-any_lift I _) (λ value.
          Keeps-then I _ _ _ (Keeps-any_lift I _) (λ epoch.
            Keeps-then I _ _ _ (observed (λ m. env.now m.world))
              (λ now. Keeps-calls I _ _ (λ v. tt))))))

  pub run_wait-Keeps : (w : WaitForConfig) → Keeps I (λ v. Unit {0}) (run_wait env w)
  unfolding run_wait wait_for_event
  run_wait-Keeps w = elim (Option-cases w.timeout_until) [
    | inr (r, e) ↦ rw (e, run_wait) (wait_until-Keeps w r)
    | inl no_deadline ↦ elim (Option-cases w.timeout_sec) [
      | inl unbounded ↦ rw (no_deadline, unbounded, run_wait) (Keeps-raise I _ _)
      | inr (n, e) ↦ rw (no_deadline, e, run_wait) (Keeps-calls I _ _ (λ v. tt))
    ]
  ]
