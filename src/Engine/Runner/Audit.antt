-- ===== src/Engine/Runner/Audit.antt =====
-- The audit trail of a run (engine/runner.py): the positions of its entries, and its transitions.
use text.Mathlib.Text.{◌==◌ as str_eq}
use justflow.Common.{
  ℕ, ◌+◌, ◌<◌, String, ◌≡◌, ◌≢◌, some, inl, inr, List, [], ◌∷◌, ◌++◌, arith, All, Bool-cases,
}
use justflow.Common.Dict.{Dict, lookup, insert}
use justflow.Config.Models.{FlowStep}
use justflow.Engine.Worklist.{member}
use justflow.Engine.Worklist.Reaches.{In}
use justflow.Engine.Runner.State.{Workflow, TransitionRecord, StepAuditEntry, RunState}
use justflow.Engine.Runner.Graph.{flow_steps, normal_successors, listed}
use justflow.Engine.Runner.Execute.{or_handler}

pub In-left : (t : String) (xs ys : List String) → In t xs → In t (xs ++ ys)
unfolding member
In-left t [] ys h = cc
In-left t (x ∷ xs) ys h = ground (arith, In-left t xs ys)

pub In-right : (t : String) (xs ys : List String) → In t ys → In t (xs ++ ys)
unfolding member
In-right t [] ys h = h
In-right t (x ∷ xs) ys h = ground (arith, In-right t xs ys)

pub All-snoc {ℓ κ} :
    {A : Type ℓ} (P : A → Type κ) (xs : List A) (x : A) → All P xs → P x → All P (xs ++ x ∷ [])
All-snoc P [] x h p = (p, tt)
All-snoc P (y ∷ xs) x h p = (h.0, All-snoc P xs x h.1 p)

-- Every entry stands before the position n.
abbrev pub IsBelow : ℕ → Dict StepAuditEntry → Type 0
IsBelow n [] = Unit
IsBelow n ((k, a) ∷ d) = (a.seq < n) × IsBelow n d

-- No entry stands at the position n.
abbrev pub IsApart : ℕ → Dict StepAuditEntry → Type 0
IsApart n [] = Unit
IsApart n ((k, a) ∷ d) = (a.seq ≢ n) × IsApart n d

-- No two entries stand at one position.
abbrev pub IsSpread : Dict StepAuditEntry → Type 0
IsSpread [] = Unit
IsSpread ((k, a) ∷ d) = IsApart a.seq d × IsSpread d

IsBelow-IsApart : (n : ℕ) (d : Dict StepAuditEntry) → IsBelow n d → IsApart n d
IsBelow-IsApart n [] h = tt
IsBelow-IsApart n ((k, a) ∷ d) h = ((λ e. omega (arith, h.0)), IsBelow-IsApart n d h.1)

weaken : (n : ℕ) (d : Dict StepAuditEntry) → IsBelow n d → IsBelow (n + 1) d
weaken n [] h = tt
weaken n ((k, a) ∷ d) h = (omega (arith, h.0), weaken n d h.1)

module _ (k : String) (a : StepAuditEntry) where
  insert-IsBelow :
      (n : ℕ) (d : Dict StepAuditEntry) → a.seq ≡ n → IsBelow n d → IsBelow (n + 1) (insert k a d)
  unfolding insert
  insert-IsBelow n [] e h = (omega arith, tt)
  insert-IsBelow n ((j, b) ∷ d) e h = elim (Bool-cases (str_eq j k)) [
    | inl same ↦ rw (same, insert) ((omega arith, weaken n d h.1))
    | inr other ↦ rw (other, insert) ((omega (arith, h.0), insert-IsBelow n d e h.1))
  ]

  insert-IsApart :
      (i : ℕ) (d : Dict StepAuditEntry) → a.seq ≢ i → IsApart i d → IsApart i (insert k a d)
  unfolding insert
  insert-IsApart i [] e h = (e, tt)
  insert-IsApart i ((j, b) ∷ d) e h = elim (Bool-cases (str_eq j k)) [
    | inl same ↦ rw (same, insert) ((e, h.1))
    | inr other ↦ rw (other, insert) ((h.0, insert-IsApart i d e h.1))
  ]

  insert-IsSpread :
      (n : ℕ) (d : Dict StepAuditEntry)
      → a.seq ≡ n
      → IsBelow n d
      → IsSpread d
      → IsSpread (insert k a d)
  unfolding insert
  insert-IsSpread n [] e h s = (tt, tt)
  insert-IsSpread n ((j, b) ∷ d) e h s = elim (Bool-cases (str_eq j k)) [
    | inl same ↦ rw (same, insert) ((rw e (IsBelow-IsApart n d h.1), s.1))
    | inr other ↦
        rw (other, insert)
          ((
            insert-IsApart b.seq d (λ q. omega (arith, h.0, q, e)) s.0,
            insert-IsSpread n d e h.1 s.1,
          ))
  ]

module _ (workflow : Workflow) where
  -- where a step may lead
  abbrev pub targets_of : FlowStep → List String
  targets_of step = normal_successors step ++ listed (or_handler step.on_failure workflow.on_error)

  -- A transition from a known step to one that it may lead to.
  abbrev pub IsEdge : TransitionRecord → Type 0
  IsEdge r =
      (step : FlowStep) × (lookup r.step (flow_steps workflow.flow) ≡ some step)
      × In r.target (targets_of step)

  -- The audit trail holds its entries at distinct positions before the next one, and transitions along
  -- the edges of the flow.
  pub record IsTrail (steps : Dict StepAuditEntry) (seq : ℕ) (transitions : List TransitionRecord)
      : Type 0 where
    pub below : IsBelow seq steps
    pub spread : IsSpread steps
    pub edges : All IsEdge transitions

  abbrev pub IsSound : RunState → Type 0
  IsSound s = IsTrail s.step_timings s.seq s.transitions

  pub insert-IsTrail :
      (name : String) (a : StepAuditEntry) {steps : Dict StepAuditEntry} {seq : ℕ}
      {transitions : List TransitionRecord}
      → a.seq ≡ seq
      → IsTrail steps seq transitions
      → IsTrail (insert name a steps) (seq + 1) transitions
  insert-IsTrail name a {steps} {seq} e t = record {
    below = insert-IsBelow name a seq steps e t.below;
    spread = insert-IsSpread name a seq steps e t.below t.spread;
    edges = t.edges;
  }

  pub snoc-IsTrail :
      (r : TransitionRecord) {steps : Dict StepAuditEntry} {seq : ℕ}
      {transitions : List TransitionRecord}
      → IsEdge r
      → IsTrail steps seq transitions
      → IsTrail steps seq (transitions ++ r ∷ [])
  snoc-IsTrail r {transitions = transitions} e t = record {
    below = t.below;
    spread = t.spread;
    edges = All-snoc IsEdge transitions r t.edges e;
  }
