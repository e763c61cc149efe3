-- ===== src/Engine/Analysis/Edges.antt =====
-- The edges of engine/analysis.py against the control-flow graph of engine/runner.py.
use justflow.Common.{
  String, ◌≡◌, refl, Bool, true, false, Option, none, some, List, [], ◌∷◌, ◌++◌, All,
}
use justflow.Common.Dict.{Dict, contains}
use justflow.Config.Models.{FlowStep, OnResultBranch, WaitForConfig, present}
use justflow.Engine.Worklist.Reaches.{In, In-head}
use justflow.Engine.Runner.State.{Workflow}
use justflow.Engine.Runner.Graph.{
  branch_target, branch_targets, timeout_targets, listed, normal_successors,
}
use justflow.Engine.Runner.Audit.{In-left, In-right, targets_of}
use justflow.Engine.Runner.Execute.{or_handler}
use justflow.Engine.Analysis.{
  EdgeKind, FlowEdge, where_true, edge_to, branch_kind, branch_edges, result_edges, timeout_edges,
  step_edges,
}

All-append {ℓ κ} :
    {A : Type ℓ} (P : A → Type κ) (xs ys : List A) → All P xs → All P ys → All P (xs ++ ys)
All-append P [] ys h k = k
All-append P (x ∷ xs) ys h k = (h.0, All-append P xs ys h.1 k)

All-where_true {κ} :
    (P : FlowEdge → Type κ) (b : Bool) (edges : List FlowEdge)
    → All P edges
    → All P (where_true b edges)
All-where_true P false edges h = tt
All-where_true P true edges h = h

-- An edge from the step to a known one among the targets.
abbrev pub IsMove : Dict FlowStep → String → List String → FlowEdge → Type 0
IsMove steps source targets e =
    (e.source ≡ source) × (contains e.target steps ≡ true) × In e.target targets

module _ (steps : Dict FlowStep) (source : String) (targets : List String) where
  edge_to-IsMove :
      (target : Option String) (kind : EdgeKind) (produced : List String)
      → ((t : String) → In t (listed target) → In t targets)
      → All (IsMove steps source targets) (edge_to steps source target kind produced)
  edge_to-IsMove none kind produced h = tt
  edge_to-IsMove (some t) kind produced h = known (contains t steps) refl
    where
      known :
          (b : Bool)
          → contains t steps ≡ b
          → All (IsMove steps source targets) (
              where_true b
                ((record { source = source; target = t; kind = kind; produced = produced }) ∷ []))
      known false e = tt
      known true e = ((refl, e, h t (In-head t [])), tt)

  branch_edges-IsMove :
      (produced : List String) (bs : List OnResultBranch)
      → ((t : String) → In t (branch_targets bs) → In t targets)
      → All (IsMove steps source targets) (branch_edges steps source produced bs)
  unfolding branch_edges branch_targets
  branch_edges-IsMove produced [] h = tt
  branch_edges-IsMove produced (b ∷ bs) h =
      All-append _ _ _
        (edge_to-IsMove (branch_target b) (branch_kind b) produced (λ t i. h t (In-left t _ _ i)))
        (branch_edges-IsMove produced bs (λ t i. h t (In-right t (listed (branch_target b)) _ i)))

  timeout_edges-IsMove :
      (w : Option WaitForConfig)
      → ((t : String) → In t (timeout_targets w) → In t targets)
      → All (IsMove steps source targets) (timeout_edges steps source w)
  timeout_edges-IsMove none h = tt
  timeout_edges-IsMove (some w) h = edge_to-IsMove w.on_timeout _ [] h

  result_edges-IsMove :
      (step : FlowStep) (branches : Option (List OnResultBranch))
      → ((t : String) → In t (listed step.then_step) → In t targets)
      → ((t : String)
          → In t (elim branches [ none ↦ [] | some bs ↦ branch_targets bs ])
          → In t targets)
      → All (IsMove steps source targets) (result_edges steps source step branches)
  result_edges-IsMove step none h k = edge_to-IsMove step.then_step _ _ h
  result_edges-IsMove step (some []) h k = edge_to-IsMove step.then_step _ _ h
  result_edges-IsMove step (some (b ∷ bs)) h k = branch_edges-IsMove _ (b ∷ bs) k

module _ (workflow : Workflow) (steps : Dict FlowStep) where
  -- The edges that the analysis makes of a step leave it for known steps that the runner's graph leads to
  -- from it, handlers included.
  pub step_edges-IsMove :
      (step : FlowStep)
      → All (IsMove steps step.name (targets_of workflow step)) (step_edges workflow steps step)
  unfolding step_edges normal_successors
  step_edges-IsMove step = All-where_true _ _ _ (
      All-append _ _ _
        (All-where_true _ (present step.condition) _
          (edge_to-IsMove steps step.name _ step.then_step _ _ next))
        (All-append _ _ _ (result_edges-IsMove steps step.name _ step step.on_result next branch) (
          All-append _ _ _ (timeout_edges-IsMove steps step.name _ step.wait_for timeout) (
            All-append _ _ _
              (All-where_true _ (present step.until) _
                (edge_to-IsMove steps step.name _ step.on_exhausted _ _ exhausted))
              (All-where_true _ (present step.op) _
                (edge_to-IsMove steps step.name _ _ _ _ handler))))))
    where
      next : (t : String) → In t (listed step.then_step) → In t (targets_of workflow step)
      next t i = In-left t (normal_successors step) _ (In-left t (listed step.then_step) _ i)

      branch :
          (t : String)
          → In t (elim step.on_result [ none ↦ [] | some bs ↦ branch_targets bs ])
          → In t (targets_of workflow step)
      branch t i = In-left t (normal_successors step) _ (
          In-right t (listed step.then_step) _
            (In-left t (elim step.on_result [ none ↦ [] | some bs ↦ branch_targets bs ]) _ i))

      timeout :
          (t : String) → In t (timeout_targets step.wait_for) → In t (targets_of workflow step)
      timeout t i = In-left t (normal_successors step) _ (
          In-right t (listed step.then_step) _ (
            In-right t (elim step.on_result [ none ↦ [] | some bs ↦ branch_targets bs ]) _
              (In-left t (timeout_targets step.wait_for) _ i)))

      exhausted : (t : String) → In t (listed step.on_exhausted) → In t (targets_of workflow step)
      exhausted t i = In-left t (normal_successors step) _ (
          In-right t (listed step.then_step) _ (
            In-right t (elim step.on_result [ none ↦ [] | some bs ↦ branch_targets bs ]) _
              (In-right t (timeout_targets step.wait_for) _ i)))

      handler :
          (t : String)
          → In t (listed (or_handler step.on_failure workflow.on_error))
          → In t (targets_of workflow step)
      handler t i = In-right t (normal_successors step) _ i
