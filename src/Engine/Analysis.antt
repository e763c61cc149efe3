-- ===== src/Engine/Analysis.antt =====
-- src/justflow/engine/analysis.py: the edges of a workflow's control flow, what they reach, and the issues
-- on reachability and sinks. An issue is known by its step. `outgoing edges name` stands for
-- `_group_outgoing(edges).get(name, [])`.
pub mod Edges
pub mod Reachable
use text.Mathlib.Text.{◌==◌ as str_eq}
use justflow.Common.{
  String, Bool, true, false, not, ◌&&◌, Option, none, some, List, [], ◌∷◌, ◌++◌, if◌then◌else◌,
}
use justflow.Common.Dict.{Dict, contains}
use justflow.Config.Models.{FlowStep, OnResultBranch, WaitForConfig, present}
use justflow.Engine.Worklist.{member, explore, enough_fuel}
use justflow.Engine.Runner.State.{Workflow}
use justflow.Engine.Runner.Graph.{branch_target, flow_steps, step_names, listed}
use justflow.Engine.Runner.Execute.{or_handler}

pub data EdgeKind : Type 0 where
  success condition_skip result_branch result_default wait_timeout loop_exhaustion failure :
      EdgeKind

pub record FlowEdge : Type 0 where
  pub source : String
  pub target : String
  pub kind : EdgeKind
  pub produced : List String

unfoldable pub produced_symbols : FlowStep → List String
produced_symbols step = if present step.sleep_sec then [] else step.name ∷ listed step.output

-- `if test: edges.append(...)`
abbrev pub where_true : Bool → List FlowEdge → List FlowEdge
where_true false edges = []
where_true true edges = edges

abbrev pub branch_kind : OnResultBranch → EdgeKind
branch_kind b = if present b.default then result_default else result_branch

module _ (steps : Dict FlowStep) (source : String) where
  -- an edge to a target that is a known step
  abbrev pub edge_to : Option String → EdgeKind → List String → List FlowEdge
  edge_to none kind produced = []
  edge_to (some target) kind produced =
      where_true (contains target steps)
        ((record { source = source; target = target; kind = kind; produced = produced }) ∷ [])

  unfoldable pub branch_edges : List String → List OnResultBranch → List FlowEdge
  unfolding contains
  branch_edges produced [] = []
  branch_edges produced (b ∷ bs) =
      edge_to (branch_target b) (branch_kind b) produced ++ branch_edges produced bs

  abbrev pub result_edges : FlowStep → Option (List OnResultBranch) → List FlowEdge
  result_edges step none = edge_to step.then_step success (produced_symbols step)
  result_edges step (some []) = edge_to step.then_step success (produced_symbols step)
  result_edges step (some (b ∷ bs)) = branch_edges (produced_symbols step) (b ∷ bs)

  abbrev pub timeout_edges : Option WaitForConfig → List FlowEdge
  timeout_edges none = []
  timeout_edges (some w) = edge_to w.on_timeout wait_timeout []

-- one round of the loop of `_build_edges`
unfoldable pub step_edges : Workflow → Dict FlowStep → FlowStep → List FlowEdge
unfolding contains branch_edges produced_symbols
step_edges workflow steps step = where_true (not step.terminal) (
    where_true (present step.condition) (edge_to steps step.name step.then_step condition_skip [])
    ++ (result_edges steps step.name step step.on_result
        ++ (timeout_edges steps step.name step.wait_for
            ++ (where_true (present step.until)
                  (edge_to steps step.name step.on_exhausted loop_exhaustion [])
                ++ where_true (present step.op) (
                    edge_to steps step.name (or_handler step.on_failure workflow.on_error) failure
                      ("error" ∷ []))))))

unfoldable pub build_edges : Workflow → Dict FlowStep → List FlowStep → List FlowEdge
unfolding step_edges
build_edges workflow steps [] = []
build_edges workflow steps (step ∷ flow) =
    step_edges workflow steps step ++ build_edges workflow steps flow

abbrev pub is_failure : EdgeKind → Bool
is_failure failure = true
is_failure _ = false

unfoldable pub execution_edges : List FlowEdge → List FlowEdge
execution_edges [] = []
execution_edges (e ∷ edges) =
    let rest = execution_edges edges in if is_failure e.kind then rest else e ∷ rest

unfoldable pub outgoing : List FlowEdge → String → List FlowEdge
outgoing [] name = []
outgoing (e ∷ edges) name =
    let rest = outgoing edges name in if str_eq e.source name then e ∷ rest else rest

unfoldable pub edge_targets : List FlowEdge → List String
edge_targets [] = []
edge_targets (e ∷ edges) = e.target ∷ edge_targets edges

-- Every name that is popped is entered.
unfoldable pub follow : List FlowEdge → String → Option (List String)
unfolding outgoing edge_targets
follow edges name = some (edge_targets (outgoing edges name))

unfoldable pub reachable : List FlowEdge → (entries : List String) → Option (List String)
unfolding follow explore enough_fuel edge_targets
reachable edges entries =
    explore (follow edges) (enough_fuel (follow edges) (entries ++ edge_targets edges) entries) []
      entries

-- the handlers of the steps of the normal flow
unfoldable pub handler_entries : List FlowEdge → (normal_reachable : List String) → List String
unfolding member
handler_entries [] normal_reachable = []
handler_entries (e ∷ edges) normal_reachable =
    let rest = handler_entries edges normal_reachable in
    if is_failure e.kind && member e.source normal_reachable then e.target ∷ rest else rest

unfoldable pub reachability_issues : (names reached : List String) → List String
unfolding member
reachability_issues [] reached = []
reachability_issues (name ∷ names) reached =
    let rest = reachability_issues names reached in
    if member name reached then rest else name ∷ rest

abbrev pub is_empty {ℓ} : {A : Type ℓ} → List A → Bool
is_empty [] = true
is_empty (x ∷ xs) = false

unfoldable pub sink_issues : List FlowStep → (reached : List String) → List FlowEdge → List String
unfolding member outgoing
sink_issues [] reached edges = []
sink_issues (step ∷ flow) reached edges =
    let rest = sink_issues flow reached edges in
    if member step.name reached && (not step.terminal && is_empty (outgoing edges step.name))
    then step.name ∷ rest
    else rest
