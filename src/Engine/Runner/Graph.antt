-- ===== src/Engine/Runner/Graph.antt =====
-- The control-flow graph of engine/runner.py: `_normal_successors`, `_reachable_from_entry` and
-- `_handler_region`.
use text.Mathlib.Text.{◌==◌ as str_eq}
use justflow.Common.{String, Option, none, some, List, [], ◌∷◌, ◌++◌, if◌then◌else◌}
use mathlib.Core.Option
use justflow.Common.Dict.{Dict, lookup, insert}
use justflow.Config.Models.{FlowStep, OnResultBranch, WaitForConfig}
use justflow.Engine.Worklist.{member, explore, enough_fuel}

-- {step.name: step for step in flow}: a later step replaces an earlier one of its name
unfoldable pub add_steps : Dict FlowStep → List FlowStep → Dict FlowStep
unfolding insert
add_steps steps [] = steps
add_steps steps (s ∷ flow) = add_steps (insert s.name s steps) flow

unfoldable pub flow_steps : List FlowStep → Dict FlowStep
unfolding add_steps
flow_steps flow = add_steps [] flow

abbrev pub listed {ℓ} : {A : Type ℓ} → Option A → List A
listed none = []
listed (some a) = a ∷ []

-- branch.then or branch.default
abbrev pub branch_target : OnResultBranch → Option String
branch_target b = elim b.then_step [ some t ↦ some t | none ↦ b.default ]

unfoldable pub branch_targets : List OnResultBranch → List String
branch_targets [] = []
branch_targets (b ∷ bs) = listed (branch_target b) ++ branch_targets bs

abbrev pub timeout_targets : Option WaitForConfig → List String
timeout_targets none = []
timeout_targets (some w) = listed w.on_timeout

unfoldable pub normal_successors : FlowStep → List String
unfolding branch_targets
normal_successors step =
    listed step.then_step
    ++ (elim step.on_result [ none ↦ [] | some bs ↦ branch_targets bs ]
        ++ (timeout_targets step.wait_for ++ listed step.on_exhausted))

-- Every known step may be entered.
unfoldable pub visit_normal : Dict FlowStep → String → Option (List String)
unfolding normal_successors lookup
visit_normal steps current = Option.map normal_successors (lookup current steps)

-- A handler's region ends where the normal flow begins; an entry within the normal flow stands alone.
unfoldable pub visit_region :
    Dict FlowStep
    → (normal_reachable : List String) (entry : String) → String
    → Option (List String)
unfolding normal_successors lookup member
visit_region steps normal_reachable entry current = elim (lookup current steps) [
  | none ↦ none
  | some step ↦
      if member current normal_reachable
      then if str_eq current entry then some [] else none
      else some (normal_successors step)
]

unfoldable pub step_names : Dict FlowStep → List String
step_names [] = []
step_names ((k, s) ∷ steps) = k ∷ step_names steps

unfoldable pub reachable_from_entry : List FlowStep → Option (List String)
unfolding flow_steps visit_normal step_names explore enough_fuel
reachable_from_entry [] = some []
reachable_from_entry (first ∷ rest) =
    let steps = flow_steps (first ∷ rest) in
    let visit = visit_normal steps in
    explore visit (enough_fuel visit (step_names steps) (first.name ∷ [])) [] (first.name ∷ [])

unfoldable pub handler_region :
    Dict FlowStep → (normal_reachable : List String) (entry : String) → Option (List String)
unfolding visit_region step_names explore enough_fuel
handler_region steps normal_reachable entry =
    let visit = visit_region steps normal_reachable entry in
    explore visit (enough_fuel visit (step_names steps) (entry ∷ [])) [] (entry ∷ [])
