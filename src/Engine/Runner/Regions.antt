-- ===== src/Engine/Runner/Regions.antt =====
-- The names that the graph searches of engine/runner.py find.
use mathlib.Core.Logic.{◌↔◌}
use text.Mathlib.Text.{◌==◌ as str_eq}
use text.Mathlib.TextEquality.{eq_iff}
use justflow.Common.{String, ◌≡◌, some, inl, inr, List, [], ◌∷◌, arith, Option-cases, Bool-cases}
use justflow.Common.Dict.{Dict, lookup}
use justflow.Config.Models.{FlowStep}
use justflow.Engine.Worklist.{member}
use justflow.Engine.Worklist.Reaches.{In, Reaches, explore-enough_fuel, explore-Reaches}
use justflow.Engine.Runner.Graph.{
  flow_steps, visit_normal, visit_region, step_names, reachable_from_entry, handler_region,
}
use justflow.Engine.Runner.Connected.{
  Connects, Escapes, Reaches-Connects, Connects-Reaches, Reaches-Escapes, Escapes-Reaches,
}

lookup-step_names :
    (u : String) (steps : Dict FlowStep) {s : FlowStep}
    → lookup u steps ≡ some s
    → In u (step_names steps)
unfolding lookup step_names member
lookup-step_names u [] e = absurd (cc)
lookup-step_names u ((k, s') ∷ steps) e = elim (Bool-cases (str_eq k u)) [
  | inl same ↦ rw (same, member)
  | inr other ↦ rw (other, member) (lookup-step_names u steps (rw other at e))
]

visit_normal_known :
    (steps : Dict FlowStep) (u : String) (ss : List String)
    → visit_normal steps u ≡ some ss
    → In u (step_names steps)
unfolding visit_normal
visit_normal_known steps u ss e = elim (Option-cases (lookup u steps)) [
  | inl missing ↦ absurd (ground arith)
  | inr (s, found) ↦ lookup-step_names u steps found
]

visit_region_known :
    (steps : Dict FlowStep) (normal_reachable : List String) (entry u : String) (ss : List String)
    → visit_region steps normal_reachable entry u ≡ some ss
    → In u (step_names steps)
unfolding visit_region
visit_region_known steps normal_reachable entry u ss e = elim (Option-cases (lookup u steps)) [
  | inl missing ↦ absurd (ground arith)
  | inr (s, found) ↦ lookup-step_names u steps found
]

-- The loop of `_reachable_from_entry` ends, and the set it returns holds exactly the known steps that
-- the first one leads to by `then`, by a branch's `then` or else `default`, by a wait's `on_timeout` and by
-- `on_exhausted`.
pub reachable_from_entry-Connects :
    (first : FlowStep) (rest : List FlowStep)
    → (r : List String) × (reachable_from_entry (first ∷ rest) ≡ some r)
      × ((t : String) → In t r ↔ Connects (flow_steps (first ∷ rest)) first.name t)
unfolding reachable_from_entry
reachable_from_entry-Connects first rest =
    let steps = flow_steps (first ∷ rest) in
    let visit = visit_normal steps in
    let (r, e) =
      explore-enough_fuel visit (step_names steps) (visit_normal_known steps) (first.name ∷ []) in
    (
      r,
      e,
      λ t.
          let (found, complete) = explore-Reaches visit (first.name ∷ []) _ e t in
          (
            (λ i. Reaches-Connects steps first.name t (found i)),
            (λ c. complete (Connects-Reaches steps first.name t c)),
          ),
    )

-- The loop of `_handler_region` ends, and the set it returns holds exactly the entry, if it is known, and
-- the known steps that it leads to along steps that are, each of them, outside the normal flow.
pub handler_region-Escapes :
    (steps : Dict FlowStep) (normal_reachable : List String) (entry : String)
    → (r : List String) × (handler_region steps normal_reachable entry ≡ some r)
      × ((t : String) → In t r ↔ Escapes steps normal_reachable entry t)
unfolding handler_region
handler_region-Escapes steps normal_reachable entry =
    let visit = visit_region steps normal_reachable entry in
    let (r, e) =
      explore-enough_fuel visit (step_names steps) (visit_region_known steps normal_reachable entry)
        (entry ∷ []) in
    (
      r,
      e,
      λ t.
          let (found, complete) = explore-Reaches visit (entry ∷ []) _ e t in
          (
            (λ i. Reaches-Escapes steps normal_reachable entry t (found i)),
            (λ c. complete (Escapes-Reaches steps normal_reachable entry t c)),
          ),
    )

module _ (steps : Dict FlowStep) (normal_reachable : List String) (entry : String) where
  entered_outside :
      (t : String) (ts : List String)
      → visit_region steps normal_reachable entry t ≡ some ts
      → In t normal_reachable
      → t ≡ entry
  unfolding visit_region
  entered_outside t ts e i = elim (Option-cases (lookup t steps)) [
    | inl missing ↦ absurd (ground arith)
    | inr (s, found) ↦ elim (Bool-cases (str_eq t entry)) [
      | inl same ↦ (eq_iff t entry).0 same
      | inr other ↦ absurd (ground arith)
    ]
  ]

  Reaches-outside :
      (t : String)
      → Reaches (visit_region steps normal_reachable entry) (entry ∷ []) t
      → In t normal_reachable
      → t ≡ entry
  Reaches-outside t (Reaches.start ss i e) n = entered_outside t ss e n
  Reaches-outside t (Reaches.step us ts before e i e') n = entered_outside t ts e' n

  -- The set that `_handler_region` returns shares with the normal flow at most the entry.
  pub handler_region_outside :
      (r : List String) (t : String)
      → handler_region steps normal_reachable entry ≡ some r
      → In t r
      → In t normal_reachable
      → t ≡ entry
  unfolding handler_region
  handler_region_outside r t e i n =
      Reaches-outside t
        ((explore-Reaches (visit_region steps normal_reachable entry) (entry ∷ []) _ e t).0 i) n
