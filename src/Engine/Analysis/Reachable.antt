-- ===== src/Engine/Analysis/Reachable.antt =====
-- The search of engine/analysis.py along edges.
use mathlib.Core.Logic.{◌↔◌}
use text.Mathlib.Text.{◌==◌ as str_eq}
use text.Mathlib.TextEquality.{eq_iff}
use justflow.Common.{String, ◌≡◌, refl, inl, inr, some, List, [], ◌∷◌, ◌++◌, arith, Bool-cases}
use justflow.Engine.Worklist.{member}
use justflow.Engine.Worklist.Reaches.{In, Reaches, explore-closed_fuel, explore-Reaches}
use justflow.Engine.Runner.Audit.{In-left, In-right}
use justflow.Engine.Analysis.{FlowEdge, outgoing, edge_targets, follow, reachable}

outgoing-In :
    (edges : List FlowEdge) (name t : String)
    → In t (edge_targets (outgoing edges name))
    → In t (edge_targets edges)
unfolding outgoing edge_targets member
outgoing-In [] name t i = i
outgoing-In (e ∷ edges) name t i = ground (arith, outgoing-In edges name t)

followed :
    (edges : List FlowEdge) (entries : List String) (u : String) (ss : List String)
    → follow edges u ≡ some ss
    → (t : String) → In t ss
    → In t (entries ++ edge_targets edges)
unfolding follow
followed edges entries u ss e t i =
    let same : edge_targets (outgoing edges u) ≡ ss = cc e in
    In-right t entries _ (outgoing-In edges u t (rw same i))

-- An edge between two names.
pub data HasEdge (u t : String) : List FlowEdge → Type 0 where
  this_edge :
      (e : FlowEdge) (edges : List FlowEdge) → e.source ≡ u → e.target ≡ t → HasEdge u t (e ∷ edges)
  later_edge : (e : FlowEdge) (edges : List FlowEdge) → HasEdge u t edges → HasEdge u t (e ∷ edges)

-- The names that the entries lead to along the edges.
pub data Linked (edges : List FlowEdge) (entries : List String) : String → Type 0 where
  at_entry : {t : String} → In t entries → Linked edges entries t
  along : {u t : String} → Linked edges entries u → HasEdge u t edges → Linked edges entries t

outgoing-HasEdge :
    (u t : String) (edges : List FlowEdge)
    → In t (edge_targets (outgoing edges u))
    → HasEdge u t edges
unfolding outgoing edge_targets member
outgoing-HasEdge u t [] i = absurd (ground arith)
outgoing-HasEdge u t (e ∷ edges) i = elim (Bool-cases (str_eq e.source u)) [
  | inl same ↦ elim (Bool-cases (str_eq e.target t)) [
    | inl hit ↦ HasEdge.this_edge e edges ((eq_iff e.source u).0 same) ((eq_iff e.target t).0 hit)
    | inr miss ↦ HasEdge.later_edge e edges (outgoing-HasEdge u t edges (ground arith))
  ]
  | inr other ↦ HasEdge.later_edge e edges (outgoing-HasEdge u t edges (ground arith))
]

HasEdge-outgoing :
    (u t : String) (edges : List FlowEdge)
    → HasEdge u t edges
    → In t (edge_targets (outgoing edges u))
unfolding outgoing edge_targets member
HasEdge-outgoing u t _ (HasEdge.this_edge e edges p q) =
    let same = (eq_iff e.source u).1 p in let hit = (eq_iff e.target t).1 q in ground arith
HasEdge-outgoing u t _ (HasEdge.later_edge e edges h) = ground (arith, HasEdge-outgoing u t edges h)

module _ (edges : List FlowEdge) (entries : List String) where
  Reaches-Linked : (t : String) → Reaches (follow edges) entries t → Linked edges entries t
  unfolding follow
  Reaches-Linked t (Reaches.start ss i e) = Linked.at_entry i
  Reaches-Linked t (Reaches.step {u} us ts before e i e') =
      let same : edge_targets (outgoing edges u) ≡ us = cc e in
      Linked.along (Reaches-Linked u before) (outgoing-HasEdge u t edges (rw same i))

  Linked-Reaches : (t : String) → Linked edges entries t → Reaches (follow edges) entries t
  unfolding follow
  Linked-Reaches t (Linked.at_entry i) = Reaches.start _ i refl
  Linked-Reaches t (Linked.along {u} before h) =
      Reaches.step _ _ (Linked-Reaches u before) refl (HasEdge-outgoing u t edges h) refl

-- The search ends, and finds exactly the entries and the names that they lead to from the source of an
-- edge to its target.
pub reachable-Linked :
    (edges : List FlowEdge) (entries : List String)
    → (r : List String) × (reachable edges entries ≡ some r)
      × ((t : String) → In t r ↔ Linked edges entries t)
unfolding reachable
reachable-Linked edges entries =
    let visit = follow edges in
    let universe = entries ++ edge_targets edges in
    let (r, e) =
      explore-closed_fuel visit universe (followed edges entries) entries
        (λ t i. In-left t entries _ i) in
    (
      r,
      e,
      λ t.
          let (found, complete) = explore-Reaches visit entries _ e t in
          (
            (λ i. Reaches-Linked edges entries t (found i)),
            (λ l. complete (Linked-Reaches edges entries t l)),
          ),
    )
