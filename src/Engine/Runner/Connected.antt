-- ===== src/Engine/Runner/Connected.antt =====
-- The steps that the graph searches of engine/runner.py are to find.
use text.Mathlib.Text.{◌==◌ as str_eq}
use text.Mathlib.TextEquality.{eq_iff}
use justflow.Common.{
  String, ◌≡◌, refl, sym, some, inl, inr, List, [], ◌∷◌, ◌∙◌, ap, arith, Option-cases, Bool-cases,
}
use justflow.Common.Dict.{Dict, lookup}
use justflow.Config.Models.{FlowStep}
use justflow.Engine.Worklist.{member}
use justflow.Engine.Worklist.Reaches.{In, In-head, Reaches}
use justflow.Engine.Runner.Graph.{normal_successors, visit_normal, visit_region}
use justflow.Engine.Runner.Successors.{Goes, In-Goes, Goes-In}

-- The known steps that the first one leads to.
pub data Connects (steps : Dict FlowStep) (first : String) : String → Type 0 where
  entered : (s : FlowStep) → lookup first steps ≡ some s → Connects steps first first
  followed :
      {u t : String} (s s' : FlowStep)
      → Connects steps first u
      → lookup u steps ≡ some s
      → Goes s t
      → lookup t steps ≡ some s'
      → Connects steps first t

-- The known steps that a handler's entry leads to without passing through the normal flow.
pub data Escapes (steps : Dict FlowStep) (normal_reachable : List String) (entry : String)
    : String → Type 0 where
  at_entry :
      (s : FlowStep) → lookup entry steps ≡ some s → Escapes steps normal_reachable entry entry
  onward :
      {u t : String} (s s' : FlowStep)
      → Escapes steps normal_reachable entry u
      → ¬ In u normal_reachable
      → lookup u steps ≡ some s
      → Goes s t
      → lookup t steps ≡ some s'
      → ¬ In t normal_reachable
      → Escapes steps normal_reachable entry t

module _ (steps : Dict FlowStep) (first : String) where
  normal_known :
      (u : String) (us : List String)
      → visit_normal steps u ≡ some us
      → (s : FlowStep) × (lookup u steps ≡ some s) × (normal_successors s ≡ us)
  unfolding visit_normal
  normal_known u us e = elim (Option-cases (lookup u steps)) [
    | inl missing ↦ absurd (ground arith)
    | inr (s, found) ↦ (s, found, ground arith)
  ]

  known_normal :
      (u : String) (s : FlowStep)
      → lookup u steps ≡ some s
      → visit_normal steps u ≡ some (normal_successors s)
  unfolding visit_normal
  known_normal u s e = rw (e) refl

  only : (t : String) → In t (first ∷ []) → first ≡ t
  unfolding member
  only t i = elim (Bool-cases (str_eq first t)) [
    | inl same ↦ (eq_iff first t).0 same
    | inr other ↦ absurd (ground arith)
  ]

  first_entered :
      (t : String) (s : FlowStep) → first ≡ t → lookup t steps ≡ some s → Connects steps first t
  first_entered t s e found = rw (sym e) (Connects.entered s (ap (λ u. lookup u steps) e ∙ found))

  pub Reaches-Connects :
      (t : String) → Reaches (visit_normal steps) (first ∷ []) t → Connects steps first t
  Reaches-Connects t (Reaches.start ss i e) =
      let (s, found, same) = normal_known t ss e in first_entered t s (only t i) found
  Reaches-Connects t (Reaches.step {u} us ts before e i e') =
      let (s, found, same) = normal_known u us e in
      let (s', found', same') = normal_known t ts e' in
      Connects.followed s s' (Reaches-Connects u before) found (In-Goes s t (rw (same) i)) found'

  pub Connects-Reaches :
      (t : String) → Connects steps first t → Reaches (visit_normal steps) (first ∷ []) t
  Connects-Reaches t (Connects.entered s e) =
      Reaches.start (normal_successors s) (In-head first []) (known_normal first s e)
  Connects-Reaches t (Connects.followed {u} s s' before e g e') =
      Reaches.step (normal_successors s) (normal_successors s') (Connects-Reaches u before)
        (known_normal u s e) (Goes-In s t g) (known_normal t s' e')

module _ (steps : Dict FlowStep) (normal_reachable : List String) (entry : String) where
  region_known :
      (u : String) (us : List String)
      → visit_region steps normal_reachable entry u ≡ some us
      → (s : FlowStep) × (lookup u steps ≡ some s)
        × ((In u normal_reachable → (u ≡ entry) × (us ≡ []))
            × (¬ In u normal_reachable → us ≡ normal_successors s))
  unfolding visit_region
  region_known u us e = elim (Option-cases (lookup u steps)) [
    | inl missing ↦ absurd (ground arith)
    | inr (s, found) ↦ elim (Bool-cases (member u normal_reachable)) [
      | inl inside ↦ elim (Bool-cases (str_eq u entry)) [
        | inl same ↦
            (s, found, ((λ i. ((eq_iff u entry).0 same, ground arith)), (λ o. absurd (o inside))))
        | inr other ↦ absurd (ground arith)
      ]
      | inr outside ↦ (s, found, ((λ i. absurd (ground arith)), (λ o. ground arith)))
    ]
  ]

  known_region :
      (u : String) (s : FlowStep)
      → lookup u steps ≡ some s
      → ¬ In u normal_reachable
      → visit_region steps normal_reachable entry u ≡ some (normal_successors s)
  unfolding visit_region
  known_region u s e o = elim (Bool-cases (member u normal_reachable)) [
    | inl inside ↦ absurd (o inside)
    | inr outside ↦ rw (visit_region, e, outside) refl
  ]

  entry_region :
      (s : FlowStep)
      → lookup entry steps ≡ some s
      → (us : List String) × (visit_region steps normal_reachable entry entry ≡ some us)
  unfolding visit_region
  entry_region s e = elim (Bool-cases (member entry normal_reachable)) [
    | inl inside ↦ ([], rw (visit_region, e, inside, (eq_iff entry entry).1 refl) refl)
    | inr outside ↦ (normal_successors s, rw (visit_region, e, outside) refl)
  ]

  entry_escaped :
      (t : String) (s : FlowStep)
      → entry ≡ t
      → lookup t steps ≡ some s
      → Escapes steps normal_reachable entry t
  entry_escaped t s e found = rw (sym e) (Escapes.at_entry s (ap (λ u. lookup u steps) e ∙ found))

  pub Reaches-Escapes :
      (t : String)
      → Reaches (visit_region steps normal_reachable entry) (entry ∷ []) t
      → Escapes steps normal_reachable entry t
  unfolding member
  Reaches-Escapes t (Reaches.start ss i e) =
      let (s, found, rest) = region_known t ss e in entry_escaped t s (only steps entry t i) found
  Reaches-Escapes t (Reaches.step {u} us ts before e i e') =
      let (s, found, (inside, outside)) = region_known u us e in
      let (s', found', (inside', outside')) = region_known t ts e' in
      elim (Bool-cases (member u normal_reachable)) [
        | inl h ↦ absurd (nothing t us ((inside h).1) i)
        | inr h ↦
            let off : ¬ In u normal_reachable = λ n. absurd (ground arith) in
            elim (Bool-cases (member t normal_reachable)) [
              | inl h' ↦ entry_escaped t s' (sym ((inside' h').0)) found'
              | inr h' ↦
                  Escapes.onward s s' (Reaches-Escapes u before) off found
                    (In-Goes s t (rw (sym (outside off)) i)) found' (λ n. absurd (ground arith))
            ]
      ]
    where
      nothing : (t : String) (us : List String) → us ≡ [] → In t us → ⊥
      nothing t [] e i = absurd (ground arith)
      nothing t (u ∷ us) e i = absurd (cc)

  pub Escapes-Reaches :
      (t : String)
      → Escapes steps normal_reachable entry t
      → Reaches (visit_region steps normal_reachable entry) (entry ∷ []) t
  Escapes-Reaches t (Escapes.at_entry s e) =
      let (us, visited) = entry_region s e in Reaches.start us (In-head entry []) visited
  Escapes-Reaches t (Escapes.onward {u} s s' before o e g e' o') =
      Reaches.step (normal_successors s) (normal_successors s') (Escapes-Reaches u before)
        (known_region u s e o) (Goes-In s t g) (known_region t s' e' o')
