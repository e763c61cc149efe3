-- ===== src/Engine/Runner/Successors.antt =====
-- The ways on from a step, which `_normal_successors` of engine/runner.py lists.
use text.Mathlib.Text.{◌==◌ as str_eq}
use text.Mathlib.TextEquality.{eq_iff}
use justflow.Common.{
  String, ◌≡◌, refl, ◌⊎◌, Option, none, some, inl, inr, List, [], ◌∷◌, ◌++◌, ◌∙◌, ap, arith,
  Option-cases, Bool-cases,
}
use justflow.Config.Models.{FlowStep, OnResultBranch, WaitForConfig}
use justflow.Engine.Worklist.{member}
use justflow.Engine.Worklist.Reaches.{In, In-head}
use justflow.Engine.Runner.Graph.{
  listed, branch_target, branch_targets, timeout_targets, normal_successors,
}
use justflow.Engine.Runner.Audit.{In-left, In-right}

-- `then`, or else `default`, of a branch
pub data BranchGoes (t : String) : List OnResultBranch → Type 0 where
  branch_then :
      (b : OnResultBranch) (bs : List OnResultBranch) → b.then_step ≡ some t → BranchGoes t (b ∷ bs)
  branch_default :
      (b : OnResultBranch) (bs : List OnResultBranch)
      → b.then_step ≡ none
      → b.default ≡ some t
      → BranchGoes t (b ∷ bs)
  later_branch :
      (b : OnResultBranch) (bs : List OnResultBranch) → BranchGoes t bs → BranchGoes t (b ∷ bs)

-- The ways on from a step of the normal flow.
pub data Goes (s : FlowStep) (t : String) : Type 0 where
  goes_then : s.then_step ≡ some t → Goes s t
  goes_branch : (bs : List OnResultBranch) → s.on_result ≡ some bs → BranchGoes t bs → Goes s t
  goes_timeout : (w : WaitForConfig) → s.wait_for ≡ some w → w.on_timeout ≡ some t → Goes s t
  goes_exhausted : s.on_exhausted ≡ some t → Goes s t

In-listed : (t : String) (o : Option String) → In t (listed o) → o ≡ some t
unfolding member
In-listed t none i = absurd (ground arith)
In-listed t (some u) i = elim (Bool-cases (str_eq u t)) [
  | inl same ↦ ap some ((eq_iff u t).0 same)
  | inr other ↦ absurd (ground arith)
]

listed-In : (t : String) (o : Option String) → o ≡ some t → In t (listed o)
listed-In t o e = rw (e) (In-head t [])

In-cases : (t : String) (xs ys : List String) → In t (xs ++ ys) → In t xs ⊎ In t ys
unfolding member
In-cases t [] ys i = inr i
In-cases t (x ∷ xs) ys i = elim (Bool-cases (str_eq x t)) [
  | inl same ↦ inl (rw (same) refl)
  | inr other ↦ rw (other) (In-cases t xs ys (rw other at i))
]

target_BranchGoes :
    (b : OnResultBranch) (bs : List OnResultBranch) (t : String)
    → branch_target b ≡ some t
    → BranchGoes t (b ∷ bs)
target_BranchGoes b bs t e = elim (Option-cases b.then_step) [
  | inl missing ↦ BranchGoes.branch_default b bs missing (rw missing at e)
  | inr (u, found) ↦ BranchGoes.branch_then b bs (found ∙ rw found at e)
]

In-BranchGoes : (bs : List OnResultBranch) (t : String) → In t (branch_targets bs) → BranchGoes t bs
unfolding branch_targets member
In-BranchGoes [] t i = absurd (ground arith)
In-BranchGoes (b ∷ bs) t i = elim (In-cases t (listed (branch_target b)) (branch_targets bs) i) [
  | inl h ↦ target_BranchGoes b bs t (In-listed t (branch_target b) h)
  | inr h ↦ BranchGoes.later_branch b bs (In-BranchGoes bs t h)
]

BranchGoes-In : (t : String) (bs : List OnResultBranch) → BranchGoes t bs → In t (branch_targets bs)
unfolding branch_targets
BranchGoes-In t _ (BranchGoes.branch_then b bs e) =
    In-left t (listed (branch_target b)) _ (listed-In t (branch_target b) (rw e))
BranchGoes-In t _ (BranchGoes.branch_default b bs e e') =
    In-left t (listed (branch_target b)) _ (listed-In t (branch_target b) (rw (e) e'))
BranchGoes-In t _ (BranchGoes.later_branch b bs h) =
    In-right t (listed (branch_target b)) _ (BranchGoes-In t bs h)

pub In-Goes : (s : FlowStep) (t : String) → In t (normal_successors s) → Goes s t
unfolding normal_successors member
In-Goes s t i = elim (In-cases t (listed s.then_step) _ i) [
  | inl h ↦ Goes.goes_then (In-listed t s.then_step h)
  | inr h ↦
      elim (In-cases t (elim s.on_result [ none ↦ [] | some bs ↦ branch_targets bs ])
        (timeout_targets s.wait_for ++ listed s.on_exhausted) h) [
          | inl j ↦ In-branches s.on_result refl j
          | inr j ↦ elim (In-cases t (timeout_targets s.wait_for) (listed s.on_exhausted) j) [
            | inl k ↦ In-timeout s.wait_for refl k
            | inr k ↦ Goes.goes_exhausted (In-listed t s.on_exhausted k)
          ]
        ]
]
  where
    In-branches :
        (o : Option (List OnResultBranch))
        → s.on_result ≡ o
        → In t (elim o [ none ↦ [] | some bs ↦ branch_targets bs ])
        → Goes s t
    In-branches none e j = absurd (ground arith)
    In-branches (some bs) e j = Goes.goes_branch bs e (In-BranchGoes bs t j)

    In-timeout : (o : Option WaitForConfig) → s.wait_for ≡ o → In t (timeout_targets o) → Goes s t
    In-timeout none e j = absurd (ground arith)
    In-timeout (some w) e j = Goes.goes_timeout w e (In-listed t w.on_timeout j)

pub Goes-In : (s : FlowStep) (t : String) → Goes s t → In t (normal_successors s)
unfolding normal_successors
Goes-In s t (Goes.goes_then e) = In-left t (listed s.then_step) _ (listed-In t s.then_step e)
Goes-In s t (Goes.goes_branch bs e h) = In-right t (listed s.then_step) _ (
    In-left t (elim s.on_result [ none ↦ [] | some bs ↦ branch_targets bs ]) _
      (rw e (BranchGoes-In t bs h)))
Goes-In s t (Goes.goes_timeout w e e') = In-right t (listed s.then_step) _ (
    In-right t (elim s.on_result [ none ↦ [] | some bs ↦ branch_targets bs ]) _
      (In-left t (timeout_targets s.wait_for) _ (rw e (listed-In t w.on_timeout e'))))
Goes-In s t (Goes.goes_exhausted e) = In-right t (listed s.then_step) _ (
    In-right t (elim s.on_result [ none ↦ [] | some bs ↦ branch_targets bs ]) _
      (In-right t (timeout_targets s.wait_for) _ (listed-In t s.on_exhausted e)))
