-- ===== src/Engine/Worklist.antt =====
-- The worklist loop that engine/runner.py and engine/analysis.py write three times: pop a name, skip
-- it if it is known or may not be entered, else add it and push its successors. `visit` gives the
-- successors of a name that may be entered. A set is the list of its members; the stack's top stands
-- first.
pub mod Reaches
use text.Mathlib.Text.{◌==◌ as str_eq}
use justflow.Common.{
  ℕ, zero, suc, ◌+◌, String, Bool, true, false, Option, none, some, List, [], ◌∷◌, ◌++◌,
  if◌then◌else◌, length,
}

-- t in names
unfoldable pub member : String → List String → Bool
member t [] = false
member t (x ∷ xs) = if str_eq x t then true else member t xs

-- pending.extend(names)
unfoldable pub push_all : (names pending : List String) → List String
push_all [] pending = pending
push_all (x ∷ xs) pending = push_all xs (x ∷ pending)

abbrev pub enter : Bool → Option (List String) → Option (List String)
enter true successors = none
enter false successors = successors

module _ (visit : String → Option (List String)) where
  -- `none` means that the fuel ran out.
  unfoldable pub explore : (fuel : ℕ) (reached pending : List String) → Option (List String)
  unfolding member push_all
  explore zero reached pending = none
  explore (suc fuel) reached [] = some reached
  explore (suc fuel) reached (current ∷ pending) =
      elim (enter (member current reached) (visit current)) [
        | none ↦ explore fuel reached pending
        | some successors ↦ explore fuel (current ∷ reached) (push_all successors pending)
      ]

  abbrev pub out_degree : String → ℕ
  out_degree u = elim (visit u) [ none ↦ 0 | some successors ↦ length successors ]

  -- The pushes that are still to come.
  unfoldable pub weight : (universe reached : List String) → ℕ
  weight [] reached = 0
  weight (u ∷ us) reached =
      let rest = weight us reached in if member u reached then rest else out_degree u + rest

  -- One round for each name that is or will be pushed, and one for the empty stack.
  unfoldable pub enough_fuel : (universe pending : List String) → ℕ
  unfolding weight
  enough_fuel universe pending = length pending + weight universe [] + 1
