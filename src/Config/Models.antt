-- ===== src/Config/Models.antt =====
-- src/justflow/config/models.py: the declarations of a workflow, and the validators of a flow step
-- and of a workflow's branches. A field that pydantic bounds (a name, a positive number) is taken as
-- its field constraint leaves it. A condition is its text.
use justflow.Common.{
  ℕ, String, Bool, true, false, not, ◌&&◌, ◌||◌, Option, none, some, List, [], ◌∷◌, ◌==◌,
  if◌then◌else◌, ◌+◌,
}
use justflow.Common.Dict.{Dict}
use justflow.Engine.Exceptions.{value_error, Result, ok, guard, ◌>>◌}
use justflow.Engine.Data.Objects.{Entries, end}
use justflow.Engine.Data.Paths.{Token}

-- config/grammar.py: a parsed reference
pub record ReferencePath : Type 0 where
  pub root : String
  pub path : List Token

pub data IterationFailStrategy : Type 0 where
  stop skip collect : IterationFailStrategy

pub data When : Type 0 where
  inline : String → When
  evaluator : (name : String) (resources : List String) → When

pub record OnResultBranch : Type 0 where
  pub when : Option When
  pub default : Option String
  pub then_step : Option String

pub record WaitForConfig : Type 0 where
  pub signal : String
  pub timeout_sec : Option ℕ
  pub timeout_until : Option ReferencePath
  pub on_timeout : Option String

pub data StepInput : Type 0 where
  single : ReferencePath → StepInput
  named : Dict ReferencePath → StepInput
  listed : List ReferencePath → StepInput

pub record FlowStep : Type 0 where
  pub name : String
  pub op : Option String
  pub input : Option StepInput
  pub output : Option String
  pub params : Entries
  pub then_step : Option String
  pub on_result : Option (List OnResultBranch)
  pub condition : Option String
  pub for_each : Option ReferencePath
  pub as_var : Option String
  pub parallel : Bool
  pub max_concurrency : Option ℕ
  pub on_iteration_fail : Option IterationFailStrategy
  pub wait_for : Option WaitForConfig
  pub sleep_sec : Option ℕ
  pub until : Option String
  pub max_iterations : Option ℕ
  pub interval_sec : Option ℕ
  pub on_exhausted : Option String
  pub on_failure : Option String
  pub terminal : Bool
  pub reason : Option String

-- x is not None
abbrev pub present {ℓ} : {A : Type ℓ} → Option A → Bool
present none = false
present (some a) = true

-- bool(step.on_result)
abbrev pub branches {ℓ} : {A : Type ℓ} → Option (List A) → Bool
branches none = false
branches (some []) = false
branches (some (b ∷ bs)) = true

abbrev pub has_params : Entries → Bool
has_params end = false
has_params _ = true

-- OnResultBranch.validate_branch
unfoldable pub validate_branch : OnResultBranch → Result (Unit {0})
validate_branch b = do
  guard (present b.default || present b.when) value_error
  guard (not (present b.default && present b.when)) value_error
  guard (not (present b.when) || present b.then_step) value_error

-- WaitForConfig.validate_bounded
unfoldable pub validate_bounded : WaitForConfig → Result (Unit {0})
validate_bounded w = guard (present w.timeout_sec || present w.timeout_until) value_error

unfoldable pub terminal_conflicts : FlowStep → Bool
terminal_conflicts s =
    present s.op
    || present s.input
    || present s.output
    || has_params s.params
    || present s.then_step
    || present s.on_result
    || present s.condition
    || present s.for_each
    || present s.as_var
    || present s.max_concurrency
    || present s.on_iteration_fail
    || present s.wait_for
    || present s.sleep_sec
    || present s.until
    || present s.max_iterations
    || present s.interval_sec
    || present s.on_exhausted
    || present s.on_failure

abbrev pub count : Bool → ℕ
count true = 1
count false = 0

-- the loop fields, under and without `until`
unfoldable pub validate_until : FlowStep → Result (Unit {0})
validate_until s =
    if present s.until
    then (do
      guard (present s.op) value_error
      guard (not (present s.for_each)) value_error
      guard (present s.max_iterations) value_error)
    else guard (not (present s.max_iterations || present s.interval_sec || present s.on_exhausted))
        value_error

unfoldable pub validate_running_step : FlowStep → Result (Unit {0})
unfolding validate_until
validate_running_step s = do
  guard (count (present s.op) + count (present s.wait_for) + count (present s.sleep_sec) == 1)
      value_error
  guard
      (not (
        (present s.wait_for || present s.sleep_sec) && (present s.for_each || present s.condition)))
      value_error
  guard (not (present s.on_failure && (present s.wait_for || present s.sleep_sec))) value_error
  guard (not (present s.sleep_sec && (branches s.on_result || present s.output))) value_error
  validate_until s
  guard (not (present s.then_step && branches s.on_result && not (present s.condition))) value_error
  guard (not (present s.condition && not (present s.then_step))) value_error
  guard (not (s.parallel && not (present s.for_each))) value_error
  guard (not (s.parallel && not (present s.max_concurrency))) value_error
  guard (not (present s.max_concurrency && not s.parallel)) value_error
  guard (not (not (present s.then_step) && not (branches s.on_result))) value_error

-- FlowStep.validate_flow_step
unfoldable pub validate_flow_step : FlowStep → Result (Unit {0})
unfolding terminal_conflicts validate_running_step
validate_flow_step s =
    if s.terminal
    then (do guard (not (terminal_conflicts s)) value_error; guard (not s.parallel) value_error)
    else validate_running_step s

-- The `default` of `on_result` stands last and nowhere else (WorkflowConfig.validate_workflow).
unfoldable pub default_is_last : List OnResultBranch → Bool
default_is_last [] = false
default_is_last (b ∷ []) = present b.default
default_is_last (b ∷ (b' ∷ bs)) = not (present b.default) && default_is_last (b' ∷ bs)

unfoldable pub validate_branches : Option (List OnResultBranch) → Result (Unit {0})
unfolding default_is_last
validate_branches none = ok tt
validate_branches (some []) = ok tt
validate_branches (some (b ∷ bs)) = guard (default_is_last (b ∷ bs)) value_error
