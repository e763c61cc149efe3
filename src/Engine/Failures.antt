-- ===== src/Engine/Failures.antt =====
-- src/justflow/engine/errors.py: `classify_failure` and its tables. The name and message that Temporal
-- attaches to an exception are read off the exception itself; whether it is marked as not retryable
-- is the parameter `non_retryable`.
use justflow.Common.{ℕ, zero, suc, List, [], ◌∷◌, String, Bool, false, not, Option, none, some}
use justflow.Engine.Exceptions.{Raised, FlowErrorKind, limit_exceeded, flow_definition}

-- engine/audit.py
pub data FailurePhase : Type 0 where
  trigger signal workflow_input parameters step handler result archive internal : FailurePhase

pub data FailureCategory : Type 0 where
  input definition contract execution infrastructure internal_category : FailureCategory

pub data FailureCode : Type 0 where
  invalid_trigger invalid_signal input_contract_failed parameters_failed step_failed : FailureCode
  handler_failed result_failed archival_failed internal_error limit_code : FailureCode

-- the code that is kept: of the exception's own kind, or of the failure
pub data StableCode : Type 0 where
  failure : FailureCode → StableCode
  kind : FlowErrorKind → StableCode

pub record FailureDetail : Type 0 where
  pub code : StableCode
  pub exception : Raised
  pub category : FailureCategory
  pub phase : FailurePhase
  pub retryable : Bool
  pub step : Option String

abbrev pub phase_code : FailurePhase → FailureCode
phase_code trigger = invalid_trigger
phase_code signal = invalid_signal
phase_code workflow_input = input_contract_failed
phase_code parameters = parameters_failed
phase_code step = step_failed
phase_code handler = handler_failed
phase_code result = result_failed
phase_code archive = archival_failed
phase_code internal = internal_error

abbrev pub phase_category : FailurePhase → FailureCategory
phase_category trigger = input
phase_category signal = input
phase_category parameters = input
phase_category workflow_input = contract
phase_category result = contract
phase_category step = execution
phase_category handler = execution
phase_category archive = infrastructure
phase_category internal = internal_category

abbrev pub or_code : Option FailureCode → FailurePhase → FailureCode
or_code none phase = phase_code phase
or_code (some code) phase = code

abbrev pub is_retryable : Option Bool → Bool
is_retryable none = false
is_retryable (some never) = not never

unfoldable pub classify_failure :
    (non_retryable : Raised → Option Bool)
    → Raised
    → FailurePhase
    → Option String
    → Option FailureCode
    → FailureDetail
classify_failure non_retryable (limit_exceeded k actual limit) phase step_name code = record {
  code = failure limit_code;
  exception = limit_exceeded k actual limit;
  category = phase_category phase;
  phase = phase;
  retryable = false;
  step = step_name;
}
classify_failure non_retryable (flow_definition k) phase step_name code = record {
  code = kind k;
  exception = flow_definition k;
  category = definition;
  phase = phase;
  retryable = false;
  step = step_name;
}
classify_failure non_retryable e phase step_name code = record {
  code = failure (or_code code phase);
  exception = e;
  category = phase_category phase;
  phase = phase;
  retryable = is_retryable (non_retryable e);
  step = step_name;
}

abbrev pub max_secondary_failures : ℕ
max_secondary_failures = 4

unfoldable pub first_failures : ℕ → List FailureDetail → List FailureDetail
first_failures zero failures = []
first_failures (suc n) [] = []
first_failures (suc n) (f ∷ failures) = f ∷ first_failures n failures

-- FlowExecutionError: the failure that a run is judged by, and those that followed it
pub record ExecutionError : Type 0 where
  pub classification : FailureDetail
  pub secondary : List FailureDetail

-- `build_execution_error` of a given primary failure
unfoldable pub build_execution_error : FailureDetail → List FailureDetail → ExecutionError
unfolding first_failures
build_execution_error primary secondary = record {
  classification = primary;
  secondary = first_failures max_secondary_failures secondary;
}
