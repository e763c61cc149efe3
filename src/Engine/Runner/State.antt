-- ===== src/Engine/Runner/State.antt =====
-- The state of a run (engine/runner.py: `_RunState`, the invocation counter of `FlowRunner`, and the
-- local `seq` of `_execute`), the declarations that it reads, and the executor and the other code
-- behind interfaces. Times are natural numbers of seconds. An audit entry keeps its position, status,
-- output and loop counts; its texts and times are left out.
use justflow.Common.{ℕ, String, Bool, Option, List}
use justflow.Common.Dict.{Dict}
use justflow.Config.Models.{ReferencePath, FlowStep}
use justflow.Engine.Exceptions.{Raised, Result}
use justflow.Engine.Failures.{FailurePhase, FailureDetail, ExecutionError}
use justflow.Engine.Data.Objects.{Object, Entries, Float}
use justflow.Engine.Evaluator.Syntax.{Parsed}

-- config/models.py
pub data StepTarget : Type 0 where
  service_operation : (service action : String) → StepTarget
  child_workflow : (workflow : String) → StepTarget

pub record CacheConfig : Type 0 where
  pub resource : String
  pub key : String
  pub ttl_sec : Option ℕ

pub record StepDefinition : Type 0 where
  pub target : StepTarget
  pub params : Entries
  pub required_resources : List String
  pub cache : Option CacheConfig

-- config/runtime_limits.py, the limits that the runner reads
pub record RuntimeLimits : Type 0 where
  pub collection_items : ℕ
  pub fanout_items : ℕ
  pub fanout_chunk_items : ℕ
  pub parallelism : ℕ
  pub loop_attempts : ℕ
  pub total_invocations : ℕ
  pub workflow_state_bytes : ℕ
  pub trigger_payload_bytes : ℕ
  pub workflow_output_bytes : ℕ
  pub audit_record_bytes : ℕ
  pub history_events : ℕ
  pub history_bytes : ℕ

-- A schema is known by whether it is there; the executor checks it.
pub data Direction : Type 0 where
  workflow_input workflow_output : Direction

-- What a `FlowRunner` is made with; `services` maps a service to its params, and `on_complete` is the
-- path that a record is archived at.
pub record Workflow : Type 0 where
  pub flow : List FlowStep
  pub steps : Dict StepDefinition
  pub services : Dict Entries
  pub on_error : Option String
  pub params : Entries
  pub has_input_schema : Bool
  pub has_output_schema : Bool
  pub result : Option ReferencePath
  pub on_complete : Option String
  pub limits : RuntimeLimits
  pub bounded_execution_enabled : Bool

pub data StepStatus : Type 0 where
  succeeded skipped timed_out slept exhausted failed : StepStatus

pub data Matched : Type 0 where
  timeout error exhausted_loop default_branch : Matched
  by_evaluator by_condition : String → Matched

pub record TransitionRecord : Type 0 where
  pub step : String
  pub matched : Matched
  pub target : String

pub record StepAuditEntry : Type 0 where
  pub seq : ℕ
  pub status : StepStatus
  pub output : Option Object
  pub attempts : Option ℕ
  pub items : Option (ℕ × ℕ)

pub record FailureEpisode : Type 0 where
  pub primary : FailureDetail
  pub handler : String
  pub handler_steps : List String

-- the key of an item: an index of a list, or a key of a dict
pub data IterationKey : Type 0 where
  at : ℕ → IterationKey
  under : String → IterationKey

-- engine/continuation.py
pub data IterationResult : Type 0 where
  included : IterationKey → Object → IterationResult
  omitted : IterationKey → IterationResult

pub data LoopCheckpoint : Type 0 where
  iteration :
      (step_name : String) (next_offset : ℕ) (results : List IterationResult) (failed : ℕ)
      → LoopCheckpoint
  until_loop : (step_name : String) (attempts_completed : ℕ) (last_result : Object) → LoopCheckpoint

pub record RunState : Type 0 where
  pub params : Entries
  pub step_outputs : Entries
  pub step_timings : Dict StepAuditEntry
  pub transitions : List TransitionRecord
  pub failures : List FailureDetail
  pub active_episode : Option FailureEpisode
  pub invocations : ℕ
  pub seq : ℕ
  pub phase : FailurePhase
  pub current_step_name : Option String
  pub next_seq : ℕ

pub record RunnerCheckpoint : Type 0 where
  pub state : RunState
  pub next_step_name : String
  pub loop : Option LoopCheckpoint

-- The name of an invocation: `step`, `step#3`, `step[7]` or `step[key]`.
pub data InvocationName : Type 0 where
  plain : String → InvocationName
  attempt : String → ℕ → InvocationName
  item : String → IterationKey → InvocationName

-- The interpolated key is what stands for the placeholder, of any type.
pub record CacheDirective : Type 0 where
  pub resource : String
  pub key : Object
  pub ttl_sec : Option ℕ

pub record StepInvocation : Type 0 where
  pub step_name : InvocationName
  pub service_name : String
  pub action : String
  pub input : Object
  pub globals : Entries
  pub cache : Option CacheDirective
  pub required_resources : List String

pub record HistoryObservation : Type 0 where
  pub events : ℕ
  pub bytes : ℕ
  pub server_suggested : Bool

pub data WorkflowStatus : Type 0 where
  completed recovered terminated : WorkflowStatus

pub record AuditRecord : Type 0 where
  pub status : WorkflowStatus
  pub reason : Option String
  pub params : Entries
  pub steps : Dict StepAuditEntry
  pub transitions : List TransitionRecord
  pub failures : List FailureDetail
  pub result : Option Object

-- The code behind interfaces: the executor's methods, which act on a world (a wait that times out
-- returns nothing); Python's parser, its `str`, its dates and the epochs of floats; the texts of
-- exceptions; the sizes of what is serialized, and the capture of an audit record for its archive.
pub record Environment (W : Type 0) : Type 0 where
  pub run_step : StepInvocation → W → Result Object × W
  pub run_subworkflow : String → InvocationName → Entries → W → Result Object × W
  pub run_evaluator : String → Object → List String → String → W → Result Bool × W
  pub wait_for_event : String → (timeout_sec : ℕ) → W → Result (Option Object) × W
  pub sleep : ℕ → W → Result (Unit {0}) × W
  pub validate_contract : Direction → Object → W → Result (Unit {0}) × W
  pub archive : (path : Object) → AuditRecord → W → Result (Unit {0}) × W
  pub archive_failure : (path : Object) → ExecutionError → W → Result (Unit {0}) × W
  pub observe_history : W → HistoryObservation
  pub now : W → ℕ
  pub parse : String → Parsed
  pub to_text : Object → String
  pub from_isoformat : String → Option ℕ
  pub epoch_of : Float → ℕ
  pub describe : Raised → Object
  pub non_retryable : Raised → Option Bool
  pub failure_value : FailureDetail → Object
  pub payload_size : Object → Result ℕ
  pub record_size : AuditRecord → Result ℕ
  pub archive_size : AuditRecord → Result ℕ
  pub checkpoint_bytes : RunnerCheckpoint → Result ℕ

-- `continuation` is the checkpoint that a raised FlowContinuation carries, and `handler_failed` what a
-- raised _HandlerFailure carries: the primary failure and the handler's own.
pub record Machine (W : Type 0) : Type 0 where
  pub state : RunState
  pub continuation : Option RunnerCheckpoint
  pub handler_failed : Option (FailureDetail × FailureDetail)
  pub world : W
