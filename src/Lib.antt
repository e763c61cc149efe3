-- ===== src/Lib.antt =====
-- A model of justflow, a workflow engine in Python, and theorems on it. A workflow is a list of flow
-- steps in YAML; the engine runs it inside Temporal, resolves the references between the steps,
-- evaluates the conditions of its branches, and calls services through an executor.
--
-- Parts, their files here, and the code that each models:
--
--   Common/*               shared names, Boolean tests, lists, dicts, Python's integers
--   Engine/Exceptions      the exceptions of src/justflow/engine as one data type, and results
--   Engine/Limits          enforce_limit of src/justflow/engine/limits.py
--   Engine/Deduplication   BoundedDeduplicationStore of src/justflow/engine/deduplication.py:
--                          claim, complete, release, clear; Invariant and Deliveries hold its laws
--   Engine/Data/*          src/justflow/engine/data.py: normalize_json_value, normalize_json_object
--                          and resolve_json_path, over the Python objects that its tests tell apart
--   Engine/Evaluator/*     src/justflow/engine/evaluator.py: _check_node (Syntax), the operators of
--                          Python (Operators), _evaluate and evaluate_condition (Evaluate)
--   Engine/References      src/justflow/engine/references.py: resolve_reference, resolve_input,
--                          interpolate_params, find_unresolved_placeholders
--   Config/Grammar         parse_placeholders of src/justflow/config/grammar.py
--   Config/Models          the declarations of src/justflow/config/models.py and their validators
--   Engine/Messages        PendingMessages of src/justflow/engine/compiler.py; Queues holds its laws
--   Engine/Worklist        the graph searches of the runner as one loop over `visit`
--   Engine/Failures        the failures of src/justflow/engine/errors.py and audit.py: classify_failure,
--                          build_execution_error
--   Engine/Backoff         ConsumerReconnectBackoff of src/justflow/engine/consumer_backoff.py
--   Engine/Relay           ResponseRelay of src/justflow/engine/response_relay.py, with what it reads of
--                          brokers/base.py, sdk/message_contract.py and scope.py; Claims, Holding and
--                          Exclusion are about deliveries in work side by side, Redelivery about a message that comes again
--   Engine/Runner/State    src/justflow/engine/runner.py: the state of a run, the executor and the other
--                          interfaces (Environment)
--   Engine/Runner/Machine  actions on that state, and the checkpoints
--   Engine/Runner/Graph    _normal_successors, _reachable_from_entry, _handler_region
--   Engine/Runner/Invoke   _invoke, _next_step, _store_output
--   Engine/Runner/Loops    _run_until, _run_iteration and its helpers
--   Engine/Runner/Waits    _run_wait and _deadline_epoch
--   Engine/Runner/Params   _build_params
--   Engine/Runner/Execute  one round of the loop of _execute: the step entered, its work, its failure
--   Engine/Runner/Run      _execute around the rounds, and _restore_state
--   Engine/Runner/Failing  run, _build_execution_error, _archive_failure, _record_unhandled_step
--   Engine/Runner/Counting, Attempts, Budget, Items, Branches, Successors, Connected, Regions
--                          reasoning on invocations, loops, branches and the graph
--   Engine/Runner/Keeping, Audit, Choices, Performing, Rounds, Trails, Reports, Recovery
--                          reasoning on the rounds: invariants of the state (Keeping), the audit trail
--                          (Audit), what each kind of step keeps, the loop and the record, failures
--   Engine/AuditCapture    src/justflow/engine/audit_capture.py: metadata, redaction, payload limit;
--                          Agreement, Redaction and Metadata are about what an archive does not show
--   Engine/Analysis        src/justflow/engine/analysis.py: the edges of a flow, the searches along them,
--                          the issues on reachability and sinks
--   Configuration/Results  the exceptions of configuration/activation_errors.py and of the catalogs
--   Configuration/Records  ActivationRecord of src/justflow/configuration/activation.py and its validation
--   Configuration/Activation
--                          the operations of src/justflow/configuration/activation_store.py: transitions,
--                          checkpoints, the lease, the workers' readiness; Following and Outcomes say what
--                          each changes, Validity and Permits when it fails, Lookup what is found again
--   Configuration/Store    the activations of src/justflow/configuration/activation_sqlite.py and the active
--                          pointer of sqlite.py; Chain and Growth are about controllers side by side
--   Configuration/Control, Controller/*
--                          resume and register_readiness of ConfigurationActivationController in
--                          src/justflow/runtime/configuration_activation.py: its operations on a record
--                          (Controller), the steps (Steps, Routing), Resume; Keeping, Operations, Safety,
--                          Carrying, Resuming reason on what is stored, Pointer on a step taken again,
--                          Effects on what the last steps bring about
--   Tests/*                runs on fixed data, and each theorem at a concrete input
--
-- How they interact: the validators of Config/Models say which flow steps reach the runner. The runner
-- resolves a step's input (References, which follows paths of Data), counts and dispatches an
-- invocation to the executor, normalizes the answer (Data), repeats or iterates it (Loops, whose
-- conditions go to Evaluator), and chooses the next step; a step that fails leads to its handler and
-- begins an episode, in which a second failure ends the run. The relay claims each delivery of the
-- deduplication store, signals the workflow, and completes or releases the claim. An activation brings a
-- configuration into use: the controller reads its record, takes a lease, and records a checkpoint after
-- each step; every write names the version that it was made from, and the store refuses a stale one.
--
-- Conventions. A method that changes state is a function from a state to a state; one that may raise
-- gives a Result; an action of the runner takes a Machine and gives a Result with the Machine that it
-- leaves, also where it raises. An `await` on the executor is one step of the world behind
-- Environment. Numbers are natural, except Python's integers in values, which are signed; a finite
-- float is a dyadic number. A model or a dataclass whose dump or field raises is an object of its own
-- (`failing`), with the exception that passes through. Texts of messages and times of an audit trail are left out, as nothing
-- branches on them.
-- In Control, a transaction of a store comes after `turn`, in which other processes may change the stores
-- and SQLite may fail; an artifact of workers is its canonical text, and an equal record one of the same
-- version.
--
-- Bounds and fuel: normalization stops below depth 32 as the source does, by recursion on the value.
-- A repetition recurs on the attempts that are left and an iteration on its items. A graph search runs
-- on fuel: one round for each name that is or will be pushed, which is at most the number of
-- successors of the known steps, and one for the empty stack. A path has at most 32 tokens. The rounds
-- of a run have fuel, since a flow may lead back to a step through its handler; Reports shows that they
-- end where a rank falls along the edges.
--
-- Parameters: ast.parse (which gives a tree, a SyntaxError or another exception), str() of a value, the description of a failure, the sizes of what is
-- serialized, dates and epochs, contracts, the archive, and the executor are fields of Environment or
-- arguments; the Temporal client, the consumer, the parser of envelopes, metrics and the clock are
-- fields of RelayEnvironment, and the products of floats are functions of ReconnectPolicy. The preparation
-- of a revision, the catalogs, the worker and schedule bindings, the clock, the digests of JSON texts and
-- the size of a serialized record are fields of ControlEnvironment.
--
-- Not modelled: the identities and times in the records of a run; the interleaving of a parallel chunk,
-- whose items are run in order, one of the schedules that the semaphore allows; of the
-- flow analysis, its cycles and the names available on every path; the trigger ingress; of the
-- activation, its plan, activate, rollback and the pages; publications, discards and drafts; the loading
-- of configurations, schedules, the HTTP application, transports, brokers and resources, which are for
-- the most part glue over Temporal, databases and the network.
pub mod Common
pub mod Config
pub mod Configuration
pub mod Engine
pub mod Tests
