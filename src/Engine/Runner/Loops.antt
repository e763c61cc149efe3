-- ===== src/Engine/Runner/Loops.antt =====
-- The loops of a step: `_run_until` and `_run_iteration` of engine/runner.py. A chunk of a parallel
-- step is run in the order of its items, one at a time, which is a schedule that the semaphore allows.
use justflow.Common.{
  ℕ, zero, suc, ◌+◌, ◌-◌, String, Bool, true, false, not, ◌&&◌, ◌||◌, Option, none, some, List, [],
  ◌∷◌, ◌++◌, ltb, leb, ◌==◌, if◌then◌else◌, length,
}
use text.Mathlib.Text.{◌==◌ as str_eq}
use justflow.Config.Models.{FlowStep, ReferencePath, IterationFailStrategy, stop, collect}
use justflow.Engine.Exceptions.{
  Raised, cancelled, data_normalization, data_path, reference_resolution, flow_definition,
  invariant_violation, resolution_error, unsafe_loop_cache, loop_attempts, parallelism,
  fanout_items, Result, ok, err, guard,
}
use justflow.Engine.Limits.{enforce_limit}
use justflow.Engine.Data.Objects.{
  Object, null, list, tuple, dict, Items, nil, cons, Entries, end, entry, key, opaque,
}
use justflow.Engine.Data.Paths.{resolve_json_path}
use justflow.Engine.References.{resolve_reference}
use justflow.Engine.Evaluator.Evaluate.{evaluate_condition}
use justflow.Engine.Runner.State.{
  StepDefinition, Workflow, IterationKey, at, under, IterationResult, included, omitted,
  LoopCheckpoint, iteration, until_loop, attempt, item, Environment,
}
use justflow.Engine.Runner.Machine.{
  Exec, pure, raise, lift, calls, reads, checkpoint_during_loop, as_resolution, ◌>>=◌, ◌>>◌,
}
use justflow.Engine.Runner.Invoke.{invoke, set_entry}

abbrev pub is_nothing {ℓ} : {A : Type ℓ} → Option A → Bool
is_nothing none = true
is_nothing (some a) = false

abbrev pub or_zero : Option ℕ → ℕ
or_zero none = 0
or_zero (some n) = n

-- The result, the attempts made, and whether the condition held.
pub record UntilResult : Type 0 where
  pub result : Object
  pub attempts : ℕ
  pub satisfied : Bool

-- `_resolve_iteration_items`: the keys and values of a list, a tuple or a dict
abbrev pub indexed : ℕ → Items → List (IterationKey × Object)
indexed i nil = []
indexed i (cons x xs) = (at i, x) ∷ indexed (i + 1) xs

abbrev pub keyed : Entries → List (IterationKey × Object)
keyed end = []
keyed (entry (key k) v es) = (under k, v) ∷ keyed es
keyed (entry (opaque k) v es) = keyed es

abbrev pub iteration_items : Object → Result (Bool × List (IterationKey × Object))
iteration_items (list xs) = ok (false, indexed 0 xs)
iteration_items (tuple xs) = ok (false, indexed 0 xs)
iteration_items (dict es) = ok (true, keyed es)
iteration_items _ = err (flow_definition resolution_error)

abbrev pub as_definition : Result Object → Result Object
as_definition (err data_normalization) = err (flow_definition resolution_error)
as_definition (err data_path) = err (flow_definition resolution_error)
as_definition (err reference_resolution) = err (flow_definition resolution_error)
as_definition r = r

unfoldable pub resolve_items :
    ReferencePath → Object → (step_outputs params : Entries) → Result Object
unfolding resolve_json_path resolve_reference
resolve_items ref resolved_input step_outputs params = as_definition (
    if str_eq ref.root "input"
    then elim ref.path [
      | [] ↦ ok resolved_input
      | t ∷ ts ↦ resolve_json_path resolved_input (t ∷ ts)
    ]
    else resolve_reference ref step_outputs params)

abbrev pub result_key : IterationResult → IterationKey
result_key (included k v) = k
result_key (omitted k) = k

abbrev pub same_key : IterationKey → IterationKey → Bool
same_key (at i) (at j) = i == j
same_key (under s) (under t) = str_eq s t
same_key _ _ = false

-- the checkpointed results carry the first keys of the input
unfoldable pub keys_match : List IterationResult → List (IterationKey × Object) → Bool
keys_match [] items = true
keys_match (r ∷ rs) [] = false
keys_match (r ∷ rs) ((k, v) ∷ items) = same_key (result_key r) k && keys_match rs items

unfoldable pub drop {ℓ} : {A : Type ℓ} → ℕ → List A → List A
drop zero xs = xs
drop (suc n) [] = []
drop (suc n) (x ∷ xs) = drop n xs

-- `_append_iteration_results` for one outcome: what is appended, and the failures counted
module _ (describe : Raised → Object) where
  unfoldable pub append_outcome :
      IterationFailStrategy → IterationKey → Result Object → IterationResult × ℕ
  append_outcome strategy k (ok v) = (included k v, 0)
  append_outcome collect k (err e) = (included k (describe e), 1)
  append_outcome _ k (err e) = (omitted k, 1)

unfoldable pub collect_list : List IterationResult → Items
collect_list [] = nil
collect_list (included k v ∷ rs) = cons v (collect_list rs)
collect_list (omitted k ∷ rs) = collect_list rs

unfoldable pub collect_dict : List IterationResult → Entries
collect_dict [] = end
collect_dict (included (under k) v ∷ rs) = entry (key k) v (collect_dict rs)
collect_dict (included (at i) v ∷ rs) = collect_dict rs
collect_dict (omitted k ∷ rs) = collect_dict rs

abbrev pub collected : Bool → List IterationResult → Object
collected true results = dict (collect_dict results)
collected false results = list (collect_list results)

abbrev pub iteration_globals : Option String → Object → Entries → Entries
iteration_globals none v globals = globals
iteration_globals (some name) v globals = set_entry name v globals

abbrev pub iteration_input : Option String → Object → Object → Object
iteration_input none v resolved_input = resolved_input
iteration_input (some name) v resolved_input = v

abbrev pub strategy_of : FlowStep → IterationFailStrategy
strategy_of step = elim step.on_iteration_fail [ none ↦ stop | some s ↦ s ]

-- an outcome that ends the loop: a cancellation, or any exception under `stop`
abbrev pub ends_loop : IterationFailStrategy → Result Object → Bool
ends_loop strategy (ok v) = false
ends_loop strategy (err cancelled) = true
ends_loop stop (err e) = true
ends_loop _ (err e) = false

-- A raised exception that does not end the loop becomes a value.
abbrev pub settled : (ends : Bool) → Result Object → Result (Result Object)
settled true (err e) = err e
settled _ r = ok r

abbrev pub ends_chunk : (left : ℕ) → List (IterationKey × Object) → Bool
ends_chunk left [] = true
ends_chunk left (i ∷ items) = leb left 0

-- The results so far, and the failures among them.
pub record Progress : Type 0 where
  pub results : List IterationResult
  pub failed : ℕ

module _ {W : Type 0} (env : Environment W) (workflow : Workflow) where
  unfoldable pub reject_loop_cache : StepDefinition → Exec W (Unit {0})
  reject_loop_cache step_def =
      lift (guard (is_nothing step_def.cache) (flow_definition unsafe_loop_cache))

  abbrev pub interval : (more_to_come : Bool) → Option ℕ → Exec W (Unit {0})
  interval true (some seconds) = calls (env.sleep seconds)
  interval _ _ = pure tt

  module _ (step : FlowStep) (step_def : StepDefinition) (resolved_input : Object)
      (globals : Entries) where
    -- The attempts from `attempts` + 1 on, with the number of attempts left.
    unfoldable pub attempt_until :
        (condition : String) (left attempts : ℕ) → Object → Exec W UntilResult
    unfolding invoke evaluate_condition checkpoint_during_loop
    attempt_until condition zero attempts result =
        pure (record { result = result; attempts = attempts; satisfied = false })
    attempt_until condition (suc left) attempts _ =
        invoke env workflow step_def (attempt step.name (attempts + 1)) resolved_input globals
        >>= λ result. reads (λ s. s.step_outputs) >>= λ step_outputs.
            reads (λ s. s.params) >>= λ params.
            lift (as_resolution (evaluate_condition env.parse condition result step_outputs params))
            >>= λ satisfied.
                if satisfied
                then pure (record { result = result; attempts = attempts + 1; satisfied = true })
                else (interval (ltb 0 left) step.interval_sec
                    >> (checkpoint_during_loop env workflow step.name
                          (until_loop step.name (attempts + 1) result)
                        >> attempt_until condition left (attempts + 1) result))

    -- `max_iterations` from what a checkpoint has completed
    unfoldable pub run_until_from :
        (condition : String) (max_iterations attempts : ℕ) → Object → Exec W UntilResult
    unfolding attempt_until enforce_limit
    run_until_from condition max_iterations attempts last_result = do
      lift (enforce_limit max_iterations workflow.limits.loop_attempts loop_attempts)
      lift (guard (leb attempts max_iterations) (flow_definition invariant_violation))
      attempt_until condition (max_iterations - attempts) attempts last_result

    abbrev pub continue_until :
        Option String → Option ℕ → Option LoopCheckpoint → Exec W UntilResult
    continue_until (some condition) (some max_iterations) (some (until_loop _ attempts last)) =
        run_until_from condition max_iterations attempts last
    continue_until (some condition) (some max_iterations) _ =
        run_until_from condition max_iterations 0 null
    continue_until _ _ _ = raise (flow_definition invariant_violation)

    unfoldable pub run_until : Option LoopCheckpoint → Exec W UntilResult
    unfolding reject_loop_cache run_until_from
    run_until continuation = do
      reject_loop_cache step_def
      continue_until step.until step.max_iterations continuation

    -- one item: the outcome, with the exceptions that do not end the loop caught
    unfoldable pub run_item : IterationKey → Object → Exec W (Result Object)
    unfolding invoke
    run_item k v m =
        let (outcome, m') =
          invoke env workflow step_def (item step.name k)
            (iteration_input step.as_var v resolved_input) (iteration_globals step.as_var v globals)
            m in
        (settled (ends_loop (strategy_of step) outcome) outcome, m')

    abbrev pub progressed : Progress → IterationKey → Result Object → Progress
    progressed p k outcome =
        let (result, failures) = append_outcome env.describe (strategy_of step) k outcome in
        record { results = p.results ++ result ∷ []; failed = p.failed + failures }

    -- The items from an offset on, with a checkpoint after each chunk of chunk_items + 1 items; `left`
    -- is how many items follow the next one in its chunk. Without parallelism each item is a chunk.
    unfoldable pub run_items :
        (chunk_items left offset : ℕ) → List (IterationKey × Object) → Progress → Exec W Progress
    unfolding run_item append_outcome checkpoint_during_loop
    run_items chunk_items left offset [] p = pure p
    run_items chunk_items left offset ((k, v) ∷ items) p = run_item k v >>= λ outcome.
        (let p' = progressed p k outcome in
          let ends = ends_chunk left items in
          (if ends
            then checkpoint_during_loop env workflow step.name
                (iteration step.name (offset + 1) p'.results p'.failed)
            else pure tt)
          >> run_items chunk_items (if ends then chunk_items else left - 1) (offset + 1) items p')

    abbrev pub resumed : Option LoopCheckpoint → ℕ × Progress
    resumed (some (iteration _ next_offset results failed)) =
        (next_offset, record { results = results; failed = failed })
    resumed _ = (0, record { results = []; failed = 0 })

    -- `chunk_items` - 1
    abbrev pub chunk_size : ℕ → ℕ
    chunk_size item_count =
        (if not step.parallel
          then 1
          else if workflow.bounded_execution_enabled || item_count == 0
          then workflow.limits.fanout_chunk_items
          else item_count)
        - 1

    abbrev pub allowed_parallelism : (parallel : Bool) → Option ℕ → Result (Unit {0})
    allowed_parallelism false max_concurrency = ok tt
    allowed_parallelism true none = err (flow_definition invariant_violation)
    allowed_parallelism true (some n) = enforce_limit n workflow.limits.parallelism parallelism

    unfoldable pub run_iteration : ReferencePath → Option LoopCheckpoint → Exec W (Object × (ℕ × ℕ))
    unfolding reject_loop_cache resolve_items keys_match drop run_items collect_list collect_dict
        enforce_limit
    run_iteration for_each continuation = do
      reject_loop_cache step_def
      lift (allowed_parallelism step.parallel step.max_concurrency)
      step_outputs ← reads (λ s. s.step_outputs)
      params ← reads (λ s. s.params)
      value ← lift (resolve_items for_each resolved_input step_outputs params)
      items ← lift (iteration_items value)
      lift (enforce_limit (length (items.1)) workflow.limits.fanout_items fanout_items)
      lift (
          guard
            (length (((resumed continuation).1).results) == (resumed continuation).0
              && leb ((resumed continuation).0) (length (items.1)))
            (flow_definition invariant_violation))
      lift (
          guard (keys_match (((resumed continuation).1).results) (items.1))
            (flow_definition invariant_violation))
      p ←
          run_items (chunk_size (length (items.1))) (chunk_size (length (items.1)))
            ((resumed continuation).0) (drop ((resumed continuation).0) (items.1))
            ((resumed continuation).1)
      pure (collected (items.0) p.results, (length (items.1), p.failed))
