-- ===== src/Tests/Conditions.antt =====
-- engine/data.py, engine/evaluator.py and config/models.py on fixed data.
use mathlib.Core.Logic.{◌↔◌}
use justflow.Common.{◌≡◌, refl, false, none, some, [], ◌∷◌, arith}
use justflow.Common.Int.{pos}
use justflow.Engine.Exceptions.{ok, ◌>>=◌}
use justflow.Engine.Data.Objects.{
  Object, null, int, str, list, tuple, dict, nil, cons, end, entry, key, find_entry, entries_length,
  items_length,
}
use justflow.Engine.Data.Paths.{name, resolve_json_path, resolve_tokens, resolve_token}
use justflow.Engine.Data.Normalize.{normalize_value, normalize_json_value}
use justflow.Engine.Data.Json.{IsJson, normalize_value-normalize_value, normalize_value-IsJson_iff}
use justflow.Engine.Data.Errors.{Normalizes, normalize_value-Normalizes}
use justflow.Engine.Data.Traversal.{IsNormal, resolve_json_path-IsNormal}
use justflow.Engine.Evaluator.Syntax.{
  parsed, Expr, attribute, reference, constant, compare, greater, comparing, finished, check_node,
  condition_reference, names, keep_roots, is_literal_name,
}
use justflow.Engine.Evaluator.Evaluate.{
  EvalContext, resolve_root, evaluate, evaluate_condition, as_bad_path,
}
use justflow.Engine.Evaluator.Safety.{IsNormalContext, Outcome, Any, evaluate_safe}
use justflow.Engine.Evaluator.Errors.{IsVerdict, evaluate_condition-IsVerdict}
use justflow.Engine.Evaluator.Roots.{evaluate_roots}
use justflow.Engine.Evaluator.References.{evaluate_reference}
use justflow.Config.Grammar.{parse_placeholders}
use justflow.Config.Models.{FlowStep, validate_flow_step}
use justflow.Config.Validated.{IsRunnable, validate_flow_step-IsRunnable}

parse_placeholders_run :
    parse_placeholders "a${b}$${c}"
    ≡ ok (
        record { name = "b"; start = 1; stop = 5 }
        ∷ record { name = "c"; start = 6; stop = 10 }
        ∷ [])
unfolding parse_placeholders
parse_placeholders_run = refl

abbrev pair : Object
pair = tuple (cons (int (pos 1)) (cons (str "x") nil))

abbrev pair_list : Object
pair_list = list (cons (int (pos 1)) (cons (str "x") nil))

pair_run : normalize_value 64 100 0 pair ≡ ok pair_list
unfolding normalize_value
pair_run = refl

normalize_value-normalize_value_example : normalize_value 64 100 0 pair_list ≡ ok pair_list
normalize_value-normalize_value_example = normalize_value-normalize_value 64 100 0 pair pair_run

normalize_value-IsJson_iff_example :
    (normalize_value 64 100 0 pair_list ≡ ok pair_list) ↔ IsJson 64 100 0 pair_list
normalize_value-IsJson_iff_example = normalize_value-IsJson_iff 64 100 0 pair_list

normalize_value-Normalizes_example : Normalizes (normalize_value 64 100 0 pair)
normalize_value-Normalizes_example = normalize_value-Normalizes 64 100 0 pair

abbrev order : Object
order = dict (entry (key "lines") (list (cons (int (pos 7)) nil)) end)

order-IsNormal : IsNormal order
unfolding IsJson entries_length items_length
order-IsNormal = ground arith

order_run : resolve_json_path order (name "lines" ∷ []) ≡ ok (list (cons (int (pos 7)) nil))
unfolding resolve_json_path resolve_tokens resolve_token normalize_json_value normalize_value
    find_entry
order_run = refl

resolve_json_path-IsNormal_example : IsNormal (list (cons (int (pos 7)) nil))
resolve_json_path-IsNormal_example = resolve_json_path-IsNormal order (name "lines" ∷ []) order_run

abbrev context : EvalContext
context = record { input = order; step_outputs = end; params = end }

abbrev other_context : EvalContext
other_context = record { input = order; step_outputs = entry (key "unused") null end; params = end }

context-IsNormal : IsNormalContext context
unfolding IsJson entries_length items_length
context-IsNormal = record {
  input = order-IsNormal;
  step_outputs = ground arith;
  params = ground arith;
}

-- input.lines
abbrev lines : Expr
lines = attribute (reference "input") "lines"

-- input.lines > 3
abbrev incomparable : Expr
incomparable = compare lines (comparing greater (constant (int (pos 3))) finished)

evaluate_safe_example : Outcome Any (evaluate incomparable context)
unfolding check_node
evaluate_safe_example = evaluate_safe context incomparable context-IsNormal refl

evaluate_condition-IsVerdict_example :
    IsVerdict (evaluate_condition (λ _. parsed incomparable) "input.lines > 3" order end end)
evaluate_condition-IsVerdict_example =
    evaluate_condition-IsVerdict (λ _. parsed incomparable) "input.lines > 3" order end end

evaluate_roots_example : evaluate incomparable context ≡ evaluate incomparable other_context
unfolding names keep_roots resolve_root find_entry
evaluate_roots_example = evaluate_roots context other_context incomparable (refl, tt) refl refl

evaluate_reference_example :
    evaluate lines context
    ≡ (resolve_root "input" context >>= λ v. as_bad_path (resolve_tokens v (name "lines" ∷ [])))
unfolding condition_reference is_literal_name
evaluate_reference_example =
    evaluate_reference context context-IsNormal lines "input" (name "lines" ∷ []) refl refl

abbrev polling_step : FlowStep
polling_step = record {
  name = "poll";
  op = some "check";
  input = none;
  output = none;
  params = end;
  then_step = some "done";
  on_result = none;
  condition = none;
  for_each = none;
  as_var = none;
  parallel = false;
  max_concurrency = none;
  on_iteration_fail = none;
  wait_for = none;
  sleep_sec = none;
  until = some "input.ready";
  max_iterations = some 3;
  interval_sec = some 5;
  on_exhausted = none;
  on_failure = none;
  terminal = false;
  reason = none;
}

validate_flow_step-IsRunnable_example : IsRunnable polling_step
unfolding validate_flow_step
validate_flow_step-IsRunnable_example = validate_flow_step-IsRunnable polling_step refl refl
