-- ===== src/Engine/Evaluator/Evaluate.antt =====
-- `_evaluate`, its helpers and `evaluate_condition` of src/justflow/engine/evaluator.py.
use text.Mathlib.Text.{◌==◌ as str_eq}
use justflow.Common.{ℕ, String, Bool, true, false, not, Option, none, some, [], ◌∷◌, if◌then◌else◌}
use justflow.Common.Int.{pos}
use justflow.Engine.Exceptions.{
  data_normalization, data_path, type_error, index_error, expression_syntax, condition_evaluation,
  not_a_condition, invalid_data, malformed_node, unknown_root, bad_path, not_comparable, no_length,
  Result, ok, err, ◌>>=◌,
}
use justflow.Engine.Data.Objects.{Object, Items, Entries, find_entry}
use justflow.Engine.Data.Paths.{Token, resolve_json_path}
use justflow.Engine.Data.Normalize.{
  default_collection_items, normalize_json_value, normalize_json_object,
}
use justflow.Engine.Data.Objects.{null, bool, int, list, tuple, dict, nil, cons}
use justflow.Engine.Data.Paths.{name}
use justflow.Engine.Evaluator.Syntax.{
  BoolOperator, conjunction, disjunction, Parsed, Expr, bool_op, unary_op, compare, call, attribute,
  subscript, reference, constant, list_display, tuple_display, unsupported, Exprs, none_left, more,
  Comparators, finished, comparing, is_literal_name, token_of, parse_condition,
}
use justflow.Engine.Evaluator.Operators.{compare_values, len_value, is_truthy}

pub record EvalContext : Type 0 where
  pub input : Object
  pub step_outputs : Entries
  pub params : Entries

unfoldable pub resolve_root : String → EvalContext → Result Object
unfolding find_entry
resolve_root id ctx =
    if str_eq id "input" then ok ctx.input else elim (find_entry id ctx.step_outputs) [
      | some v ↦ ok v
      | none ↦ elim (find_entry id ctx.params) [
        | some v ↦ ok v
        | none ↦ err (condition_evaluation unknown_root)
      ]
    ]

-- `except (DataNormalizationError, DataPathError)`
abbrev pub as_bad_path : Result Object → Result Object
as_bad_path (err data_normalization) = err (condition_evaluation bad_path)
as_bad_path (err data_path) = err (condition_evaluation bad_path)
as_bad_path r = r

unfoldable pub get_path_value : Object → Token → Result Object
unfolding resolve_json_path
get_path_value v token = as_bad_path (resolve_json_path v (token ∷ []))

-- `except TypeError`
abbrev pub as_not_comparable : Result Bool → Result Bool
as_not_comparable (err type_error) = err (condition_evaluation not_comparable)
as_not_comparable r = r

abbrev pub as_length : Result ℕ → Result Object
as_length (err type_error) = err (condition_evaluation no_length)
as_length (err e) = err e
as_length (ok n) = ok (int (pos n))

-- `except ConditionEvaluationError: return False`
abbrev pub as_existence : Result Object → Result Object
as_existence (ok v) = ok (bool true)
as_existence (err (condition_evaluation r)) = ok (bool false)
as_existence (err e) = err e

-- NAME_LITERALS[id]
unfoldable pub name_literal : String → Object
name_literal id =
    if str_eq id "true"
    then bool true
    else if str_eq id "True"
    then bool true
    else if str_eq id "false"
    then bool false
    else if str_eq id "False"
    then bool false
    else null

abbrev pub is_conjunction : BoolOperator → Bool
is_conjunction conjunction = true
is_conjunction disjunction = false

abbrev pub or_malformed : Option Token → Result Token
or_malformed none = err (condition_evaluation malformed_node)
or_malformed (some t) = ok t

unfoldable mutual
  unfolding resolve_root get_path_value name_literal is_literal_name compare_values len_value
      is_truthy

  pub evaluate : Expr → EvalContext → Result Object
  evaluate (bool_op op values) ctx =
      evaluate_until (is_conjunction op) values ctx >>= λ b. ok (bool b)
  evaluate (unary_op op operand) ctx = evaluate operand ctx >>= λ v. ok (bool (not (is_truthy v)))
  evaluate (compare left rest) ctx =
      evaluate left ctx >>= λ v. evaluate_compare v rest ctx >>= λ b. ok (bool b)
  evaluate (call (reference id) args keywords) ctx = evaluate_call (str_eq id "exists") args ctx
  evaluate (call func args keywords) ctx = err (condition_evaluation malformed_node)
  evaluate (attribute value attr) ctx = evaluate value ctx >>= λ v. get_path_value v (name attr)
  evaluate (subscript value slice) ctx =
      or_malformed (token_of slice) >>= λ t. evaluate value ctx >>= λ v. get_path_value v t
  evaluate (reference id) ctx =
      if is_literal_name id then ok (name_literal id) else resolve_root id ctx
  evaluate (constant v) ctx = ok v
  evaluate (list_display es) ctx = evaluate_elements es ctx >>= λ xs. ok (list xs)
  evaluate (tuple_display es) ctx = evaluate_elements es ctx >>= λ xs. ok (tuple xs)
  evaluate (unsupported kind) ctx = err (condition_evaluation malformed_node)

  -- all(…) goes on while the values are true, any(…) while they are false
  pub evaluate_until : (proceed : Bool) → Exprs → EvalContext → Result Bool
  evaluate_until proceed none_left ctx = ok proceed
  evaluate_until true (more e es) ctx =
      evaluate e ctx >>= λ v. if is_truthy v then evaluate_until true es ctx else ok false
  evaluate_until false (more e es) ctx =
      evaluate e ctx >>= λ v. if is_truthy v then ok true else evaluate_until false es ctx

  pub evaluate_compare : Object → Comparators → EvalContext → Result Bool
  evaluate_compare left finished ctx = ok true
  evaluate_compare left (comparing op e rest) ctx = evaluate e ctx >>= λ right.
      as_not_comparable (compare_values op left right) >>= λ holds.
      if holds then evaluate_compare right rest ctx else ok false

  pub evaluate_call : (exists : Bool) → Exprs → EvalContext → Result Object
  evaluate_call exists none_left ctx = err index_error
  evaluate_call true (more e es) ctx = as_existence (evaluate e ctx)
  evaluate_call false (more e es) ctx = evaluate e ctx >>= λ v. as_length (len_value v)

  pub evaluate_elements : Exprs → EvalContext → Result Items
  evaluate_elements none_left ctx = ok nil
  evaluate_elements (more e es) ctx =
      evaluate e ctx >>= λ x. evaluate_elements es ctx >>= λ xs. ok (cons x xs)

-- `except DataNormalizationError`
abbrev pub as_invalid_data {ℓ} : {A : Type ℓ} → Result A → Result A
as_invalid_data (err data_normalization) = err (condition_evaluation invalid_data)
as_invalid_data r = r

abbrev pub as_not_a_condition : Result Expr → Result Expr
as_not_a_condition (err expression_syntax) = err (condition_evaluation not_a_condition)
as_not_a_condition r = r

unfoldable pub normalized_context : Object → (step_outputs params : Entries) → Result EvalContext
unfolding normalize_json_value normalize_json_object
normalized_context input step_outputs params = do
  input' ← normalize_json_value default_collection_items input
  step_outputs' ← normalize_json_object default_collection_items (dict step_outputs)
  params' ← normalize_json_object default_collection_items (dict params)
  ok (record { input = input'; step_outputs = step_outputs'; params = params' })

module _ (parse : String → Parsed) where
  unfoldable pub evaluate_condition :
      (condition : String) (input : Object) (step_outputs params : Entries) → Result Bool
  unfolding parse_condition evaluate normalized_context is_truthy
  evaluate_condition condition input step_outputs params = do
    tree ← as_not_a_condition (parse_condition parse condition)
    ctx ← as_invalid_data (normalized_context input step_outputs params)
    value ← evaluate tree ctx
    ok (is_truthy value)
