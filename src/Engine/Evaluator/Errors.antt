-- ===== src/Engine/Evaluator/Errors.antt =====
-- The errors of `evaluate_condition` (engine/evaluator.py), for any texts and data.
use justflow.Common.{String, sym, ◌==◌, Bool, true, false, not, ◌||◌, ◌≡◌, refl}
use justflow.Engine.Exceptions.{
  limit_exceeded, data_normalization, external, expression_syntax, condition_evaluation,
  malformed_node, Result, ok, err, ◌>>=◌, ◌>>◌, guard, Ensures, Ensures->>=,
}
use justflow.Engine.Data.Objects.{Object, Entries, dict}
use justflow.Engine.Data.Normalize.{
  max_json_depth, default_collection_items, normalize_json_value, normalize_json_object, as_entries,
}
use justflow.Engine.Data.Json.{normalize_value-Ensures}
use justflow.Engine.Data.Traversal.{IsNormal}
use justflow.Engine.Data.Errors.{Normalizes, Normalizes->>=, normalize_value-Normalizes}
use justflow.Engine.Evaluator.Syntax.{
  Expr, bool_op, unary_op, compare, call, attribute, subscript, reference, constant, list_display,
  tuple_display, unsupported, Exprs, none_left, more, Comparators, comparing, finished, is_negation,
  is_function, is_exists, is_reference, is_subscript_constant, is_scalar, is_allowed, all_constants,
  Parsed, parsed, syntax_error, parser_error, check_node, check_all, check_operators,
  check_comparators, check_argument, checked,
}
use justflow.Engine.Evaluator.Evaluate.{
  EvalContext, normalized_context, as_invalid_data, as_not_a_condition, evaluate,
  evaluate_condition,
}
use justflow.Engine.Evaluator.Safety.{IsNormalContext, Outcome, Any, evaluate_safe}

-- A verdict, a ConditionEvaluationError that is not about the shape of the tree, a LimitExceededError, or
-- an exception of the parser or of a model's dump.
abbrev pub IsVerdict {ℓ} : {A : Type ℓ} → Result A → Type 0
IsVerdict (ok a) = Unit
IsVerdict (err (condition_evaluation malformed_node)) = ⊥
IsVerdict (err (condition_evaluation r)) = Unit
IsVerdict (err (limit_exceeded kind actual limit)) = Unit
IsVerdict (err (external e)) = Unit
IsVerdict (err _) = ⊥

as_entries-Normalizes : (v : Object) → Normalizes (as_entries v)
as_entries-Normalizes (dict es) = tt
as_entries-Normalizes _ = tt

object-Normalizes : (v : Object) → Normalizes (normalize_json_object default_collection_items v)
unfolding normalize_json_object
object-Normalizes v =
    Normalizes->>= _ _ (normalize_value-Normalizes max_json_depth default_collection_items 0 v)
      as_entries-Normalizes

context-Normalizes :
    (input : Object) (step_outputs params : Entries)
    → Normalizes (normalized_context input step_outputs params)
unfolding normalized_context normalize_json_object
context-Normalizes input step_outputs params =
    Normalizes->>= _ _ (normalize_value-Normalizes max_json_depth default_collection_items 0 input)
      λ _.
        Normalizes->>= _ _ (object-Normalizes (dict step_outputs))
          λ _. Normalizes->>= _ _ (object-Normalizes (dict params)) (λ _. tt)

IsVerdict->>= {ℓ κ} :
    {A : Type ℓ} {B : Type κ} (P : A → Type 0) (r : Result A) (f : A → Result B)
    → IsVerdict r
    → Ensures P r
    → ((a : A) → P a → IsVerdict (f a))
    → IsVerdict (r >>= f)
IsVerdict->>= P (ok a) f h p k = k a p
IsVerdict->>= P (err (condition_evaluation malformed_node)) f h p k = absurd h
IsVerdict->>= P (err (condition_evaluation r)) f h p k = tt
IsVerdict->>= P (err (limit_exceeded kind actual limit)) f h p k = tt
IsVerdict->>= P (err (external e)) f h p k = tt
IsVerdict->>= P (err _) f h p k = absurd h

-- A tree, or an ExpressionSyntaxError.
abbrev OnlySyntax {ℓ} : {A : Type ℓ} → Result A → Type 0
OnlySyntax (ok a) = Unit
OnlySyntax (err expression_syntax) = Unit
OnlySyntax (err _) = ⊥

sequenced {ℓ} :
    {A : Type ℓ} (m : Result (Unit {0})) (r : Result A)
    → OnlySyntax m
    → OnlySyntax r
    → OnlySyntax (m >> r)
sequenced (ok _) r hm hr = hr
sequenced (err expression_syntax) r hm hr = tt
sequenced (err _) r hm hr = absurd hm

guarded : (b : Bool) → OnlySyntax (guard b expression_syntax)
guarded true = tt
guarded false = tt

mutual
  unfolding check_node

  check_node-OnlySyntax : (e : Expr) → OnlySyntax (check_node e)
  check_node-OnlySyntax (bool_op op values) = check_all-OnlySyntax values
  check_node-OnlySyntax (unary_op op operand) =
      sequenced _ _ (guarded (is_negation op)) (check_node-OnlySyntax operand)
  check_node-OnlySyntax (compare left rest) =
      let tail = check_comparators-OnlySyntax rest in
      sequenced _ _ (check_operators-OnlySyntax rest)
        (sequenced _ _ (check_node-OnlySyntax left) tail)
  check_node-OnlySyntax (call func args keywords) =
      sequenced _ _ (guarded (is_function func))
        (sequenced _ _ (guarded (keywords == 0)) (check_argument-OnlySyntax (is_exists func) args))
  check_node-OnlySyntax (attribute value attr) =
      sequenced _ _ (guarded (is_reference value)) (check_node-OnlySyntax value)
  check_node-OnlySyntax (subscript value slice) =
      sequenced _ _ (guarded (is_reference value))
        (sequenced _ _ (guarded (is_subscript_constant slice)) (check_node-OnlySyntax value))
  check_node-OnlySyntax (reference id) = tt
  check_node-OnlySyntax (constant v) = guarded (is_scalar v)
  check_node-OnlySyntax (list_display es) = guarded (all_constants es)
  check_node-OnlySyntax (tuple_display es) = guarded (all_constants es)
  check_node-OnlySyntax (unsupported kind) = tt

  check_all-OnlySyntax : (es : Exprs) → OnlySyntax (check_all es)
  check_all-OnlySyntax none_left = tt
  check_all-OnlySyntax (more e es) =
      sequenced _ _ (check_node-OnlySyntax e) (check_all-OnlySyntax es)

  check_operators-OnlySyntax : (cs : Comparators) → OnlySyntax (check_operators cs)
  check_operators-OnlySyntax finished = tt
  check_operators-OnlySyntax (comparing op e rest) =
      sequenced _ _ (guarded (is_allowed op)) (check_operators-OnlySyntax rest)

  check_comparators-OnlySyntax : (cs : Comparators) → OnlySyntax (check_comparators cs)
  check_comparators-OnlySyntax finished = tt
  check_comparators-OnlySyntax (comparing op e rest) =
      sequenced _ _ (check_node-OnlySyntax e) (check_comparators-OnlySyntax rest)

  check_argument-OnlySyntax : (exists : Bool) (es : Exprs) → OnlySyntax (check_argument exists es)
  check_argument-OnlySyntax exists none_left = tt
  check_argument-OnlySyntax exists (more e (more e' es)) = tt
  check_argument-OnlySyntax exists (more e none_left) =
      sequenced _ _ (guarded (not exists || is_reference e)) (check_node-OnlySyntax e)

Any-ensures {ℓ} : {A : Type ℓ} (r : Result A) → Ensures Any r
Any-ensures (ok a) = tt
Any-ensures (err e) = tt

-- A tree, an ExpressionSyntaxError, or an exception of the parser.
abbrev OnlyParse : Result Expr → Type 0
OnlyParse (ok e) = Unit
OnlyParse (err expression_syntax) = Unit
OnlyParse (err (external e)) = Unit
OnlyParse (err _) = ⊥

only_parse : (r : Result Expr) → OnlySyntax r → OnlyParse r
only_parse (ok e) h = tt
only_parse (err expression_syntax) h = tt
only_parse (err (external e)) h = tt
only_parse (err _) h = absurd h

syntax-IsVerdict : (r : Result Expr) → OnlyParse r → IsVerdict (as_not_a_condition r)
syntax-IsVerdict (ok a) h = tt
syntax-IsVerdict (err (external e)) h = tt
syntax-IsVerdict (err expression_syntax) h = tt
syntax-IsVerdict (err _) h = absurd h

data-IsVerdict {ℓ} : {A : Type ℓ} (r : Result A) → Normalizes r → IsVerdict (as_invalid_data r)
data-IsVerdict (ok a) h = tt
data-IsVerdict (err data_normalization) h = tt
data-IsVerdict (err (limit_exceeded kind actual limit)) h = tt
data-IsVerdict (err (external e)) h = tt
data-IsVerdict (err _) h = absurd h

Outcome-IsVerdict {ℓ} : {A : Type ℓ} (r : Result A) → Outcome Any r → IsVerdict r
Outcome-IsVerdict (ok a) h = tt
Outcome-IsVerdict (err (condition_evaluation malformed_node)) h = absurd h
Outcome-IsVerdict (err (condition_evaluation r)) h = tt
Outcome-IsVerdict (err _) h = absurd h

abbrev IsChecked : Expr → Type 0
IsChecked e = check_node e ≡ ok tt

IsChecked-tree :
    (r : Result (Unit {0})) (e : Expr) → r ≡ check_node e → Ensures IsChecked (r >> ok e)
IsChecked-tree (ok _) e h = sym h
IsChecked-tree (err x) e h = tt

as_not_a_condition-Ensures :
    (r : Result Expr) → Ensures IsChecked r → Ensures IsChecked (as_not_a_condition r)
as_not_a_condition-Ensures (ok a) h = h
as_not_a_condition-Ensures (err expression_syntax) h = tt
as_not_a_condition-Ensures (err _) h = tt

as_invalid_data-Ensures :
    (r : Result EvalContext)
    → Ensures IsNormalContext r
    → Ensures IsNormalContext (as_invalid_data r)
as_invalid_data-Ensures (ok a) h = h
as_invalid_data-Ensures (err data_normalization) h = tt
as_invalid_data-Ensures (err _) h = tt

tree_checked : (o : Parsed) → Ensures IsChecked (checked o)
unfolding checked
tree_checked syntax_error = tt
tree_checked (parser_error e) = tt
tree_checked (parsed e) = IsChecked-tree (check_node e) e refl

tree_syntax : (o : Parsed) → OnlyParse (checked o)
unfolding checked
tree_syntax syntax_error = tt
tree_syntax (parser_error e) = tt
tree_syntax (parsed e) = only_parse _ (sequenced _ _ (check_node-OnlySyntax e) tt)

normalized : (v : Object) → Ensures IsNormal (normalize_json_value default_collection_items v)
unfolding normalize_json_value
normalized v = normalize_value-Ensures max_json_depth default_collection_items 0 v

abbrev AreNormal : Entries → Type 0
AreNormal es = IsNormal (dict es)

entries_normal : (v : Object) → IsNormal v → Ensures AreNormal (as_entries v)
entries_normal (dict es) h = h
entries_normal _ h = tt

object_normal : (v : Object) → Ensures AreNormal (normalize_json_object default_collection_items v)
unfolding normalize_json_object
object_normal v = Ensures->>= IsNormal AreNormal _ _ (normalized v) entries_normal

context_normal :
    (input : Object) (step_outputs params : Entries)
    → Ensures IsNormalContext (normalized_context input step_outputs params)
unfolding normalized_context
context_normal input step_outputs params =
    Ensures->>= IsNormal IsNormalContext _ _ (normalized input) λ i hi.
      Ensures->>= AreNormal IsNormalContext _ _ (object_normal (dict step_outputs)) λ s hs.
        Ensures->>= AreNormal IsNormalContext _ _ (object_normal (dict params))
          λ p hp. record { input = hi; step_outputs = hs; params = hp }

-- For any parser, condition and data, `evaluate_condition` gives a verdict, raises a
-- ConditionEvaluationError that is not about the shape of the tree, lets a LimitExceededError of the
-- normalization through, or an exception other than SyntaxError that ast.parse, a model's dump or a field
-- of a dataclass has raised.
pub evaluate_condition-IsVerdict :
    (parse : String → Parsed) (condition : String) (input : Object) (step_outputs params : Entries)
    → IsVerdict (evaluate_condition parse condition input step_outputs params)
unfolding evaluate_condition
evaluate_condition-IsVerdict parse condition input step_outputs params =
    IsVerdict->>= IsChecked _ _ (syntax-IsVerdict _ (tree_syntax (parse condition)))
      (as_not_a_condition-Ensures _ (tree_checked (parse condition)))
      λ tree checked.
        IsVerdict->>= IsNormalContext _ _
          (data-IsVerdict _ (context-Normalizes input step_outputs params))
          (as_invalid_data-Ensures _ (context_normal input step_outputs params))
          λ c normal.
            IsVerdict->>= Any _ _ (Outcome-IsVerdict _ (evaluate_safe c tree normal checked))
              (Any-ensures (evaluate tree c)) (λ v _. tt)
