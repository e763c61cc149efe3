-- ===== src/Engine/Evaluator/Syntax.antt =====
-- The whitelist of src/justflow/engine/evaluator.py (`parse_condition`, `_check_node`), and the
-- references of a condition (`condition_reference_roots`, `_condition_reference`).
use text.Mathlib.Text.{◌==◌ as str_eq}
use justflow.Common.{
  ℕ, String, Bool, true, false, not, ◌&&◌, ◌||◌, Option, none, some, List, [], ◌∷◌, ◌++◌, ◌==◌,
  if◌then◌else◌,
}
use justflow.Engine.Exceptions.{expression_syntax, external, Result, ok, err, guard, ◌>>=◌, ◌>>◌}
use justflow.Engine.Data.Objects.{Object}
use justflow.Engine.Data.Paths.{Token}
use justflow.Engine.Data.Objects.{null, bool, int, float, str}
use justflow.Engine.Data.Paths.{name, index, flag}

pub data BoolOperator : Type 0 where
  conjunction disjunction : BoolOperator

pub data UnaryOperator : Type 0 where
  negation other_unary : UnaryOperator

pub data Comparison : Type 0 where
  equal not_equal less less_equal greater greater_equal inside not_inside : Comparison
  identical not_identical : Comparison

-- The nodes of `ast` that the code tells apart; `unsupported` is any other.
mutual
  pub data Expr : Type 0 where
    bool_op : BoolOperator → Exprs → Expr
    unary_op : UnaryOperator → Expr → Expr
    compare : Expr → Comparators → Expr
    call : (func : Expr) (args : Exprs) (keywords : ℕ) → Expr
    attribute : Expr → String → Expr
    subscript : Expr → (slice : Expr) → Expr
    reference : String → Expr
    constant : Object → Expr
    list_display tuple_display : Exprs → Expr
    unsupported : ℕ → Expr

  pub data Exprs : Type 0 where
    none_left : Exprs
    more : Expr → Exprs → Exprs

  -- `zip(node.ops, node.comparators)`
  pub data Comparators : Type 0 where
    finished : Comparators
    comparing : Comparison → Expr → Comparators → Comparators

unfoldable pub is_literal_name : String → Bool
is_literal_name id =
    str_eq id "true"
    || str_eq id "false"
    || str_eq id "null"
    || str_eq id "True"
    || str_eq id "False"
    || str_eq id "None"

unfoldable pub is_function_name : String → Bool
is_function_name id = str_eq id "len" || str_eq id "exists"

-- isinstance(node, _REFERENCE_NODES)
unfoldable pub is_reference : Expr → Bool
is_reference (attribute e a) = true
is_reference (subscript e s) = true
is_reference (reference id) = true
is_reference _ = false

abbrev pub is_allowed : Comparison → Bool
is_allowed identical = false
is_allowed not_identical = false
is_allowed _ = true

abbrev pub is_negation : UnaryOperator → Bool
is_negation negation = true
is_negation other_unary = false

-- A `bool` is an `int` for isinstance.
abbrev pub is_subscript_constant : Expr → Bool
is_subscript_constant (constant (str s)) = true
is_subscript_constant (constant (int n)) = true
is_subscript_constant (constant (bool b)) = true
is_subscript_constant _ = false

abbrev pub is_scalar : Object → Bool
is_scalar null = true
is_scalar (bool b) = true
is_scalar (int n) = true
is_scalar (float x) = true
is_scalar (str s) = true
is_scalar _ = false

abbrev pub is_constant : Expr → Bool
is_constant (constant v) = true
is_constant _ = false

abbrev pub is_function : Expr → Bool
is_function (reference id) = is_function_name id
is_function _ = false

abbrev pub is_exists : Expr → Bool
is_exists (reference id) = str_eq id "exists"
is_exists _ = false

unfoldable pub all_constants : Exprs → Bool
all_constants none_left = true
all_constants (more e es) = is_constant e && all_constants es

unfoldable mutual
  unfolding is_reference is_function_name all_constants

  pub check_node : Expr → Result (Unit {0})
  check_node (bool_op op values) = check_all values
  check_node (unary_op op operand) = guard (is_negation op) expression_syntax >> check_node operand
  check_node (compare left rest) =
      check_operators rest >> (check_node left >> check_comparators rest)
  check_node (call func args keywords) =
      guard (is_function func) expression_syntax
      >> (guard (keywords == 0) expression_syntax >> check_argument (is_exists func) args)
  check_node (attribute value attr) =
      guard (is_reference value) expression_syntax >> check_node value
  check_node (subscript value slice) =
      guard (is_reference value) expression_syntax
      >> (guard (is_subscript_constant slice) expression_syntax >> check_node value)
  check_node (reference id) = ok tt
  check_node (constant v) = guard (is_scalar v) expression_syntax
  check_node (list_display es) = guard (all_constants es) expression_syntax
  check_node (tuple_display es) = guard (all_constants es) expression_syntax
  check_node (unsupported kind) = err expression_syntax

  pub check_all : Exprs → Result (Unit {0})
  check_all none_left = ok tt
  check_all (more e es) = check_node e >> check_all es

  pub check_operators : Comparators → Result (Unit {0})
  check_operators finished = ok tt
  check_operators (comparing op e rest) =
      guard (is_allowed op) expression_syntax >> check_operators rest

  pub check_comparators : Comparators → Result (Unit {0})
  check_comparators finished = ok tt
  check_comparators (comparing op e rest) = check_node e >> check_comparators rest

  -- exactly one argument, and a reference under exists()
  pub check_argument : (exists : Bool) → Exprs → Result (Unit {0})
  check_argument exists none_left = err expression_syntax
  check_argument exists (more e (more e' es)) = err expression_syntax
  check_argument exists (more e none_left) =
      guard (not exists || is_reference e) expression_syntax >> check_node e

-- What `ast.parse` comes to: a tree, a SyntaxError, or another exception, such as the ValueError on a null
-- character, the UnicodeEncodeError on a surrogate and the MemoryError on a deep nesting.
pub data Parsed : Type 0 where
  parsed : Expr → Parsed
  syntax_error : Parsed
  parser_error : ℕ → Parsed

-- `except SyntaxError`: another exception passes
unfoldable pub checked : Parsed → Result Expr
unfolding check_node
checked syntax_error = err expression_syntax
checked (parser_error e) = err (external e)
checked (parsed tree) = check_node tree >> ok tree

module _ (parse : String → Parsed) where
  unfoldable pub parse_condition : String → Result Expr
  unfolding checked
  parse_condition expression = checked (parse expression)

-- The identifiers that `ast.walk` meets.
unfoldable mutual
  pub names : Expr → List String
  names (bool_op op values) = names_of values
  names (unary_op op operand) = names operand
  names (compare left rest) = names left ++ names_compared rest
  names (call func args keywords) = names func ++ names_of args
  names (attribute value attr) = names value
  names (subscript value slice) = names value ++ names slice
  names (reference id) = id ∷ []
  names (constant v) = []
  names (list_display es) = names_of es
  names (tuple_display es) = names_of es
  names (unsupported kind) = []

  pub names_of : Exprs → List String
  names_of none_left = []
  names_of (more e es) = names e ++ names_of es

  pub names_compared : Comparators → List String
  names_compared finished = []
  names_compared (comparing op e rest) = names e ++ names_compared rest

unfoldable pub keep_roots : List String → List String
unfolding is_literal_name is_function_name
keep_roots [] = []
keep_roots (id ∷ ids) =
    let rest = keep_roots ids in
    if not (is_literal_name id) && not (is_function_name id) then id ∷ rest else rest

-- The set of roots, as the list of its members in the order of the walk.
module _ (parse : String → Parsed) where
  unfoldable pub condition_reference_roots : String → Result (List String)
  unfolding keep_roots names parse_condition
  condition_reference_roots expression = do
    tree ← parse_condition parse expression
    ok (keep_roots (names tree))

abbrev pub token_of : Expr → Option Token
token_of (constant (str s)) = some (name s)
token_of (constant (int n)) = some (index n)
token_of (constant (bool b)) = some (flag b)
token_of _ = none

abbrev pub or_syntax : Option Token → Result Token
or_syntax none = err expression_syntax
or_syntax (some t) = ok t

-- The root of a chain of attributes and subscripts, and the tokens from it outwards.
unfoldable pub condition_reference : Expr → Result (String × List Token)
condition_reference (reference id) = ok (id, [])
condition_reference (attribute value attr) =
    condition_reference value >>= λ r. ok (r.0, r.1 ++ name attr ∷ [])
condition_reference (subscript value slice) =
    or_syntax (token_of slice) >>= λ t. condition_reference value >>= λ r. ok (r.0, r.1 ++ t ∷ [])
condition_reference _ = err expression_syntax
