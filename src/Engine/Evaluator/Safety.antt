-- ===== src/Engine/Evaluator/Safety.antt =====
-- The check of engine/evaluator.py and the errors of its evaluation.
use justflow.Common.{
  ◌==◌, String, ◌≡◌, refl, ◌∙◌, Bool, true, false, not, ◌||◌, Option, none, some, [], ◌∷◌, arith,
  Option-cases, inl, inr, ◌⊎◌, if◌then◌else◌,
}
use text.Mathlib.Text.{◌==◌ as str_eq}
use mathlib.Core.Path.{subst}
use justflow.Engine.Exceptions.{
  Raised, Reason, condition_evaluation, unknown_root, bad_path, not_comparable, no_length,
  data_path, type_error, Result, ok, err, guard, ◌>>=◌, ◌>>◌,
}
use justflow.Engine.Data.Objects.{
  Float, Object, Items, Entries, find_entry, item_at, bool, int, str, list, tuple, dict, nil, cons,
}
use justflow.Common.Int.{pos}
use justflow.Engine.Data.Normalize.{max_json_depth, default_collection_items}
use justflow.Engine.Data.Paths.{
  Token, or_data_path, name, index, flag, resolve_token, resolve_tokens, resolve_json_path,
}
use justflow.Engine.Data.Json.{IsJson}
use justflow.Engine.Data.Traversal.{
  IsNormal, IsJson-le, Found, find_entry-IsJson, resolve_json_path_normal,
  resolve_json_path-IsNormal,
}
use justflow.Engine.Evaluator.Syntax.{
  Comparison, equal, not_equal, less, less_equal, greater, greater_equal, inside, not_inside,
  identical, not_identical, Expr, bool_op, unary_op, compare, call, attribute, subscript, reference,
  constant, list_display, tuple_display, unsupported, Exprs, none_left, more, Comparators, finished,
  comparing, token_of, is_literal_name, is_reference, is_allowed, is_negation, is_function,
  is_subscript_constant, check_node, check_all, check_operators, check_comparators, check_argument,
  all_constants,
}
use justflow.Engine.Evaluator.Operators.{
  compare_values, less_value, less_items, less_numbers, number_of, eq_value, member_of, len_value,
  is_truthy,
}
use justflow.Engine.Evaluator.Evaluate.{
  EvalContext, resolve_root, get_path_value, as_not_comparable, as_existence, as_length,
  name_literal, evaluate, evaluate_until, evaluate_compare, evaluate_call, evaluate_elements,
  is_conjunction,
}

-- The errors that a checked condition may raise at run time.
abbrev pub IsRuntime : Reason → Type 0
IsRuntime unknown_root = Unit
IsRuntime bad_path = Unit
IsRuntime not_comparable = Unit
IsRuntime no_length = Unit
IsRuntime _ = ⊥

abbrev pub Outcome {ℓ} : {A : Type ℓ} → (A → Type 0) → Result A → Type 0
Outcome P (ok a) = P a
Outcome P (err (condition_evaluation r)) = IsRuntime r
Outcome P (err _) = ⊥

-- A value, or a TypeError.
abbrev OnlyType {ℓ} : {A : Type ℓ} → Result A → Type 0
OnlyType (ok a) = Unit
OnlyType (err type_error) = Unit
OnlyType (err _) = ⊥

abbrev pub Any {ℓ} : {A : Type ℓ} → A → Type 0
Any a = Unit

Outcome->>= {ℓ κ} :
    {A : Type ℓ} {B : Type κ} (P : A → Type 0) (Q : B → Type 0) (m : Result A) (f : A → Result B)
    → Outcome P m
    → ((a : A) → P a → Outcome Q (f a))
    → Outcome Q (m >>= f)
Outcome->>= P Q (ok a) f h k = k a h
Outcome->>= P Q (err (condition_evaluation r)) f h k = h
Outcome->>= P Q (err _) f h k = absurd h

guard-eq-ok {ℓ} :
    {A : Type ℓ} (b : Bool) (e : Raised) (r : Result A) {a : A}
    → (guard b e >> r) ≡ ok a
    → (b ≡ true) × (r ≡ ok a)
guard-eq-ok true e r h = (refl, h)
guard-eq-ok false e r h = cc

guard-true : (b : Bool) (e : Raised) → guard b e ≡ ok tt → b ≡ true
guard-true true e h = refl
guard-true false e h = cc

seq-eq-ok {ℓ} :
    {A : Type ℓ} (m : Result (Unit {0})) (r : Result A) {a : A}
    → (m >> r) ≡ ok a
    → (m ≡ ok tt) × (r ≡ ok a)
seq-eq-ok (ok _) r h = (refl, h)
seq-eq-ok (err e) r h = cc

If_ind {ℓ} : {A : Type ℓ} (P : A → Type 0) (b : Bool) {x y : A} → P x → P y → P (if b then x else y)
If_ind P true hx hy = hx
If_ind P false hx hy = hy

less_numbers-OnlyType : (strict : Bool) (x y : Option Float) → OnlyType (less_numbers strict x y)
less_numbers-OnlyType true (some x) (some y) = tt
less_numbers-OnlyType false (some x) (some y) = tt
less_numbers-OnlyType _ _ _ = tt

mutual
  unfolding less_value

  less_value-OnlyType : (strict : Bool) (a b : Object) → OnlyType (less_value strict a b)
  less_value-OnlyType strict (str s) (str t) = tt
  less_value-OnlyType strict (list xs) (list ys) = less_items-OnlyType strict xs ys
  less_value-OnlyType strict (tuple xs) (tuple ys) = less_items-OnlyType strict xs ys
  less_value-OnlyType strict a b = less_numbers-OnlyType strict (number_of a) (number_of b)

  less_items-OnlyType : (strict : Bool) (xs ys : Items) → OnlyType (less_items strict xs ys)
  less_items-OnlyType strict nil nil = tt
  less_items-OnlyType strict nil (cons y ys) = tt
  less_items-OnlyType strict (cons x xs) nil = tt
  less_items-OnlyType strict (cons x xs) (cons y ys) =
      If_ind OnlyType (eq_value x y) (less_items-OnlyType strict xs ys)
        (less_value-OnlyType strict x y)

member_of-OnlyType : (v w : Object) → OnlyType (member_of v w)
unfolding member_of
member_of-OnlyType (str s) (str t) = tt
member_of-OnlyType v (list xs) = tt
member_of-OnlyType v (tuple xs) = tt
member_of-OnlyType (str s) (dict es) = tt
member_of-OnlyType (list xs) (dict es) = tt
member_of-OnlyType (dict fs) (dict es) = tt
member_of-OnlyType v (dict es) = tt
member_of-OnlyType v w = tt

not-OnlyType : (r : Result Bool) → OnlyType r → OnlyType (r >>= λ b. ok (not b))
not-OnlyType (ok b) h = tt
not-OnlyType (err type_error) h = tt
not-OnlyType (err _) h = absurd h

compare_values-OnlyType :
    (op : Comparison) (a b : Object) → is_allowed op ≡ true → OnlyType (compare_values op a b)
unfolding compare_values
compare_values-OnlyType equal a b h = tt
compare_values-OnlyType not_equal a b h = tt
compare_values-OnlyType less a b h = less_value-OnlyType true a b
compare_values-OnlyType less_equal a b h = less_value-OnlyType false a b
compare_values-OnlyType greater a b h = less_value-OnlyType true b a
compare_values-OnlyType greater_equal a b h = less_value-OnlyType false b a
compare_values-OnlyType inside a b h = member_of-OnlyType a b
compare_values-OnlyType not_inside a b h = not-OnlyType (member_of a b) (member_of-OnlyType a b)
compare_values-OnlyType identical a b h = cc
compare_values-OnlyType not_identical a b h = cc

as_not_comparable-Outcome : (r : Result Bool) → OnlyType r → Outcome Any (as_not_comparable r)
as_not_comparable-Outcome (ok b) h = tt
as_not_comparable-Outcome (err type_error) h = tt
as_not_comparable-Outcome (err _) h = absurd h

as_length-Outcome : (v : Object) → Outcome Any (as_length (len_value v))
unfolding len_value
as_length-Outcome (str s) = tt
as_length-Outcome _ = tt

as_existence-Outcome : (r : Result Object) → Outcome Any r → Outcome Any (as_existence r)
as_existence-Outcome (ok v) h = tt
as_existence-Outcome (err (condition_evaluation r)) h = tt
as_existence-Outcome (err _) h = absurd h

pub record IsNormalContext (c : EvalContext) : Type 0 where
  pub input : IsNormal c.input
  pub step_outputs : IsNormal (dict c.step_outputs)
  pub params : IsNormal (dict c.params)

module _ (es : Entries) (h : IsNormal (dict es)) (id : String) where
  -- What a name stands for in a normalized namespace.
  found-IsNormal : {v : Object} → find_entry id es ≡ some v → IsNormal v
  unfolding IsJson
  found-IsNormal {v} e = IsJson-le max_json_depth default_collection_items 1 0 v (omega arith) (
      subst (Found (IsJson max_json_depth default_collection_items 1)) e
        (find_entry-IsJson max_json_depth default_collection_items 1 es id h.2))

pub resolve_root-Outcome :
    (id : String) (c : EvalContext) → IsNormalContext c → Outcome IsNormal (resolve_root id c)
unfolding resolve_root
resolve_root-Outcome id c n =
    If_ind (Outcome IsNormal) (str_eq id "input") n.input
      (elim (Option-cases (find_entry id c.step_outputs)) [
        | inr (v, e) ↦ rw e (found-IsNormal c.step_outputs n.step_outputs id e)
        | inl missing ↦ rw missing (elim (Option-cases (find_entry id c.params)) [
          | inr (v, e) ↦ rw e (found-IsNormal c.params n.params id e)
          | inl missing' ↦ rw missing' tt
        ])
      ])

or_data_path_cases :
    (o : Option Object)
    → ((w : Object) × (or_data_path o ≡ ok w)) ⊎ (or_data_path o ≡ err data_path)
or_data_path_cases none = inr refl
or_data_path_cases (some w) = inl (w, refl)

resolve_token_cases :
    (v : Object) (t : Token)
    → ((w : Object) × (resolve_token v t ≡ ok w)) ⊎ (resolve_token v t ≡ err data_path)
unfolding resolve_token
resolve_token_cases (dict es) (name k) = or_data_path_cases (find_entry k es)
resolve_token_cases (list xs) (index (pos i)) = or_data_path_cases (item_at xs i)
resolve_token_cases _ _ = inr refl

-- One more token from a normalized value: a normalized value, or a bad path.
get_path_value-Outcome :
    (v : Object) (t : Token) → IsNormal v → Outcome IsNormal (get_path_value v t)
unfolding get_path_value resolve_tokens
get_path_value-Outcome v t h =
    let step = resolve_json_path_normal v (t ∷ []) h (omega arith) in
    elim (resolve_token_cases v t) [
      | inl (w, e) ↦
          let found : resolve_json_path v (t ∷ []) ≡ ok w = step ∙ rw (e, resolve_tokens) in
          rw found (resolve_json_path-IsNormal v (t ∷ []) {w = w} found)
      | inr e ↦ rw (step, e) tt
    ]

name_literal-IsNormal : (id : String) → IsNormal (name_literal id)
unfolding name_literal IsJson
name_literal-IsNormal id = If_ind IsNormal (str_eq id "true") (omega arith) (
    If_ind IsNormal (str_eq id "True") (omega arith) (
      If_ind IsNormal (str_eq id "false") (omega arith)
        (If_ind IsNormal (str_eq id "False") (omega arith) (omega arith))))

subscript_token :
    (slice : Expr) → is_subscript_constant slice ≡ true → (t : Token) × (token_of slice ≡ some t)
subscript_token (constant (str s)) h = (name s, refl)
subscript_token (constant (int n)) h = (index n, refl)
subscript_token (constant (bool b)) h = (flag b, refl)
subscript_token slice h = cc

module _ (c : EvalContext) (n : IsNormalContext c) where
  -- A reference evaluates to a normalized value.
  reference-Outcome :
      (e : Expr) → is_reference e ≡ true → check_node e ≡ ok tt → Outcome IsNormal (evaluate e c)
  unfolding evaluate check_node is_reference
  reference-Outcome (attribute value attr) r h =
      let (r', h') = guard-eq-ok (is_reference value) _ _ h in
      Outcome->>= IsNormal IsNormal _ _ (reference-Outcome value r' h')
        (λ v. get_path_value-Outcome v (name attr))
  reference-Outcome (subscript value slice) r h =
      let (r', h') = guard-eq-ok (is_reference value) _ _ h in
      let (s, h'') = guard-eq-ok (is_subscript_constant slice) _ _ h' in
      let (t, e) = subscript_token slice s in
      rw e (
        Outcome->>= IsNormal IsNormal _ _ (reference-Outcome value r' h'')
          (λ v. get_path_value-Outcome v t))
  reference-Outcome (reference id) r h =
      If_ind (Outcome IsNormal) (is_literal_name id) (name_literal-IsNormal id)
        (resolve_root-Outcome id c n)
  reference-Outcome e r h = cc

Outcome-Any {ℓ} : {A : Type ℓ} (P : A → Type 0) (r : Result A) → Outcome P r → Outcome Any r
Outcome-Any P (ok v) h = tt
Outcome-Any P (err (condition_evaluation r)) h = h
Outcome-Any P (err _) h = absurd h

Outcome-map {ℓ κ} :
    {A : Type ℓ} {B : Type κ} (r : Result A) (f : A → B)
    → Outcome Any r
    → Outcome Any (r >>= λ a. ok (f a))
Outcome-map r f h = Outcome->>= Any Any r _ h (λ _ _. tt)

mutual
  unfolding evaluate check_node all_constants

  evaluate-Outcome :
      (c : EvalContext) (n : IsNormalContext c) (e : Expr)
      → check_node e ≡ ok tt
      → Outcome Any (evaluate e c)
  evaluate-Outcome c n (bool_op op values) h =
      Outcome-map _ bool (until-Outcome c n (is_conjunction op) values h)
  evaluate-Outcome c n (unary_op op operand) h =
      Outcome-map _ _ (evaluate-Outcome c n operand (guard-eq-ok (is_negation op) _ _ h).1)
  evaluate-Outcome c n (compare left rest) h =
      let (ops, h') = seq-eq-ok (check_operators rest) _ h in
      let (l, r) = seq-eq-ok (check_node left) _ h' in
      Outcome->>= Any Any _ _ (evaluate-Outcome c n left l)
        λ v _. Outcome-map _ bool (compare-Outcome c n v rest ops r)
  evaluate-Outcome c n (call (reference id) args keywords) h =
      let (_, h') = guard-eq-ok (is_function (reference id)) _ _ h in
      let (_, h'') = guard-eq-ok (keywords == 0) _ _ h' in
      call-Outcome c n (str_eq id "exists") args h''
  evaluate-Outcome c n (call func args keywords) h = cc
  evaluate-Outcome c n (attribute value attr) h =
      Outcome-Any IsNormal _ (reference-Outcome c n (attribute value attr) refl h)
  evaluate-Outcome c n (subscript value slice) h =
      Outcome-Any IsNormal _ (reference-Outcome c n (subscript value slice) refl h)
  evaluate-Outcome c n (reference id) h =
      Outcome-Any IsNormal _ (reference-Outcome c n (reference id) refl h)
  evaluate-Outcome c n (constant v) h = tt
  evaluate-Outcome c n (list_display es) h =
      Outcome-map _ list (elements-Outcome c n es (guard-true (all_constants es) _ h))
  evaluate-Outcome c n (tuple_display es) h =
      Outcome-map _ tuple (elements-Outcome c n es (guard-true (all_constants es) _ h))
  evaluate-Outcome c n (unsupported kind) h = cc

  until-Outcome :
      (c : EvalContext) (n : IsNormalContext c) (proceed : Bool) (es : Exprs)
      → check_all es ≡ ok tt
      → Outcome Any (evaluate_until proceed es c)
  until-Outcome c n proceed none_left h = tt
  until-Outcome c n true (more e es) h =
      let (h', hs) = seq-eq-ok (check_node e) _ h in
      let rest = until-Outcome c n true es hs in
      Outcome->>= Any Any _ _ (evaluate-Outcome c n e h')
        λ v _. If_ind (Outcome Any) (is_truthy v) rest tt
  until-Outcome c n false (more e es) h =
      let (h', hs) = seq-eq-ok (check_node e) _ h in
      let rest = until-Outcome c n false es hs in
      Outcome->>= Any Any _ _ (evaluate-Outcome c n e h')
        λ v _. If_ind (Outcome Any) (is_truthy v) tt rest

  compare-Outcome :
      (c : EvalContext) (n : IsNormalContext c) (left : Object) (rest : Comparators)
      → check_operators rest ≡ ok tt
      → check_comparators rest ≡ ok tt
      → Outcome Any (evaluate_compare left rest c)
  compare-Outcome c n left finished ops h = tt
  compare-Outcome c n left (comparing op e rest) ops h =
      let (allowed, ops') = guard-eq-ok (is_allowed op) _ _ ops in
      let (h', hs) = seq-eq-ok (check_node e) _ h in
      Outcome->>= Any Any _ _ (evaluate-Outcome c n e h') λ right _.
        Outcome->>= Any Any _ _
          (as_not_comparable-Outcome (compare_values op left right)
            (compare_values-OnlyType op left right allowed))
          λ holds _. If_ind (Outcome Any) holds (compare-Outcome c n right rest ops' hs) tt

  call-Outcome :
      (c : EvalContext) (n : IsNormalContext c) (exists : Bool) (args : Exprs)
      → check_argument exists args ≡ ok tt
      → Outcome Any (evaluate_call exists args c)
  call-Outcome c n exists none_left h = cc
  call-Outcome c n exists (more e (more e' es)) h = cc
  call-Outcome c n true (more e none_left) h =
      as_existence-Outcome _
        (evaluate-Outcome c n e (guard-eq-ok (not true || is_reference e) _ _ h).1)
  call-Outcome c n false (more e none_left) h =
      Outcome->>= Any Any _ _ (evaluate-Outcome c n e h) (λ v _. as_length-Outcome v)

  elements-Outcome :
      (c : EvalContext) (n : IsNormalContext c) (es : Exprs)
      → all_constants es ≡ true
      → Outcome Any (evaluate_elements es c)
  elements-Outcome c n none_left h = tt
  elements-Outcome c n (more (constant v) es) h = Outcome-map _ (cons v) (elements-Outcome c n es h)
  elements-Outcome c n (more e es) h = cc

-- A condition that passed the check evaluates to a value or to one of four errors: an unknown root, a
-- path that leads nowhere, values that cannot be compared, or a length of what has none. It meets no
-- node that the check should have refused, and no limit.
pub evaluate_safe :
    (c : EvalContext) (e : Expr)
    → IsNormalContext c
    → check_node e ≡ ok tt
    → Outcome Any (evaluate e c)
evaluate_safe c e n h = evaluate-Outcome c n e h
