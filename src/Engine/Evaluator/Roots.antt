-- ===== src/Engine/Evaluator/Roots.antt =====
-- The roots that `condition_reference_roots` of engine/evaluator.py reports, on which the flow analysis
-- relies, and the evaluation of a condition.
use mathlib.Core.Path.{subst, sym}
use justflow.Common.{
  String, ◌≡◌, refl, Bool, true, false, List, [], ◌∷◌, ◌++◌, All, Bool-cases, inl, inr,
  if◌then◌else◌,
}
use text.Mathlib.Text.{◌==◌ as str_eq}
use text.Mathlib.TextEquality.{eq_iff}
use justflow.Engine.Exceptions.{Result, ok, ◌>>=◌, bind_cong}
use justflow.Engine.Data.Objects.{Object}
use justflow.Engine.Evaluator.Syntax.{
  Expr, bool_op, unary_op, compare, call, attribute, subscript, reference, constant, list_display,
  tuple_display, unsupported, Exprs, none_left, more, Comparators, finished, comparing,
  is_literal_name, is_function_name, names, names_of, names_compared, keep_roots,
}
use justflow.Engine.Evaluator.Operators.{compare_values}
use justflow.Engine.Evaluator.Evaluate.{
  EvalContext, resolve_root, as_not_comparable, evaluate, evaluate_until, evaluate_compare,
  evaluate_call, evaluate_elements, is_conjunction,
}

pub All-append {ℓ κ} :
    {A : Type ℓ} (P : A → Type κ) (xs ys : List A) → All P (xs ++ ys) → All P xs × All P ys
All-append P [] ys h = (tt, h)
All-append P (x ∷ xs) ys h = let (hx, hy) = All-append P xs ys h.1 in ((h.0, hx), hy)

-- The two contexts give the root the same value, or the same error.
abbrev pub SameRoot : EvalContext → EvalContext → String → Type 0
SameRoot c d id = resolve_root id c ≡ resolve_root id d

module _ (c d : EvalContext) where
  abbrev Agrees : String → Type 0
  Agrees id = is_literal_name id ≡ false → SameRoot c d id

  function_agrees :
      (id : String)
      → is_function_name id ≡ true
      → SameRoot c d "len"
      → SameRoot c d "exists"
      → SameRoot c d id
  unfolding is_function_name
  function_agrees id h len exists = elim (Bool-cases (str_eq id "len")) [
    | inl is_len ↦ subst (SameRoot c d) (sym ((eq_iff id "len").0 is_len)) len
    | inr other ↦ subst (SameRoot c d) (sym ((eq_iff id "exists").0 (rw other at h))) exists
  ]

  kept_agree :
      (ids : List String)
      → All (SameRoot c d) (keep_roots ids)
      → SameRoot c d "len"
      → SameRoot c d "exists"
      → All Agrees ids
  unfolding keep_roots
  kept_agree [] h len exists = tt
  kept_agree (id ∷ ids) h len exists = elim (Bool-cases (is_literal_name id)) [
    | inl literal ↦ (λ free. cc, kept_agree ids (rw (literal, keep_roots) at h) len exists)
    | inr free ↦ elim (Bool-cases (is_function_name id)) [
      | inl function ↦ (
        λ _. function_agrees id function len exists,
        kept_agree ids (rw (free, function, keep_roots) at h) len exists,
      )
      | inr plain ↦
          let (same, rest) = rw (free, plain, keep_roots) at h in
          (λ _. same, kept_agree ids rest len exists)
    ]
  ]

chain_agree :
    (holds : Result Bool) {r t : Result Bool}
    → r ≡ t
    → (holds >>= λ b. if b then r else ok false) ≡ (holds >>= λ b. if b then t else ok false)
chain_agree holds e = rw e

mutual
  unfolding evaluate names

  evaluate_agree :
      (c d : EvalContext) (e : Expr) → All (Agrees c d) (names e) → evaluate e c ≡ evaluate e d
  evaluate_agree c d (bool_op op values) h = rw (until_agree c d (is_conjunction op) values h)
  evaluate_agree c d (unary_op op operand) h = rw (evaluate_agree c d operand h)
  evaluate_agree c d (compare left rest) h =
      let (hl, hr) = All-append (Agrees c d) (names left) (names_compared rest) h in
      bind_cong (evaluate_agree c d left hl) λ v. rw (compare_agree c d v rest hr)
  evaluate_agree c d (call (reference id) args keywords) h =
      call_agree c d (str_eq id "exists") args h.1
  evaluate_agree c d (call func args keywords) h = refl
  evaluate_agree c d (attribute value attr) h = rw (evaluate_agree c d value h)
  evaluate_agree c d (subscript value slice) h =
      rw (evaluate_agree c d value (All-append (Agrees c d) (names value) (names slice) h).0)
  evaluate_agree c d (reference id) h = elim (Bool-cases (is_literal_name id)) [
    | inl literal ↦ rw literal
    | inr free ↦ rw free (h.0 free)
  ]
  evaluate_agree c d (constant v) h = refl
  evaluate_agree c d (list_display es) h = rw (elements_agree c d es h)
  evaluate_agree c d (tuple_display es) h = rw (elements_agree c d es h)
  evaluate_agree c d (unsupported kind) h = refl

  until_agree :
      (c d : EvalContext) (proceed : Bool) (es : Exprs)
      → All (Agrees c d) (names_of es)
      → evaluate_until proceed es c ≡ evaluate_until proceed es d
  until_agree c d proceed none_left h = refl
  until_agree c d true (more e es) h =
      let (he, hs) = All-append (Agrees c d) (names e) (names_of es) h in
      rw (evaluate_agree c d e he, until_agree c d true es hs)
  until_agree c d false (more e es) h =
      let (he, hs) = All-append (Agrees c d) (names e) (names_of es) h in
      rw (evaluate_agree c d e he, until_agree c d false es hs)

  compare_agree :
      (c d : EvalContext) (left : Object) (rest : Comparators)
      → All (Agrees c d) (names_compared rest)
      → evaluate_compare left rest c ≡ evaluate_compare left rest d
  compare_agree c d left finished h = refl
  compare_agree c d left (comparing op e rest) h =
      let (he, hs) = All-append (Agrees c d) (names e) (names_compared rest) h in
      bind_cong (evaluate_agree c d e he) λ right.
        chain_agree (as_not_comparable (compare_values op left right))
          (compare_agree c d right rest hs)

  call_agree :
      (c d : EvalContext) (exists : Bool) (es : Exprs)
      → All (Agrees c d) (names_of es)
      → evaluate_call exists es c ≡ evaluate_call exists es d
  call_agree c d exists none_left h = refl
  call_agree c d true (more e es) h =
      rw (evaluate_agree c d e (All-append (Agrees c d) (names e) (names_of es) h).0)
  call_agree c d false (more e es) h =
      rw (evaluate_agree c d e (All-append (Agrees c d) (names e) (names_of es) h).0)

  elements_agree :
      (c d : EvalContext) (es : Exprs)
      → All (Agrees c d) (names_of es)
      → evaluate_elements es c ≡ evaluate_elements es d
  elements_agree c d none_left h = refl
  elements_agree c d (more e es) h =
      let (he, hs) = All-append (Agrees c d) (names e) (names_of es) h in
      rw (evaluate_agree c d e he, elements_agree c d es hs)

-- Two contexts that give the reported roots the same values evaluate the tree to the same result,
-- value or error. The names `len` and `exists` are never reported, so they are named here.
pub evaluate_roots :
    (c d : EvalContext) (tree : Expr)
    → All (SameRoot c d) (keep_roots (names tree))
    → SameRoot c d "len"
    → SameRoot c d "exists"
    → evaluate tree c ≡ evaluate tree d
evaluate_roots c d tree h len exists =
    evaluate_agree c d tree (kept_agree c d (names tree) h len exists)
