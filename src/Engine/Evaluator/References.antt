-- ===== src/Engine/Evaluator/References.antt =====
-- A reference in a condition (engine/evaluator.py) is evaluated attribute by attribute, where
-- engine/references.py follows a whole path.
use justflow.Common.{
  String, ◌≡◌, refl, ◌∙◌, ap, false, Option, none, some, List, [], ◌∷◌, ◌++◌, arith, inl, inr,
}
use justflow.Engine.Exceptions.{
  Raised, data_normalization, data_path, Result, ok, err, ◌>>=◌, Result-cases, Ensures, Ensures->>=,
  Ensures_ok,
}
use justflow.Engine.Data.Objects.{Object}
use justflow.Engine.Data.Paths.{Token, name, resolve_tokens}
use justflow.Engine.Data.Traversal.{
  IsNormal, resolve_json_path_normal, resolve_tokens-append, resolve_tokens-IsNormal,
}
use justflow.Engine.Evaluator.Syntax.{
  Expr, attribute, subscript, reference, token_of, or_syntax, is_literal_name, condition_reference,
}
use justflow.Engine.Evaluator.Evaluate.{
  EvalContext, resolve_root, get_path_value, as_bad_path, or_malformed, evaluate,
}
use justflow.Engine.Evaluator.Safety.{IsNormalContext, Outcome, resolve_root-Outcome}

failed_step :
    (x : Raised) (t : Token)
    → (as_bad_path (err x) >>= λ w. get_path_value w t) ≡ as_bad_path (err x)
failed_step data_normalization t = refl
failed_step data_path t = refl
failed_step _ t = refl

-- One more token after a path.
path_step :
    (v : Object) (ts : List Token) (t : Token)
    → IsNormal v
    → (as_bad_path (resolve_tokens v ts) >>= λ w. get_path_value w t)
      ≡ as_bad_path (resolve_tokens v (ts ++ t ∷ []))
unfolding get_path_value
path_step v ts t h = elim (Result-cases (resolve_tokens v ts)) [
  | inl (w, e) ↦
      rw (resolve_tokens-append v ts (t ∷ []), e)
        (ap as_bad_path
          (resolve_json_path_normal w (t ∷ []) (resolve_tokens-IsNormal v ts h e) (omega arith)))
  | inr (x, e) ↦ rw (resolve_tokens-append v ts (t ∷ []), e) (failed_step x t)
]

-- Whatever the root's lookup gives, the next token extends the path.
extended :
    (root : Result Object) (ts : List Token) (t : Token)
    → Outcome IsNormal root
    → (root >>= λ v. as_bad_path (resolve_tokens v ts) >>= λ w. get_path_value w t)
      ≡ (root >>= λ v. as_bad_path (resolve_tokens v (ts ++ t ∷ [])))
extended (ok v) ts t h = path_step v ts t h
extended (err x) ts t h = refl

bind_assoc :
    (m : Result Object) (f g : Object → Result Object) → ((m >>= f) >>= g) ≡ (m >>= λ v. f v >>= g)
bind_assoc (ok v) f g = refl
bind_assoc (err x) f g = refl

abbrev along : String → List Token → EvalContext → Result Object
along root path c = resolve_root root c >>= λ v. as_bad_path (resolve_tokens v path)

unit_path :
    (r : Result Object) → Outcome IsNormal r → r ≡ (r >>= λ v. as_bad_path (resolve_tokens v []))
unfolding resolve_tokens
unit_path (ok v) h = refl
unit_path (err x) h = refl

module _ (c : EvalContext) (n : IsNormalContext c) where
  along-step :
      (root : String) (ts : List Token) (t : Token)
      → (along root ts c >>= λ w. get_path_value w t) ≡ along root (ts ++ t ∷ []) c
  along-step root ts t =
      bind_assoc (resolve_root root c) _ _
      ∙ extended (resolve_root root c) ts t (resolve_root-Outcome root c n)

  abbrev Follows : Expr → String × List Token → Type 0
  Follows e r = is_literal_name r.0 ≡ false → evaluate e c ≡ along r.0 r.1 c

  or_syntax-Ensures :
      (o : Option Token) → Ensures (λ (t : Token). or_malformed o ≡ ok t) (or_syntax o)
  or_syntax-Ensures none = tt
  or_syntax-Ensures (some t) = refl

  reference-Follows : (e : Expr) → Ensures (Follows e) (condition_reference e)
  unfolding condition_reference evaluate
  reference-Follows (reference id) =
      λ free. rw free (unit_path (resolve_root id c) (resolve_root-Outcome id c n))
  reference-Follows (attribute value attr) =
      Ensures->>= (Follows value) (Follows (attribute value attr)) _ _ (reference-Follows value)
        λ r h free. rw (h free) (along-step r.0 r.1 (name attr))
  reference-Follows (subscript value slice) =
      let inner = reference-Follows value in
      Ensures->>= (λ (t : Token). or_malformed (token_of slice) ≡ ok t)
        (Follows (subscript value slice)) _ _ (or_syntax-Ensures (token_of slice))
        λ t e.
          Ensures->>= (Follows value) (Follows (subscript value slice)) _ _ inner
            λ r h free. rw (e, h free) (along-step r.0 r.1 t)
  reference-Follows e = tt

  -- In a normalized context, a reference whose root is no literal evaluates to what its whole path
  -- leads to from the root, or to the same error.
  pub evaluate_reference :
      (e : Expr) (root : String) (path : List Token)
      → condition_reference e ≡ ok (root, path)
      → is_literal_name root ≡ false
      → evaluate e c ≡ (resolve_root root c >>= λ v. as_bad_path (resolve_tokens v path))
  evaluate_reference e root path h free =
      Ensures_ok (Follows e) (condition_reference e) (reference-Follows e) h free
