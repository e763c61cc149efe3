-- ===== src/Engine/Data/Traversal.antt =====
-- Paths of engine/data.py through JSON values.
use text.Mathlib.Text.{◌==◌ as str_eq}
use justflow.Common.{
  ℕ, zero, suc, ◌+◌, ◌≤◌, String, ◌≡◌, refl, arith, leb, List, [], ◌∷◌, ◌++◌, length, le→leb,
  Option, none, some, Bool-cases, inl, inr,
}
use justflow.Common.Int.{pos}
use justflow.Engine.Exceptions.{
  ok, ◌>>=◌, guard, data_path, Ensures, Ensures->>=, Ensures_ok, Result-cases, >>=-eq-ok,
}
use justflow.Engine.Data.Objects.{Object, Items, Entries, find_entry, item_at}
use justflow.Engine.Data.Normalize.{max_json_depth, default_collection_items, normalize_json_value}
use justflow.Engine.Data.Paths.{
  Token, max_path_tokens, resolve_token, resolve_tokens, resolve_json_path,
}
use justflow.Engine.Data.Objects.{
  finite, infinite, nan, key, opaque, null, bool, int, float, str, list, tuple, dict, model,
  dataclass, failing, other, nil, cons, end, entry,
}
use justflow.Engine.Data.Paths.{name, index, or_data_path}
use justflow.Engine.Data.Json.{
  IsJson, AreItems, AreEntries, normalize_value-id, normalize_value-IsJson,
}

-- A value that fits deep down fits higher up.
mutual
  unfolding IsJson

  pub IsJson-le : (m c d d' : ℕ) (v : Object) → d' ≤ d → IsJson m c d v → IsJson m c d' v
  IsJson-le m c d d' null l h = omega arith
  IsJson-le m c d d' (bool b) l h = omega arith
  IsJson-le m c d d' (int n) l h = omega arith
  IsJson-le m c d d' (str s) l h = omega arith
  IsJson-le m c d d' (float (finite n e)) l h = omega arith
  IsJson-le m c d d' (float (infinite s)) l h = absurd h
  IsJson-le m c d d' (float nan) l h = absurd h
  IsJson-le m c d d' (list xs) l h =
      (omega arith, h.1, AreItems-le m c (d + 1) (d' + 1) xs (omega arith) h.2)
  IsJson-le m c d d' (dict es) l h =
      (omega arith, h.1, AreEntries-le m c (d + 1) (d' + 1) es (omega arith) h.2)
  IsJson-le m c d d' (tuple xs) l h = absurd h
  IsJson-le m c d d' (model v) l h = absurd h
  IsJson-le m c d d' (dataclass es) l h = absurd h
  IsJson-le m c d d' (failing e) l h = absurd h
  IsJson-le m c d d' (other t) l h = absurd h

  AreItems-le : (m c d d' : ℕ) (xs : Items) → d' ≤ d → AreItems m c d xs → AreItems m c d' xs
  AreItems-le m c d d' nil l h = tt
  AreItems-le m c d d' (cons x xs) l h = (IsJson-le m c d d' x l h.0, AreItems-le m c d d' xs l h.1)

  AreEntries-le :
      (m c d d' : ℕ) (es : Entries) → d' ≤ d → AreEntries m c d es → AreEntries m c d' es
  AreEntries-le m c d d' end l h = tt
  AreEntries-le m c d d' (entry (key k) v es) l h =
      (IsJson-le m c d d' v l h.0, AreEntries-le m c d d' es l h.1)
  AreEntries-le m c d d' (entry (opaque k) v es) l h = absurd h

abbrev pub Found : (Object → Type 0) → Option Object → Type 0
Found P none = Unit
Found P (some v) = P v

module _ (m c : ℕ) where
  item_at-IsJson :
      (d : ℕ) (xs : Items) (i : ℕ) → AreItems m c d xs → Found (IsJson m c d) (item_at xs i)
  unfolding item_at IsJson
  item_at-IsJson d nil i h = tt
  item_at-IsJson d (cons x xs) zero h = h.0
  item_at-IsJson d (cons x xs) (suc i) h = item_at-IsJson d xs i h.1

  pub find_entry-IsJson :
      (d : ℕ) (es : Entries) (k : String)
      → AreEntries m c d es
      → Found (IsJson m c d) (find_entry k es)
  unfolding find_entry IsJson
  find_entry-IsJson d end k h = tt
  find_entry-IsJson d (entry (opaque j) v es) k h = absurd h
  find_entry-IsJson d (entry (key j) v es) k h = elim (Bool-cases (str_eq j k)) [
    | inl same ↦ rw same h.0
    | inr apart ↦ rw apart (find_entry-IsJson d es k h.1)
  ]

  found_or :
      (d : ℕ) (o : Option Object)
      → Found (IsJson m c (d + 1)) o
      → Ensures (IsJson m c d) (or_data_path o)
  found_or d none h = tt
  found_or d (some v) h = IsJson-le m c (d + 1) d v (omega arith) h

  resolve_token-IsJson :
      (d : ℕ) (v : Object) (t : Token) → IsJson m c d v → Ensures (IsJson m c d) (resolve_token v t)
  unfolding resolve_token IsJson
  resolve_token-IsJson d (dict es) (name k) h = found_or d _ (find_entry-IsJson (d + 1) es k h.2)
  resolve_token-IsJson d (list xs) (index (pos i)) h =
      found_or d _ (item_at-IsJson (d + 1) xs i h.2)
  resolve_token-IsJson d v t h = tt

  resolve_tokens-Ensures :
      (d : ℕ) (v : Object) (ts : List Token)
      → IsJson m c d v
      → Ensures (IsJson m c d) (resolve_tokens v ts)
  unfolding resolve_tokens
  resolve_tokens-Ensures d v [] h = h
  resolve_tokens-Ensures d v (t ∷ ts) h =
      Ensures->>= (IsJson m c d) (IsJson m c d) (resolve_token v t) _ (resolve_token-IsJson d v t h)
        (λ w. resolve_tokens-Ensures d w ts)

pub resolve_tokens-append :
    (v : Object) (xs ys : List Token)
    → resolve_tokens v (xs ++ ys) ≡ (resolve_tokens v xs >>= λ w. resolve_tokens w ys)
unfolding resolve_tokens
resolve_tokens-append v [] ys = refl
resolve_tokens-append v (t ∷ ts) ys = elim (Result-cases (resolve_token v t)) [
  | inl (w, e) ↦ rw e (resolve_tokens-append w ts ys)
  | inr (x, e) ↦ rw e
]

-- JSON values within the default bounds.
abbrev pub IsNormal : Object → Type 0
IsNormal = IsJson max_json_depth default_collection_items 0

-- Tokens lead from a normalized value to normalized values.
pub resolve_tokens-IsNormal :
    (v : Object) (ts : List Token) {w : Object}
    → IsNormal v
    → resolve_tokens v ts ≡ ok w
    → IsNormal w
resolve_tokens-IsNormal v ts h e =
    Ensures_ok IsNormal _ (resolve_tokens-Ensures max_json_depth default_collection_items 0 v ts h)
      e

normalize_json_value-id :
    (v : Object) → IsNormal v → normalize_json_value default_collection_items v ≡ ok v
unfolding normalize_json_value
normalize_json_value-id v h = normalize_value-id max_json_depth default_collection_items 0 v h

-- On a normalized value a path of admitted length only follows its tokens.
pub resolve_json_path_normal :
    (v : Object) (ts : List Token)
    → IsNormal v
    → length ts ≤ max_path_tokens
    → resolve_json_path v ts ≡ resolve_tokens v ts
unfolding resolve_json_path
resolve_json_path_normal v ts h l =
    rw (le→leb (length ts) max_path_tokens l, normalize_json_value-id v h)

-- What a path leads to is JSON within the default bounds, whatever it started from.
pub resolve_json_path-IsNormal :
    (v : Object) (ts : List Token) {w : Object} → resolve_json_path v ts ≡ ok w → IsNormal w
unfolding resolve_json_path normalize_json_value
resolve_json_path-IsNormal v ts e =
    let (_, _, e') = >>=-eq-ok (guard (leb (length ts) max_path_tokens) data_path) _ e in
    let (current, normal, e'') =
      >>=-eq-ok (normalize_json_value default_collection_items v) (λ x. resolve_tokens x ts) e' in
    Ensures_ok IsNormal _
      (resolve_tokens-Ensures max_json_depth default_collection_items 0 current ts
        (normalize_value-IsJson max_json_depth default_collection_items 0 v normal))
      e''
