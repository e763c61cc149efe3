-- ===== src/Engine/AuditCapture/Agreement.antt =====
-- Documents that differ at most at what a JSON Pointer of engine/audit_capture.py names.
use text.Mathlib.Text.{◌==◌ as str_eq}
use justflow.Common.{ℕ, zero, suc, String, ◌≡◌, false, Option, some, List, [], ◌∷◌}
use justflow.Common.Int.{ℤ, pos}
use justflow.Engine.Data.Objects.{
  Object, list, dict, Items, nil, cons, Entries, end, entry, Key, key,
}

-- Pairs of values that one token of a pointer allows to differ, by the pairs R that the rest allows:
-- all values of a dict or of a list for `*`, the values of a key, or the item at an index.
pub data EachEntry (R : Object → Object → Type 0) : Entries → Entries → Type 0 where
  each_end : EachEntry R end end
  each_entry :
      (k : Key) {v w : Object} {es fs : Entries}
      → R v w
      → EachEntry R es fs
      → EachEntry R (entry k v es) (entry k w fs)

pub data EachItem (R : Object → Object → Type 0) : Items → Items → Type 0 where
  each_nil : EachItem R nil nil
  each_cons :
      {v w : Object} {xs ys : Items} → R v w → EachItem R xs ys → EachItem R (cons v xs) (cons w ys)

pub data AtKey (R : Object → Object → Type 0) (token : String) : Entries → Entries → Type 0 where
  at_end : AtKey R token end end
  at_token :
      (j : String) {v w : Object} {es fs : Entries}
      → j ≡ token
      → R v w
      → AtKey R token es fs
      → AtKey R token (entry (key j) v es) (entry (key j) w fs)
  at_other :
      (k : Key) (v : Object) {es fs : Entries}
      → AtKey R token es fs
      → AtKey R token (entry k v es) (entry k v fs)

pub data AtItem (R : Object → Object → Type 0) : ℕ → Items → Items → Type 0 where
  at_this : {v w : Object} (xs : Items) → R v w → AtItem R zero (cons v xs) (cons w xs)
  at_later :
      (i : ℕ) (v : Object) {xs ys : Items}
      → AtItem R i xs ys
      → AtItem R (suc i) (cons v xs) (cons v ys)

pub data Below (int_of : String → Option ℤ) (token : String) (R : Object → Object → Type 0)
    : Object → Object → Type 0 where
  same : (v : Object) → Below int_of token R v v
  every_value :
      {es fs : Entries} → token ≡ "*" → EachEntry R es fs → Below int_of token R (dict es) (dict fs)
  every_item :
      {xs ys : Items} → token ≡ "*" → EachItem R xs ys → Below int_of token R (list xs) (list ys)
  at_key :
      {es fs : Entries}
      → str_eq token "*" ≡ false
      → AtKey R token es fs
      → Below int_of token R (dict es) (dict fs)
  at_item :
      (i : ℕ) {xs ys : Items}
      → str_eq token "*" ≡ false
      → int_of token ≡ some (pos i)
      → AtItem R i xs ys
      → Below int_of token R (list xs) (list ys)

-- Two documents that agree but for what the tokens of a pointer name.
unfoldable pub Agree : (String → Option ℤ) → List String → Object → Object → Type 0
Agree int_of [] v w = Unit {0}
Agree int_of (token ∷ tokens) v w = Below int_of token (Agree int_of tokens) v w
