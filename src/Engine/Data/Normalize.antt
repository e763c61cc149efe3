-- ===== src/Engine/Data/Normalize.antt =====
-- `normalize_json_value` and `normalize_json_object` of src/justflow/engine/data.py.
use justflow.Common.{ℕ, ◌+◌, leb, if◌then◌else◌}
use justflow.Engine.Exceptions.{
  collection_items, external, data_normalization, Result, ok, err, ◌>>=◌, ◌>>◌,
}
use justflow.Engine.Limits.{enforce_limit}
use justflow.Engine.Data.Objects.{
  Float, finite, infinite, nan, key, opaque, Object, null, bool, int, float, str, list, tuple, dict,
  model, dataclass, failing, other, Items, nil, cons, Entries, end, entry, items_length,
  entries_length,
}

abbrev pub max_json_depth : ℕ
max_json_depth = 32

-- config/runtime_limits.py
abbrev pub default_collection_items : ℕ
default_collection_items = 10000

abbrev pub within_depth : (max_depth depth : ℕ) → Result Object → Result Object
within_depth max_depth depth r = if leb depth max_depth then r else err data_normalization

abbrev pub normalize_float : Float → Result Object
normalize_float (finite n e) = ok (float (finite n e))
normalize_float (infinite s) = err data_normalization
normalize_float nan = err data_normalization

unfoldable mutual
  unfolding items_length entries_length enforce_limit

  pub normalize_value : (max_depth max_items depth : ℕ) → Object → Result Object
  normalize_value m c d null = within_depth m d (ok null)
  normalize_value m c d (bool b) = within_depth m d (ok (bool b))
  normalize_value m c d (int n) = within_depth m d (ok (int n))
  normalize_value m c d (str s) = within_depth m d (ok (str s))
  normalize_value m c d (float x) = within_depth m d (normalize_float x)
  normalize_value m c d (model dump) = within_depth m d (normalize_value m c d dump)
  normalize_value m c d (dataclass fs) = within_depth m d (
      enforce_limit (entries_length fs) c collection_items
      >> (normalize_entries m c (d + 1) fs >>= λ fs'. ok (dict fs')))
  normalize_value m c d (dict es) = within_depth m d (
      enforce_limit (entries_length es) c collection_items
      >> (normalize_entries m c (d + 1) es >>= λ es'. ok (dict es')))
  normalize_value m c d (list xs) = within_depth m d (
      enforce_limit (items_length xs) c collection_items
      >> (normalize_items m c (d + 1) xs >>= λ xs'. ok (list xs')))
  normalize_value m c d (tuple xs) = within_depth m d (
      enforce_limit (items_length xs) c collection_items
      >> (normalize_items m c (d + 1) xs >>= λ xs'. ok (list xs')))
  normalize_value m c d (failing e) = within_depth m d (err (external e))
  normalize_value m c d (other t) = within_depth m d (err data_normalization)

  pub normalize_items : (max_depth max_items depth : ℕ) → Items → Result Items
  normalize_items m c d nil = ok nil
  normalize_items m c d (cons x xs) =
      normalize_value m c d x >>= λ x'. normalize_items m c d xs >>= λ xs'. ok (cons x' xs')

  pub normalize_entries : (max_depth max_items depth : ℕ) → Entries → Result Entries
  normalize_entries m c d end = ok end
  normalize_entries m c d (entry (opaque k) v es) = err data_normalization
  normalize_entries m c d (entry (key k) v es) = normalize_value m c d v >>= λ v'.
      normalize_entries m c d es >>= λ es'. ok (entry (key k) v' es')

unfoldable pub normalize_json_value : (max_items : ℕ) → Object → Result Object
unfolding normalize_value
normalize_json_value max_items v = normalize_value max_json_depth max_items 0 v

abbrev pub as_entries : Object → Result Entries
as_entries (dict es) = ok es
as_entries _ = err data_normalization

unfoldable pub normalize_json_object : (max_items : ℕ) → Object → Result Entries
unfolding normalize_json_value
normalize_json_object max_items v = do w ← normalize_json_value max_items v; as_entries w
