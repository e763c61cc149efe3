-- ===== src/Engine/Data/Paths.antt =====
-- `resolve_json_path` and `_resolve_token` of src/justflow/engine/data.py.
use justflow.Common.{ℕ, ◌-◌, String, Bool, Option, none, some, List, [], ◌∷◌, leb, length}
use justflow.Common.Int.{ℤ, pos}
use justflow.Engine.Exceptions.{data_path, Result, ok, err, guard, ◌>>=◌, ◌>>◌}
use justflow.Engine.Data.Objects.{Object, list, dict, find_entry, item_at}
use justflow.Engine.Data.Normalize.{default_collection_items, normalize_json_value}

-- A token is a `str` or an `int`; `flag` is a `bool`, whose type is neither.
pub data Token : Type 0 where
  name : String → Token
  index : ℤ → Token
  flag : Bool → Token

-- config/grammar.py: MAX_REFERENCE_COMPONENTS - 1
abbrev pub max_path_tokens : ℕ
max_path_tokens = 33 - 1

abbrev pub or_data_path : Option Object → Result Object
or_data_path none = err data_path
or_data_path (some v) = ok v

unfoldable pub resolve_token : Object → Token → Result Object
unfolding find_entry item_at
resolve_token (dict es) (name k) = or_data_path (find_entry k es)
resolve_token (list xs) (index (pos i)) = or_data_path (item_at xs i)
resolve_token _ _ = err data_path

unfoldable pub resolve_tokens : Object → List Token → Result Object
unfolding resolve_token
resolve_tokens v [] = ok v
resolve_tokens v (t ∷ ts) = resolve_token v t >>= λ w. resolve_tokens w ts

unfoldable pub resolve_json_path : Object → List Token → Result Object
unfolding normalize_json_value resolve_tokens
resolve_json_path v tokens = do
  guard (leb (length tokens) max_path_tokens) data_path
  current ← normalize_json_value default_collection_items v
  resolve_tokens current tokens
