-- ===== src/Engine/References.antt =====
-- src/justflow/engine/references.py: references and `${...}` placeholders. Python's `str` of a value
-- is the parameter `to_text`.
use Prim.Native.Char.{Char}
use justflow.Common.{
  ℕ, zero, suc, String, ◌&&◌, Option, none, some, List, [], ◌∷◌, ◌++◌, map, ◌==◌, if◌then◌else◌,
  length,
}
use justflow.Common.Dict.{Dict}
use justflow.Config.Grammar.{chars, text_of, Placeholder, parse_placeholders}
use justflow.Config.Models.{ReferencePath, StepInput, single, named, listed}
use justflow.Engine.Exceptions.{
  data_normalization, data_path, reference_resolution, placeholder_syntax, Result, ok, err, ◌>>=◌,
}
use justflow.Engine.Data.Objects.{
  Object, null, str, list, dict, Items, nil, cons, Entries, end, entry, Key, find_entry,
}
use justflow.Engine.Data.Paths.{resolve_json_path}

-- `except (DataNormalizationError, DataPathError)`
abbrev pub as_unresolved : Result Object → Result Object
as_unresolved (err data_normalization) = err reference_resolution
as_unresolved (err data_path) = err reference_resolution
as_unresolved r = r

-- a parsed reference; the step outputs come before the params
unfoldable pub resolve_reference : ReferencePath → (step_outputs params : Entries) → Result Object
unfolding find_entry resolve_json_path
resolve_reference ref step_outputs params = elim (find_entry ref.root step_outputs) [
  | some v ↦ as_unresolved (resolve_json_path v ref.path)
  | none ↦ elim (find_entry ref.root params) [
    | some v ↦ as_unresolved (resolve_json_path v ref.path)
    | none ↦ err reference_resolution
  ]
]

unfoldable pub resolve_named : Dict ReferencePath → (step_outputs params : Entries) → Result Entries
unfolding resolve_reference
resolve_named [] step_outputs params = ok end
resolve_named ((k, ref) ∷ refs) step_outputs params = do
  v ← resolve_reference ref step_outputs params
  rest ← resolve_named refs step_outputs params
  ok (entry (Key.key k) v rest)

unfoldable pub resolve_listed : List ReferencePath → (step_outputs params : Entries) → Result Items
unfolding resolve_reference
resolve_listed [] step_outputs params = ok nil
resolve_listed (ref ∷ refs) step_outputs params = do
  v ← resolve_reference ref step_outputs params
  rest ← resolve_listed refs step_outputs params
  ok (cons v rest)

unfoldable pub resolve_input : Option StepInput → (step_outputs params : Entries) → Result Object
unfolding resolve_reference resolve_named resolve_listed
resolve_input none step_outputs params = ok null
resolve_input (some (single ref)) step_outputs params = resolve_reference ref step_outputs params
resolve_input (some (named refs)) step_outputs params = do
  es ← resolve_named refs step_outputs params
  ok (dict es)
resolve_input (some (listed refs)) step_outputs params = do
  xs ← resolve_listed refs step_outputs params
  ok (list xs)

-- `except PlaceholderSyntaxError`
abbrev pub as_bad_placeholder {ℓ} : {A : Type ℓ} → Result A → Result A
as_bad_placeholder (err placeholder_syntax) = err reference_resolution
as_bad_placeholder r = r

-- s[from:to]
unfoldable pub slice : (from to : ℕ) → List Char → List Char
slice from to [] = []
slice zero zero (c ∷ cs) = []
slice zero (suc to) (c ∷ cs) = c ∷ slice zero to cs
slice (suc from) zero (c ∷ cs) = []
slice (suc from) (suc to) (c ∷ cs) = slice from to cs

abbrev pub or_missing : Option Object → Result Object
or_missing none = err reference_resolution
or_missing (some v) = ok v

module _ (to_text : Object → String) where
  -- The `for` loop of `_interpolate_string`, from a position.
  unfoldable pub substitute : List Char → Entries → ℕ → List Placeholder → Result (List Char)
  unfolding slice find_entry
  substitute s params position [] = ok (slice position (length s) s)
  substitute s params position (p ∷ ps) = do
    v ← or_missing (find_entry p.name params)
    rest ← substitute s params p.stop ps
    ok (slice position p.start s ++ (chars (to_text v) ++ rest))

  -- a text that is one placeholder keeps the value's type
  unfoldable pub interpolated : String → Entries → List Placeholder → Result Object
  unfolding substitute
  interpolated s params [] = ok (str s)
  interpolated s params (p ∷ []) =
      if p.start == 0 && p.stop == length (chars s)
      then or_missing (find_entry p.name params)
      else substitute (chars s) params 0 (p ∷ []) >>= λ cs. ok (str (text_of cs))
  interpolated s params ps = substitute (chars s) params 0 ps >>= λ cs. ok (str (text_of cs))

  unfoldable pub interpolate_string : String → Entries → Result Object
  unfolding parse_placeholders interpolated
  interpolate_string s params =
      as_bad_placeholder (parse_placeholders s) >>= λ ps. interpolated s params ps

  unfoldable mutual
    unfolding interpolate_string

    pub interpolate_params : Object → Entries → Result Object
    interpolate_params (str s) params = interpolate_string s params
    interpolate_params (dict es) params = interpolate_entries es params >>= λ es'. ok (dict es')
    interpolate_params (list xs) params = interpolate_items xs params >>= λ xs'. ok (list xs')
    interpolate_params v params = ok v

    pub interpolate_entries : Entries → Entries → Result Entries
    interpolate_entries end params = ok end
    interpolate_entries (entry k v es) params = interpolate_params v params >>= λ v'.
        interpolate_entries es params >>= λ es'. ok (entry k v' es')

    pub interpolate_items : Items → Entries → Result Items
    interpolate_items nil params = ok nil
    interpolate_items (cons x xs) params = interpolate_params x params >>= λ x'.
        interpolate_items xs params >>= λ xs'. ok (cons x' xs')

unfoldable mutual
  unfolding parse_placeholders

  pub find_unresolved_placeholders : Object → Result (List String)
  find_unresolved_placeholders (str s) =
      as_bad_placeholder (parse_placeholders s) >>= λ ps. ok (map (λ p. p.name) ps)
  find_unresolved_placeholders (dict es) = unresolved_entries es
  find_unresolved_placeholders (list xs) = unresolved_items xs
  find_unresolved_placeholders v = ok []

  pub unresolved_entries : Entries → Result (List String)
  unresolved_entries end = ok []
  unresolved_entries (entry k v es) =
      find_unresolved_placeholders v >>= λ ns. unresolved_entries es >>= λ rest. ok (ns ++ rest)

  pub unresolved_items : Items → Result (List String)
  unresolved_items nil = ok []
  unresolved_items (cons x xs) =
      find_unresolved_placeholders x >>= λ ns. unresolved_items xs >>= λ rest. ok (ns ++ rest)
