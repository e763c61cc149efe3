-- ===== src/Engine/Runner/Params.antt =====
-- `_build_params` of engine/runner.py.
use justflow.Common.{String, List, [], ◌∷◌}
use justflow.Engine.Exceptions.{flow_definition, missing_params, Result, ok, err, ◌>>=◌}
use justflow.Engine.Data.Objects.{Object, str, dict, Entries}
use justflow.Engine.Data.Normalize.{normalize_json_object}
use justflow.Engine.References.{interpolate_params, find_unresolved_placeholders}
use justflow.Engine.Runner.State.{Workflow}
use justflow.Engine.Runner.Invoke.{set_entry}
use justflow.Engine.Runner.Execute.{update_entries}

abbrev pub no_unresolved : List String → Result (Unit {0})
no_unresolved [] = ok tt
no_unresolved (name ∷ names) = err (flow_definition missing_params)

abbrev pub given_params : Workflow → String → Entries → Entries
given_params workflow request_id trigger_globals =
    set_entry "request_id" (str request_id) (update_entries workflow.params trigger_globals)

unfoldable pub build_params :
    (to_text : Object → String) → Workflow → String → Entries → Result Entries
unfolding update_entries set_entry interpolate_params normalize_json_object
    find_unresolved_placeholders
build_params to_text workflow request_id trigger_globals = do
  let given = given_params workflow request_id trigger_globals
  v ← interpolate_params to_text (dict given) given
  params ← normalize_json_object workflow.limits.collection_items v
  names ← find_unresolved_placeholders (dict params)
  _ ← no_unresolved names
  ok params
