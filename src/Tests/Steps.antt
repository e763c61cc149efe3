-- ===== src/Tests/Steps.antt =====
-- The last steps of runtime/configuration_activation.py with bindings that remember that they were called.
use justflow.Common.{◌≡◌, Bool, true, false, none, [], ◌∷◌}
use justflow.Common.Dict.{Dict}
use justflow.Configuration.Results.{ok}
use justflow.Configuration.Records.{ActivationRecord}
use justflow.Configuration.Control.{ControlState, pure, ControlEnvironment}
use justflow.Configuration.Controller.Routing.{is_advanced}
use justflow.Tests.Activations.{plan, new_record, prepared, size, stores}

-- The world tells whether the index and whether the aliases have been replaced.
abbrev remembering : ControlEnvironment (Bool × Bool)
remembering = record {
  scope_digest = "s";
  controller_digest = "me";
  lease_duration = 30;
  record_size = size;
  turn = pure tt;
  now = pure 9;
  prepare = λ id. pure prepared;
  store_definition_manifest = λ scope manifest. pure tt;
  store_environment_snapshot = λ scope snapshot. pure tt;
  inspect_aliases = pure (("old", "digest") ∷ [], none);
  replace_aliases = λ aliases version s. (record s { world = (s.world.0, true) }, ok none);
  worker_binding = none;
  reconcile_schedules = none;
  replace_index = λ p s. (record s { world = (true, s.world.1) }, ok tt);
  definitions_digest = λ p. "definitions";
  readiness_digest = λ r. "readiness";
  aliases_digest = λ a v. "aliases";
  pointer_digest = λ p. "pointer";
  index_digest = λ p. "index";
}

abbrev publishing : ActivationRecord
publishing = record new_record { plan = record plan { publishes = true } }

abbrev untouched : ControlState (Bool × Bool)
untouched = record {
  rows = stores.rows;
  configuration = stores.configuration;
  world = (false, false);
}

abbrev IsIndexed : ControlState (Bool × Bool) → Type 0
IsIndexed s = s.world.0 ≡ true

abbrev IsAliased : ControlState (Bool × Bool) → Type 0
IsAliased s = s.world.1 ≡ true

abbrev IsPointed : ControlState (Bool × Bool) → Type 0
IsPointed s = is_advanced s.configuration.active publishing.plan ≡ true
