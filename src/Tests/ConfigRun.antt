-- ===== src/Tests/ConfigRun.antt =====
-- The test of a configuration with two targets on one shelf.
use vo_e.Common.{ℕ, ◌≡◌, refl, codes, none, some, List, [], ◌∷◌, ok, err}
use vo_e.Config.{
  BackendType, TargetConfig, Config, ConfigError, Invalid, validate, validate_targets,
}

abbrev on_file : ℕ → ℕ → TargetConfig
on_file shelf slot = record {
  shelf = shelf;
  slot = slot;
  backend = BackendType.file;
  file = some (record { path = codes "/data/disk.img"; size = none });
  cas = none;
  config_string = [];
}

abbrev with_targets : List TargetConfig → Config
with_targets targets = record {
  server = record { interface_name = codes "eth0"; log_level = codes "info" };
  target = targets;
}

abbrev two_targets : List TargetConfig
two_targets = on_file 1 0 ∷ on_file 1 1 ∷ []

accepted : validate (with_targets two_targets) ≡ ok tt
unfolding validate validate_targets
accepted = refl

refused :
    validate (with_targets (on_file 1 0 ∷ on_file 1 0 ∷ []))
    ≡ err (ConfigError.invalid (Invalid.duplicate_target 1 0))
unfolding validate validate_targets
refused = refl
