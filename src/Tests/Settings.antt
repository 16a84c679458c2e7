-- ===== src/Tests/Settings.antt =====
-- The settings under an environment that sets two variables.
use mirador_rca.Prelude.{◌≡◌, none, String, Option, str_eq, if◌then◌else◌}
use mirador_rca.Model.{Duration}
use mirador_rca.Config.{Environment, default_config, apply_env_overrides}
use mirador_rca.Config.Overrides.{apply_env_overrides_lem}

abbrev environment : Environment
environment name =
    if str_eq name "MIRADOR_RCA_CACHE_DB"
    then "7"
    else if str_eq name "MIRADOR_RCA_CACHE_TLS"
    then "True"
    else ""

abbrev no_duration : String → Option Duration
no_duration v = none

apply_env_overrides_lem_example :
    (apply_env_overrides no_duration environment
        (apply_env_overrides no_duration environment default_config)
      ≡ apply_env_overrides no_duration environment default_config)
    × (apply_env_overrides no_duration (λ _. "") default_config ≡ default_config)
apply_env_overrides_lem_example = apply_env_overrides_lem no_duration environment default_config
