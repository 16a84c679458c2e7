-- ===== src/Config/Loading.antt =====
-- internal/config/config.go, `Load`. Reading the file and decoding YAML over the defaults are parameters.
use mirador_rca.Prelude.{Option, String, str_eq, if◌then◌else◌}
use mirador_rca.Prelude.Int.{ℤ}
use mirador_rca.Prelude.Text.{◌<>◌}
use mirador_rca.Prelude.Outcome.{Reply, reply, failure}
use mirador_rca.Files.{FileRead, contents, not_found, unreadable}
use mirador_rca.Http.{wrapped}
use mirador_rca.Config.{Config, Environment, default_config, apply_env_overrides}

module _ {D : Type 0} (decode : Config → D → Reply Config) where
  unfoldable pub decode_file : String → FileRead D → Reply Config
  decode_file path (contents bytes) = wrapped "parse config" (decode default_config bytes)
  decode_file path (not_found e) = failure ("config file " <> (path <> (" not found: " <> e)))
  decode_file path (unreadable e) = failure ("read config: " <> e)

-- The path that is used: the argument, or the one of the environment.
unfoldable pub config_path : Environment → String → String
config_path env path = if str_eq path "" then env "MIRADOR_RCA_CONFIG" else path

module _ {D : Type 0} (read_file : String → FileRead D) (decode : Config → D → Reply Config)
    (parse_duration : String → Option ℤ) (env : Environment) where
  unfoldable pub overridden : Reply Config → Reply Config
  overridden (failure e) = failure e
  overridden (reply cfg) = reply (apply_env_overrides parse_duration env cfg)

  -- `Load`
  unfoldable pub load : String → Reply Config
  load path =
      let used = config_path env path in
      overridden
        (if str_eq used "" then reply default_config else decode_file decode used (read_file used))
