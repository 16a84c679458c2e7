-- ===== src/Config.antt =====
-- internal/config/config.go: the settings, their defaults, and what the environment overrides.
-- `time.ParseDuration` is a parameter.
pub mod Overrides
pub mod Loading
use mirador_rca.Prelude.{
  ℕ, ◌*◌, Bool, true, false, ◌||◌, Option, none, some, String, str_eq, if◌then◌else◌,
}
use mirador_rca.Prelude.Int.{ℤ, pos}
use mirador_rca.Prelude.Text.{codes, equal_fold}
use mirador_rca.Model.{Duration}
use mirador_rca.Cache.Resp.{atoi}

abbrev pub millis : ℕ → Duration
millis n = pos (n * 1_000_000)

pub record ServerConfig : Type 0 where
  pub address : String
  pub metrics_address : String
  pub graceful_timeout : Duration

pub record CoreClientConfig : Type 0 where
  pub base_url : String
  pub metrics_path : String
  pub logs_path : String
  pub traces_path : String
  pub service_graph_path : String
  pub timeout : Duration

-- `ClientsConfig` has this one field.
pub record ClientsConfig : Type 0 where
  pub core : CoreClientConfig

pub record WeaviateConfig : Type 0 where
  pub endpoint : String
  pub api_key : String
  pub timeout : Duration

pub record LoggingConfig : Type 0 where
  pub level : String
  pub json : Bool

pub record RulesConfig : Type 0 where
  pub path : String

pub record CacheConfig : Type 0 where
  pub enabled : Bool
  pub addr : String
  pub username : String
  pub password : String
  pub db : ℤ
  pub dial_timeout : Duration
  pub read_timeout : Duration
  pub write_timeout : Duration
  pub max_retries : ℤ
  pub tls : Bool
  pub similar_incidents_ttl : Duration
  pub service_graph_ttl : Duration
  pub patterns_ttl : Duration

pub record Config : Type 0 where
  pub server : ServerConfig
  pub clients : ClientsConfig
  pub weaviate : WeaviateConfig
  pub logging : LoggingConfig
  pub rules : RulesConfig
  pub cache : CacheConfig

-- `defaultConfig`
unfoldable pub default_config : Config
default_config = record {
  server = record {
    address = ":50051";
    metrics_address = ":2112";
    graceful_timeout = millis 10_000;
  };
  clients = record {
    core = record {
      base_url = "";
      metrics_path = "/api/v1/rca/metrics";
      logs_path = "/api/v1/rca/logs";
      traces_path = "/api/v1/rca/traces";
      service_graph_path = "/api/v1/rca/service-graph";
      timeout = millis 5000;
    };
  };
  weaviate = record { endpoint = ""; api_key = ""; timeout = millis 5000 };
  logging = record { level = "info"; json = false };
  rules = record { path = "configs/rules/default.yaml" };
  cache = record {
    enabled = false;
    addr = "";
    username = "";
    password = "";
    db = pos 0;
    dial_timeout = millis 2000;
    read_timeout = millis 500;
    write_timeout = millis 500;
    max_retries = pos 2;
    tls = false;
    similar_incidents_ttl = millis 120_000;
    service_graph_ttl = millis 300_000;
    patterns_ttl = millis 600_000;
  };
}

-- The environment: a variable that is not set is empty.
abbrev pub Environment : Type 0
Environment = String → String

-- `if v := os.Getenv(...); v != "" { x = v }`
pub text_or : String → String → String
text_or v x = if str_eq v "" then x else v

-- The same with a value that must parse.
pub parsed_or : (String → Option ℤ) → String → ℤ → ℤ
parsed_or parse v x = if str_eq v "" then x else elim (parse v) [ none ↦ x | some y ↦ y ]

abbrev pub is_true : String → Bool
is_true v = equal_fold v "true" || equal_fold v "1"

pub flag_or : String → Bool → Bool
flag_or v x = if str_eq v "" then x else is_true v

-- A flag that the environment can only set.
pub set_if : Bool → Bool → Bool
set_if test x = if test then true else x

abbrev pub int_of : String → Option ℤ
int_of v = atoi (codes v)

module _ (parse_duration : String → Option Duration) (env : Environment) where
  pub override_cache : CacheConfig → CacheConfig
  override_cache c = record {
    enabled = flag_or (env "MIRADOR_RCA_CACHE_ENABLED") c.enabled;
    addr = text_or (env "MIRADOR_RCA_CACHE_ADDR") c.addr;
    username = text_or (env "MIRADOR_RCA_CACHE_USERNAME") c.username;
    password = text_or (env "MIRADOR_RCA_CACHE_PASSWORD") c.password;
    db = parsed_or int_of (env "MIRADOR_RCA_CACHE_DB") c.db;
    dial_timeout = parsed_or parse_duration (env "MIRADOR_RCA_CACHE_DIAL_TIMEOUT") c.dial_timeout;
    read_timeout = parsed_or parse_duration (env "MIRADOR_RCA_CACHE_READ_TIMEOUT") c.read_timeout;
    write_timeout =
        parsed_or parse_duration (env "MIRADOR_RCA_CACHE_WRITE_TIMEOUT") c.write_timeout;
    max_retries = parsed_or int_of (env "MIRADOR_RCA_CACHE_MAX_RETRIES") c.max_retries;
    tls = set_if (is_true (env "MIRADOR_RCA_CACHE_TLS")) c.tls;
    similar_incidents_ttl =
        parsed_or parse_duration (env "MIRADOR_RCA_CACHE_SIMILAR_TTL") c.similar_incidents_ttl;
    service_graph_ttl =
        parsed_or parse_duration (env "MIRADOR_RCA_CACHE_SERVICE_GRAPH_TTL") c.service_graph_ttl;
    patterns_ttl = parsed_or parse_duration (env "MIRADOR_RCA_CACHE_PATTERNS_TTL") c.patterns_ttl;
  }

  pub override_core : CoreClientConfig → CoreClientConfig
  override_core c = record c {
    base_url = text_or (env "MIRADOR_CORE_BASE_URL") c.base_url;
    metrics_path = text_or (env "MIRADOR_CORE_METRICS_PATH") c.metrics_path;
    logs_path = text_or (env "MIRADOR_CORE_LOGS_PATH") c.logs_path;
    traces_path = text_or (env "MIRADOR_CORE_TRACES_PATH") c.traces_path;
    service_graph_path = text_or (env "MIRADOR_CORE_SERVICE_GRAPH_PATH") c.service_graph_path;
  }

  -- `applyEnvOverrides`
  pub apply_env_overrides : Config → Config
  apply_env_overrides cfg = record {
    server = record cfg.server {
      address = text_or (env "MIRADOR_RCA_SERVER_ADDRESS") cfg.server.address;
      metrics_address = text_or (env "MIRADOR_RCA_METRICS_ADDRESS") cfg.server.metrics_address;
    };
    clients = record { core = override_core cfg.clients.core };
    weaviate = record cfg.weaviate {
      endpoint = text_or (env "MIRADOR_RCA_WEAVIATE_URL") cfg.weaviate.endpoint;
      api_key = text_or (env "MIRADOR_RCA_WEAVIATE_API_KEY") cfg.weaviate.api_key;
    };
    logging = record {
      level = text_or (env "MIRADOR_RCA_LOG_LEVEL") cfg.logging.level;
      json = set_if (str_eq (env "MIRADOR_RCA_LOG_FORMAT") "json") cfg.logging.json;
    };
    rules = record { path = text_or (env "MIRADOR_RCA_RULES_PATH") cfg.rules.path };
    cache = override_cache cfg.cache;
  }
