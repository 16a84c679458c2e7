-- ===== src/Entry.antt =====
-- cmd/rca-engine/main.go: how the service is put together from its settings. Connecting to the cache,
-- registering the metrics, the listener and the library's server of gRPC are parameters.
pub mod Startup
pub mod Serving
pub mod Ending
pub mod Program
use mirador_rca.Prelude.{
  Bool, true, false, not, ◌&&◌, Option, none, some, String, List, str_eq, if◌then◌else◌,
}
use mirador_rca.Prelude.Int.{ℤ}
use mirador_rca.Prelude.Text.{codes}
use mirador_rca.Prelude.Outcome.{Reply, reply, failure}
use mirador_rca.Double.{Double}
use mirador_rca.Files.{FileRead}
use mirador_rca.Model.{TraceSpan, ServiceGraphEdge}
use mirador_rca.Config.{Config, CacheConfig, CoreClientConfig}
use mirador_rca.Cache.Provider.{Provider, noop_provider}
use mirador_rca.Cache.Valkey.{ValkeyConfig}
use mirador_rca.Core.{
  MiradorCoreClient, fetch_metric_series, fetch_log_entries, fetch_trace_spans, fetch_service_graph,
}
use mirador_rca.Core.Http.{HttpCore, CorePaths, new_mirador_core_client}
use mirador_rca.Engine.Pipeline.{CoreClient, Pipeline, new_pipeline}
use mirador_rca.Engine.Rules.{Rule, RuleEngine}
use mirador_rca.Engine.Rules.Loading.{new_rule_engine}
use mirador_rca.Extractors.Traces.{default_threshold}
use mirador_rca.Service.Handlers.{RcaService}
use mirador_rca.Server.{Server, new_server}
use mirador_rca.Weaviate.{Outside, WeaviateRepo, new_weaviate_repo}
use mirador_rca.Weaviate.Client.{weaviate_client, history_repo}

-- The settings of the cache's client.
unfoldable pub valkey_config : CacheConfig → ValkeyConfig
valkey_config c = record {
  addr = codes c.addr;
  username = codes c.username;
  password = codes c.password;
  db = c.db;
  dial_timeout = c.dial_timeout;
  read_timeout = c.read_timeout;
  write_timeout = c.write_timeout;
  max_retries = c.max_retries;
  tls = c.tls;
}

unfoldable pub core_paths : CoreClientConfig → CorePaths
core_paths c = record {
  metrics_path = c.metrics_path;
  logs_path = c.logs_path;
  traces_path = c.traces_path;
  service_graph_path = c.service_graph_path;
}

-- The client of mirador-core as the pipeline sees it.
abbrev pub core_client : {W D F : Type 0} ⦃d : Double F⦄ → MiradorCoreClient W D F → CoreClient W F
core_client c = record {
  fetch_metric_series = fetch_metric_series c;
  fetch_log_entries = fetch_log_entries c;
  fetch_trace_spans = fetch_trace_spans c;
  fetch_service_graph = fetch_service_graph c;
}

-- A cache that cannot be connected to is replaced by the one that never stores.
pub provider_or_noop : {W D : Type 0} → Reply (Provider W D) × W → Provider W D × W
provider_or_noop (reply provider, w) = (provider, w)
provider_or_noop (failure e, w) = (noop_provider, w)

module _ {W D : Type 0} (new_valkey : ValkeyConfig → W → Reply (Provider W D) × W) where
  unfoldable pub cache_provider : CacheConfig → W → Provider W D × W
  cache_provider c w =
      if c.enabled && not (str_eq c.addr "")
      then provider_or_noop (new_valkey (valkey_config c) w)
      else (noop_provider, w)

module _ {W D F : Type 0} ⦃d : Double F⦄ (h : HttpCore W D F) (x : Outside W D F)
    (cfg : Config) where
  pub weaviate_repo : Provider W D → WeaviateRepo W D
  weaviate_repo cache =
      new_weaviate_repo cfg.weaviate.endpoint cfg.weaviate.api_key cfg.weaviate.timeout (some cache)
        cfg.cache.similar_incidents_ttl cfg.cache.patterns_ttl

  -- The pipeline and the service, from the cache and the rules.
  pub build_pipeline : Provider W D → Option RuleEngine → Pipeline W F
  build_pipeline cache rules =
      new_pipeline
        (some (
          core_client (
            new_mirador_core_client h cfg.clients.core.base_url (core_paths cfg.clients.core)
              (some cache) cfg.cache.service_graph_ttl)))
        (some (weaviate_client x (some (weaviate_repo cache)))) rules true (some default_threshold)

  pub build_service : Provider W D → Option RuleEngine → RcaService W F
  build_service cache rules = record {
    pipeline = some (build_pipeline cache rules);
    history = some (history_repo x (some (weaviate_repo cache)));
  }

-- The service serves, or the program exits with the text that is logged.
pub data Start (A : Type 0) : Type 0 where
  serves : A → Start A
  exits : String → Start A

unfoldable pub exit_or :
    {W A B : Type 0} → String → (A → W → Start B × W) → Reply A × W → Start B × W
exit_or message next (reply a, w) = next a w
exit_or message next (failure e, w) = (exits message, w)

module _ {W D F B G L : Type 0} ⦃d : Double F⦄ (h : HttpCore W D F) (x : Outside W D F)
    (new_valkey : ValkeyConfig → W → Reply (Provider W D) × W) (decode : B → Reply (List Rule))
    (read_file : String → FileRead B) (register : W → Reply (Unit {0}) × W)
    (listen : String → W → Reply L × W) (grpc_server : RcaService W F → G) where
  unfoldable pub listen_with :
      Config → Provider W D → Option RuleEngine → W → Start (RcaService W F × Server G L) × W
  listen_with cfg cache rules w =
      let service = build_service h x cfg cache rules in
      exit_or "failed to create gRPC server" (λ server w'. (serves (service, server), w'))
        (new_server listen cfg.server (grpc_server service) w)

  unfoldable pub start_with : Config → Provider W D × W → Start (RcaService W F × Server G L) × W
  start_with cfg (cache, w) =
      exit_or "failed to load rule pack" (listen_with cfg cache)
        (new_rule_engine decode read_file cfg.rules.path, w)

  -- `main`, from the settings that were loaded up to the server that serves.
  unfoldable pub start_service : Config → W → Start (RcaService W F × Server G L) × W
  start_service cfg w =
      exit_or "failed to register metrics"
        (λ _ w'. start_with cfg (cache_provider new_valkey cfg.cache w')) (register w)

  -- `main` from its first line on: the settings are loaded first.
  unfoldable pub main : Reply Config → W → Start (RcaService W F × Server G L) × W
  main loaded w = exit_or "failed to load config" start_service (loaded, w)
