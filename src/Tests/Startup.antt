-- ===== src/Tests/Startup.antt =====
-- Starting the service with the settings that it has by itself.
use mirador_rca.Prelude.{◌≡◌, refl, true, none, some, String, List, [], str_eq}
use mirador_rca.Prelude.Int.{pos}
use mirador_rca.Prelude.Text.{◌<>◌, trim_slashes}
use mirador_rca.Prelude.Outcome.{Reply, reply, failure, ok}
use mirador_rca.Double.Fixed.{Fixed, fixed_double}
use mirador_rca.Files.{FileRead, contents}
use mirador_rca.Model.{InvestigationRequest, RedAnchor, TimelineEvent}
use mirador_rca.Config.{Config, default_config}
use mirador_rca.Cache.Provider.{Provider, noop_provider}
use mirador_rca.Cache.Valkey.{ValkeyConfig}
use mirador_rca.Engine.Pipeline.{Pipeline, fetch_recommendations}
use mirador_rca.Engine.Rules.{Rule}
use mirador_rca.Engine.Rules.Loading.{new_rule_engine, engine_in, engine_of}
use mirador_rca.Service.Handlers.{RcaService}
use mirador_rca.Weaviate.{Outside}
use mirador_rca.Weaviate.Advice.{made_up}
use mirador_rca.MockCore.{MockBody, json}
use mirador_rca.Core.Http.{HttpCore}
use mirador_rca.Server.{Server, new_server, bound}
use mirador_rca.Entry.{
  start_service, build_service, Start, serves, exit_or, start_with, listen_with, cache_provider,
}
use mirador_rca.Entry.Startup.{start_service-advice}

-- A network that reaches nothing.
abbrev pub offline : {W : Type 0} → HttpCore W (MockBody Fixed) Fixed
offline = record {
  marshal = λ payload. reply (json payload);
  new_request = λ url. reply tt;
  send = λ req w. (failure "no route to host", w);
  status_text = λ status. "status";
  decode = λ body. failure "invalid character";
  misfit = λ j. "cannot unmarshal";
  join_path = λ base path. some (base <> path);
  format_time = λ t. "";
  parse_time = λ s. none;
  edges = record { marshal = λ l. none; unmarshal = λ b. none };
}

abbrev pub outside : {W : Type 0} → Outside W (MockBody Fixed) Fixed
outside = record {
  marshal = λ payload. reply (json payload);
  new_request = λ url. reply tt;
  send = λ req w. (failure "no route to host", w);
  trimmed = λ body. "";
  decode = λ body. failure "invalid character";
  misfit = λ j. "cannot unmarshal";
  now = λ w. pos 0;
  format_time = λ t. "";
  parse_time = λ s. none;
  correlations = record { marshal = λ l. none; unmarshal = λ b. none };
  patterns = record { marshal = λ l. none; unmarshal = λ b. none };
}

abbrev pub no_rules : String → Reply (List Rule)
no_rules bytes = reply []

abbrev pub empty_file : String → FileRead String
empty_file path = contents ""

module _ {W : Type 0} where
  -- A cache that refuses every connection.
  abbrev pub refused : ValkeyConfig → W → Reply (Provider W (MockBody Fixed)) × W
  refused c w = (failure "connection refused", w)

  abbrev pub registered : W → Reply (Unit {0}) × W
  registered w = (reply tt, w)

  -- The listener is known by its address.
  abbrev pub listening : String → W → Reply String × W
  listening address w = (reply address, w)

  -- The server of a service is the service.
  abbrev pub starts :
      Config → W → Start (RcaService W Fixed × Server (RcaService W Fixed) String) × W
  starts =
      start_service offline outside refused no_rules empty_file registered listening
        (λ service. service)

  abbrev pub served : RcaService W Fixed
  served = build_service offline outside default_config noop_provider (some (record { rules = [] }))

  abbrev pub server : Server (RcaService W Fixed) String
  server = record {
    cfg = default_config.server;
    grpc_server = some served;
    listener = some default_config.server.address;
  }

  pub starts_lem : (w : W) → starts default_config w ≡ (serves (served, server), w)
  unfolding start_service start_with listen_with exit_or cache_provider default_config
      new_rule_engine engine_in engine_of new_server bound
  starts_lem w = refl

unnamed : str_eq (trim_slashes default_config.weaviate.endpoint) "" ≡ true
unfolding default_config trim_slashes
unnamed = refl

abbrev idle_service : RcaService (Unit {0}) Fixed
idle_service = served

start_service-advice_example :
    (p : Pipeline (Unit {0}) Fixed) × (idle_service.pipeline ≡ some p)
    × ((req : InvestigationRequest Fixed) (anchors : List (RedAnchor Fixed))
          (timeline : List (TimelineEvent Fixed)) (v : Unit {0})
        → fetch_recommendations p req anchors timeline v ≡ (ok (made_up req.symptoms), v))
start_service-advice_example =
    start_service-advice offline outside refused no_rules empty_file registered listening
      (λ service. service) default_config tt tt served server unnamed (starts_lem tt)
