-- ===== src/Entry/Startup.antt =====
-- cmd/rca-engine/main.go: what a service that was started is made of, and what that comes to.
use mathlib.Core.Path.{subst}
use mirador_rca.Prelude.{
  ◌≡◌, refl, ap, ◌∙◌, inl, inr, true, false, not, ◌&&◌, Option, some, String, List, str_eq,
  Bool-cases,
}
use mirador_rca.Prelude.Text.{trim_slashes}
use mirador_rca.Prelude.Outcome.{Reply, reply, failure, ok}
use mirador_rca.Double.{Double}
use mirador_rca.Files.{FileRead}
use mirador_rca.Model.{InvestigationRequest, RedAnchor, TimelineEvent}
use mirador_rca.Config.{Config}
use mirador_rca.Cache.Provider.{Provider}
use mirador_rca.Cache.Valkey.{ValkeyConfig}
use mirador_rca.Core.Http.{HttpCore}
use mirador_rca.Engine.Pipeline.{Pipeline, fetch_recommendations}
use mirador_rca.Engine.Rules.{Rule, RuleEngine}
use mirador_rca.Engine.Rules.Loading.{new_rule_engine}
use mirador_rca.Service.Handlers.{RcaService}
use mirador_rca.Server.{Server, bound, new_server}
use mirador_rca.Weaviate.{Outside, new_weaviate_repo}
use mirador_rca.Weaviate.Resilience.{unconfigured}
use mirador_rca.Weaviate.Advice.{made_up, fetch_recommendations-IsDown}
use mirador_rca.Entry.{
  valkey_config, cache_provider, provider_or_noop, weaviate_repo, build_pipeline, build_service,
  Start, serves, exits, exit_or, listen_with, start_with, start_service,
}

module _ {W D F B G L : Type 0} ⦃d : Double F⦄ (h : HttpCore W D F) (x : Outside W D F)
    (new_valkey : ValkeyConfig → W → Reply (Provider W D) × W) (decode : B → Reply (List Rule))
    (read_file : String → FileRead B) (register : W → Reply (Unit {0}) × W)
    (listen : String → W → Reply L × W) (grpc_server : RcaService W F → G) (cfg : Config) where
  -- A service that is built from these settings, with some cache and some rules, and a server for it.
  abbrev IsBuilt : Start (RcaService W F × Server G L) × W → Type 0
  IsBuilt (serves (service, server), w) =
      (cache : Provider W D) × (rules : Option RuleEngine) × (service
        ≡ build_service h x cfg cache rules)
      × (server.grpc_server ≡ some (grpc_server service))
  IsBuilt (exits e, w) = Unit

  bound-IsBuilt :
      (cache : Provider W D) (rules : Option RuleEngine) (y : Reply L × W)
      → let service = build_service h x cfg cache rules in
        IsBuilt (
          exit_or "failed to create gRPC server"
            (λ server w'. (serves (service, server), w'))
            (bound cfg.server (grpc_server service) y))
  unfolding exit_or bound
  bound-IsBuilt cache rules (reply listener, w) = (cache, rules, refl, refl)
  bound-IsBuilt cache rules (failure e, w) = tt

  start_with-IsBuilt :
      (cache : Provider W D) (w : W) (y : Reply (Option RuleEngine))
      → IsBuilt (
          exit_or "failed to load rule pack"
            (listen_with h x new_valkey decode read_file register listen grpc_server cfg cache)
            (y, w))
  unfolding exit_or listen_with new_server
  start_with-IsBuilt cache w (reply rules) = bound-IsBuilt cache rules (listen cfg.server.address w)
  start_with-IsBuilt cache w (failure e) = tt

  start_service-IsBuilt :
      (y : Reply (Unit {0}) × W)
      → IsBuilt (
          exit_or "failed to register metrics"
            (λ _ w'.
              start_with h x new_valkey decode read_file register listen grpc_server cfg
                (cache_provider new_valkey cfg.cache w'))
            y)
  unfolding exit_or start_with
  start_service-IsBuilt (reply u, w) =
      let c = cache_provider new_valkey cfg.cache w in
      start_with-IsBuilt c.0 c.1 (new_rule_engine decode read_file cfg.rules.path)
  start_service-IsBuilt (failure e, w) = tt

  abbrev started : W → Start (RcaService W F × Server G L) × W
  started = start_service h x new_valkey decode read_file register listen grpc_server cfg

  pub built :
      (w w' : W) (service : RcaService W F) (server : Server G L)
      → started w ≡ (serves (service, server), w')
      → (cache : Provider W D) × (rules : Option RuleEngine) × (service
          ≡ build_service h x cfg cache rules)
        × (server.grpc_server ≡ some (grpc_server service))
  unfolding start_service
  built w w' service server e = subst IsBuilt e (start_service-IsBuilt (register w))

  built_advice :
      (cache : Provider W D) (rules : Option RuleEngine) (req : InvestigationRequest F)
      (anchors : List (RedAnchor F)) (timeline : List (TimelineEvent F)) (w : W)
      → str_eq (trim_slashes cfg.weaviate.endpoint) "" ≡ true
      → fetch_recommendations (build_pipeline h x cfg cache rules) req anchors timeline w
        ≡ (ok (made_up req.symptoms), w)
  unfolding build_pipeline weaviate_repo new_weaviate_repo
  built_advice cache rules req anchors timeline w blank =
      fetch_recommendations-IsDown x (weaviate_repo h x cfg cache)
        (build_pipeline h x cfg cache rules) req anchors timeline w w refl (unconfigured blank refl)

  -- A service that starts with settings that name no Weaviate endpoint has a pipeline, and for every
  -- request that pipeline recommends two fixed texts, and the first symptom, if there is one, whatever
  -- the rule file holds.
  pub start_service-advice :
      (w w' : W) (service : RcaService W F) (server : Server G L)
      → str_eq (trim_slashes cfg.weaviate.endpoint) "" ≡ true
      → start_service h x new_valkey decode read_file register listen grpc_server cfg w
        ≡ (serves (service, server), w')
      → (p : Pipeline W F) × (service.pipeline ≡ some p)
        × ((req : InvestigationRequest F) (anchors : List (RedAnchor F))
              (timeline : List (TimelineEvent F)) (v : W)
            → fetch_recommendations p req anchors timeline v ≡ (ok (made_up req.symptoms), v))
  unfolding build_service
  start_service-advice w w' service server blank e =
      let (cache, rules, same, _) = built w w' service server e in
      (
        build_pipeline h x cfg cache rules,
        ap (λ s. s.pipeline) same,
        λ req anchors timeline v. built_advice cache rules req anchors timeline v blank,
      )

  -- The settings without a cache.
  abbrev cacheless : Config
  cacheless = record cfg { cache = record cfg.cache { enabled = false } }

  cache_provider-down :
      ((c : ValkeyConfig) (v : W) → (e : String) × (new_valkey c v ≡ (failure e, v)))
      → (w : W)
      → cache_provider new_valkey cfg.cache w ≡ cache_provider new_valkey cacheless.cache w
  unfolding cache_provider provider_or_noop
  cache_provider-down down w =
      elim (Bool-cases (cfg.cache.enabled && not (str_eq cfg.cache.addr ""))) [
        | inl on ↦ let (e, failed) = down (valkey_config cfg.cache) w in rw (on, failed) refl
        | inr off ↦ rw off refl
      ]

  start_with-cacheless :
      (y : Provider W D × W)
      → start_with h x new_valkey decode read_file register listen grpc_server cfg y
        ≡ start_with h x new_valkey decode read_file register listen grpc_server cacheless y
  unfolding start_with listen_with build_service build_pipeline weaviate_repo
  start_with-cacheless (cache, w) = refl

  -- A cache that cannot be connected to does not keep the service from starting: where each attempt
  -- fails and leaves no trace, it starts, or exits, as with the same settings and the cache switched off.
  pub start_service-cache_down :
      (w : W)
      → ((c : ValkeyConfig) (v : W) → (e : String) × (new_valkey c v ≡ (failure e, v)))
      → start_service h x new_valkey decode read_file register listen grpc_server cfg w
        ≡ start_service h x new_valkey decode read_file register listen grpc_server cacheless w
  unfolding start_service
  start_service-cache_down w down =
      ap (λ next. exit_or "failed to register metrics" next (register w))
        (λ i u v.
          (ap (start_with h x new_valkey decode read_file register listen grpc_server cfg)
                (cache_provider-down down v)
              ∙ start_with-cacheless (cache_provider new_valkey cacheless.cache v))
            i)
