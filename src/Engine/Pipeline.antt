-- ===== src/Engine/Pipeline.antt =====
-- internal/engine/pipeline.go: the pipeline and its clients. A client is a record of actions on the
-- state `W` of what it talks to; logging leaves no trace.
pub mod Assemble
pub mod Calls
pub mod Investigate
pub mod Result
pub mod Service
pub mod Advice
use mirador_rca.Prelude.{
  ℕ, Bool, true, false, not, ◌&&◌, Option, none, some, String, List, [], ◌∷◌, ◌++◌, str_eq,
  if◌then◌else◌,
}
use mirador_rca.Prelude.Int.{ℤ, pos, ◌-ℤ◌, ◌*ℤ◌}
use mirador_rca.Prelude.Text.{◌<>◌, equal_fold, format_int}
use mirador_rca.Prelude.Outcome.{
  Reply, reply, failure, Outcome, ok, err, Act, ◌>>=◌, ◌>>◌, pure, raise, or_panic,
}
use mirador_rca.Runtime.{Runtime}
use mirador_rca.Double.{Double}
use mirador_rca.Model.{
  Time, second, MetricPoint, LogEntry, TraceSpan, ServiceGraphEdge, InvestigationRequest,
  CorrelationResult, RedAnchor, TimelineEvent,
}
use mirador_rca.Extractors.Metrics
use mirador_rca.Extractors.Logs
use mirador_rca.Extractors.Traces
use mirador_rca.Engine.Strings.{first_non_empty}
use mirador_rca.Engine.Rules.{RuleEngine, recommend}
use mirador_rca.Engine.Anchors.{build_anchors}
use mirador_rca.Engine.Timeline.{build_timeline}
use mirador_rca.Engine.Pipeline.Assemble.{Clock, Anomalies, assemble}

module _ (W F : Type 0) where
  -- `CoreClient`: the tenant, the service (but for the graph), and the two ends of the window.
  pub record CoreClient : Type 0 where
    pub fetch_metric_series : String → String → Time → Time → W → Reply (List (MetricPoint F)) × W
    pub fetch_log_entries : String → String → Time → Time → W → Reply (List LogEntry) × W
    pub fetch_trace_spans : String → String → Time → Time → W → Reply (List TraceSpan) × W
    pub fetch_service_graph : String → Time → Time → W → Reply (List (ServiceGraphEdge F)) × W

  -- `WeaviateClient`
  pub record WeaviateClient : Type 0 where
    pub similar_incidents : String → List String → ℤ → W → Reply (List (CorrelationResult F)) × W
    pub store_correlation : String → CorrelationResult F → W → Reply (Unit {0}) × W

  -- A client or an engine that is nil is `none`; the causality engine has no fields of its own.
  pub record Pipeline : Type 0 where
    pub core_client : Option CoreClient
    pub weaviate : Option WeaviateClient
    pub rules_engine : Option RuleEngine
    pub causality_engine : Bool
    pub traces_threshold : F

-- `NewPipeline`: an extractor that is nil is made here. Only that of traces has a field.
abbrev pub new_pipeline :
    {W F : Type 0} ⦃d : Double F⦄
    → Option (CoreClient W F)
    → Option (WeaviateClient W F)
    → Option RuleEngine
    → Bool
    → Option F
    → Pipeline W F
new_pipeline core_client weaviate rules causality traces = record {
  core_client = core_client;
  weaviate = weaviate;
  rules_engine = rules;
  causality_engine = causality;
  traces_threshold = elim traces [ none ↦ Traces.default_threshold | some threshold ↦ threshold ];
}

pub record Signals (F : Type 0) : Type 0 where
  pub service_graph : List (ServiceGraphEdge F)
  pub metrics : List (MetricPoint F)
  pub logs : List LogEntry
  pub traces : List TraceSpan

-- The first symptom, if there is one.
unfoldable pub first_symptom : List String → String
first_symptom [] = ""
first_symptom (s ∷ ss) = s

-- `DetermineService`
pub determine_service : {F : Type 0} → InvestigationRequest F → String
determine_service req =
    let service = first_non_empty req.affected_services in
    let service' = if str_eq service "" then first_symptom req.symptoms else service in
    if str_eq service' "" then "unknown-service" else service'

abbrev pub default_recommendations : List String
default_recommendations =
    "Review recent deployments for regressions"
    ∷ "Check upstream dependencies for correlated errors" ∷ []

-- The recommendations, or the default ones where there are none.
pub or_default : List String → List String
or_default [] = default_recommendations
or_default (r ∷ rs) = r ∷ rs

-- The recommendations of the most similar incident, which may have none.
unfoldable pub of_first : {F : Type 0} → List (CorrelationResult F) → List String
of_first [] = []
of_first (c ∷ cs) = c.recommendations

-- `%w`: an error behind the text of the call that failed.
abbrev pub wrapped : {W A : Type 0} → String → (W → Reply A × W) → Act W A
wrapped context call w =
    let (a, w') = call w in
    elim a [ reply x ↦ (ok x, w') | failure e ↦ (err (context <> (": " <> e)), w') ]

module _ {W F : Type 0} where
  -- `recommendFromRules`
  pub recommend_from_rules :
      Pipeline W F
      → InvestigationRequest F
      → List (RedAnchor F)
      → List (TimelineEvent F)
      → List String
  recommend_from_rules p req anchors timeline =
      or_default (recommend p.rules_engine req anchors timeline)

  -- The graph, or none where the call fails.
  pub fetch_graph : CoreClient W F → InvestigationRequest F → Act W (List (ServiceGraphEdge F))
  fetch_graph core req w =
      let (graph, w') =
        core.fetch_service_graph req.tenant_id req.time_range.start req.time_range.end w in
      elim graph [ reply edges ↦ (ok edges, w') | failure e ↦ (ok [], w') ]

  pub fetch_from : CoreClient W F → InvestigationRequest F → String → Act W (Signals F)
  fetch_from core req service = do
    graph ← fetch_graph core req
    metrics ←
        wrapped "fetch metrics"
          (core.fetch_metric_series req.tenant_id service req.time_range.start req.time_range.end)
    logs ←
        wrapped "fetch logs"
          (core.fetch_log_entries req.tenant_id service req.time_range.start req.time_range.end)
    spans ←
        wrapped "fetch traces"
          (core.fetch_trace_spans req.tenant_id service req.time_range.start req.time_range.end)
    pure (record { service_graph = graph; metrics = metrics; logs = logs; traces = spans })

  -- `FetchSignals`
  pub fetch_signals : Pipeline W F → InvestigationRequest F → String → Act W (Signals F)
  fetch_signals p req service = elim p.core_client [
    | none ↦ raise "core client not configured"
    | some core ↦ fetch_from core req service
  ]

  -- `fetchRecommendations`
  pub fetch_recommendations :
      Pipeline W F
      → InvestigationRequest F
      → List (RedAnchor F)
      → List (TimelineEvent F)
      → Act W (List String)
  fetch_recommendations p req anchors timeline w =
      let fallback = recommend_from_rules p req anchors timeline in
      elim p.weaviate [
        | none ↦ (ok fallback, w)
        | some client ↦
            let (results, w') = client.similar_incidents req.tenant_id req.symptoms (pos 3) w in
            elim results [
              | failure e ↦ (ok fallback, w')
              | reply found ↦ elim (of_first found) [
                | [] ↦ (ok fallback, w')
                | r ∷ rs ↦ (ok (r ∷ rs), w')
              ]
            ]
      ]

  -- `PersistResult`: a failure is only logged.
  pub persist_result : Pipeline W F → String → CorrelationResult F → Act W (Unit {0})
  persist_result p tenant_id result w = elim p.weaviate [
    | none ↦ (ok tt, w)
    | some client ↦ (ok tt, (client.store_correlation tenant_id result w).1)
  ]

module _ (r : Runtime) {F : Type 0} ⦃d : Double F⦄ where
  -- The three detectors, in the order they are called.
  pub detect_all : F → F → Signals F → Option (Anomalies F)
  detect_all threshold traces_threshold signals = elim (Logs.detect r signals.logs) [
    | none ↦ none
    | some logs ↦ some (record {
      metrics = Metrics.detect signals.metrics threshold;
      logs = logs;
      traces = Traces.detect traces_threshold signals.traces;
    })
  ]

module _ (r : Runtime) {W F : Type 0} ⦃d : Double F⦄ where
  -- `Analyze`; its error is always nil.
  pub analyze :
      Clock
      → Pipeline W F
      → InvestigationRequest F
      → String
      → Signals F
      → Act W (CorrelationResult F)
  analyze clock p req service signals = do
    found ← or_panic (detect_all r req.anomaly_threshold p.traces_threshold signals)
    let anchors = build_anchors service found.metrics found.logs found.traces
    let timeline = build_timeline r found.metrics found.logs found.traces
    recommendations ← fetch_recommendations p req anchors timeline
    pure (
        assemble r clock p.causality_engine req service signals.service_graph found recommendations)

  -- `Analyze`, then `PersistResult`.
  pub analyze_and_persist :
      Clock
      → Pipeline W F
      → InvestigationRequest F
      → String
      → Signals F
      → Act W (CorrelationResult F)
  analyze_and_persist clock p req service signals = do
    result ← analyze clock p req service signals
    persist_result p req.tenant_id result
    pure result

  -- `Investigate`
  unfoldable pub investigate :
      Clock → Pipeline W F → InvestigationRequest F → Act W (CorrelationResult F)
  investigate clock p req = elim p.core_client [
    | none ↦ raise "core client not configured"
    | some core ↦ do
      let service = determine_service req
      signals ← fetch_signals p req service
      analyze_and_persist clock p req service signals
  ]
