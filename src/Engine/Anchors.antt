-- ===== src/Engine/Anchors.antt =====
-- internal/engine/pipeline.go: `buildAnchors` and `deriveRootCause`.
pub mod Ranking
use mirador_rca.Prelude.{Bool, String, List, [], ◌∷◌, ◌++◌, map, length, take, ltb, if◌then◌else◌}
use mirador_rca.Prelude.Text.{◌<>◌}
use mirador_rca.Prelude.Sort.{sort_stable}
use mirador_rca.Double.{Double}
use mirador_rca.Model.{RedAnchor, data_type_metrics, data_type_logs, data_type_traces}
use mirador_rca.Extractors.Metrics.{MetricAnomaly}
use mirador_rca.Extractors.Logs.{LogAnomaly}
use mirador_rca.Extractors.Traces.{TraceAnomaly}

module _ {F : Type 0} ⦃d : Double F⦄ where
  open d use {lit, lt}

  unfoldable pub metric_anchor : String → MetricAnomaly F → RedAnchor F
  metric_anchor service m = record {
    service = service;
    selector = "metrics:cpu_usage";
    data_type = data_type_metrics;
    timestamp = m.timestamp;
    anomaly_score = m.score;
    threshold = m.threshold;
  }

  unfoldable pub log_anchor : String → LogAnomaly F → RedAnchor F
  log_anchor service l = record {
    service = service;
    selector = "logs:" <> l.severity;
    data_type = data_type_logs;
    timestamp = l.timestamp;
    anomaly_score = l.score;
    threshold = lit 3 0;
  }

  unfoldable pub trace_anchor : TraceAnomaly F → RedAnchor F
  trace_anchor t = record {
    service = t.span.service;
    selector = "trace:" <> t.span.operation;
    data_type = data_type_traces;
    timestamp = t.span.timestamp;
    anomaly_score = t.score;
    threshold = lit 2 0;
  }

  -- The three loops, one behind the other.
  unfoldable pub all_anchors :
      String
      → List (MetricAnomaly F)
      → List (LogAnomaly F)
      → List (TraceAnomaly F)
      → List (RedAnchor F)
  all_anchors service metrics logs traces =
      map (metric_anchor service) metrics
      ++ (map (log_anchor service) logs ++ map trace_anchor traces)

  abbrev pub scores_higher : RedAnchor F → RedAnchor F → Bool
  scores_higher a b = lt b.anomaly_score a.anomaly_score

  pub build_anchors :
      String
      → List (MetricAnomaly F)
      → List (LogAnomaly F)
      → List (TraceAnomaly F)
      → List (RedAnchor F)
  build_anchors service metrics logs traces =
      let anchors = sort_stable scores_higher (all_anchors service metrics logs traces) in
      if ltb 5 (length anchors) then take 5 anchors else anchors

unfoldable pub derive_root_cause : {F : Type 0} → String → List (RedAnchor F) → String
derive_root_cause service [] = service <> ": no dominant anchor"
derive_root_cause service (a ∷ rest) = a.service <> (": " <> (a.selector <> " anomaly"))
