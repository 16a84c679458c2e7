-- ===== src/Engine/Timeline.antt =====
-- internal/engine/pipeline.go: `buildTimeline`.
pub mod Order
use mirador_rca.Prelude.{
  Bool, String, List, [], ◌∷◌, ◌++◌, map, length, take, ltb, str_eq, if◌then◌else◌,
}
use mirador_rca.Prelude.Text.{◌<>◌}
use mirador_rca.Runtime.{Runtime}
use mirador_rca.Double.{Double}
use mirador_rca.Model.{
  before, TimelineEvent, severity_high, data_type_metrics, data_type_logs, data_type_traces,
}
use mirador_rca.Extractors.Metrics.{MetricAnomaly}
use mirador_rca.Extractors.Logs.{LogAnomaly}
use mirador_rca.Extractors.Traces.{TraceAnomaly}
use mirador_rca.Engine.Confidence.{severity_from_score}

abbrev pub event_before : {F : Type 0} → TimelineEvent F → TimelineEvent F → Bool
event_before a b = before a.time b.time

module _ {F : Type 0} ⦃d : Double F⦄ where
  unfoldable pub metric_event : MetricAnomaly F → TimelineEvent F
  metric_event m = record {
    time = m.timestamp;
    event = "Metric anomaly detected";
    service = "";
    severity = severity_from_score m.score;
    anomaly_score = m.score;
    data_source = data_type_metrics;
  }

  unfoldable pub log_event : LogAnomaly F → TimelineEvent F
  log_event l = record {
    time = l.timestamp;
    event = "Log spike (" <> (l.severity <> ")");
    service = "";
    severity = severity_from_score l.score;
    anomaly_score = l.score;
    data_source = data_type_logs;
  }

  unfoldable pub trace_event : TraceAnomaly F → TimelineEvent F
  trace_event t = record {
    time = t.span.timestamp;
    event = "Slow span: " <> t.span.operation;
    service = t.span.service;
    severity = if str_eq t.span.status "error" then severity_high else severity_from_score t.score;
    anomaly_score = t.score;
    data_source = data_type_traces;
  }

  unfoldable pub all_events :
      List (MetricAnomaly F) → List (LogAnomaly F) → List (TraceAnomaly F) → List (TimelineEvent F)
  all_events metrics logs traces =
      map metric_event metrics ++ (map log_event logs ++ map trace_event traces)

module _ (r : Runtime) {F : Type 0} ⦃d : Double F⦄ where
  pub build_timeline :
      List (MetricAnomaly F) → List (LogAnomaly F) → List (TraceAnomaly F) → List (TimelineEvent F)
  build_timeline metrics logs traces =
      let timeline = r.sort_slice event_before (all_events metrics logs traces) in
      if ltb 10 (length timeline) then take 10 timeline else timeline
