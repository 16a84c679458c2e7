-- ===== src/Engine/Pipeline/Assemble.antt =====
-- internal/engine/pipeline.go, `Analyze`: the result that is put together from the anomalies.
use mirador_rca.Prelude.{
  Bool, true, false, not, ◌&&◌, String, List, [], ◌∷◌, ◌++◌, str_eq, if◌then◌else◌,
}
use mirador_rca.Prelude.Int.{ℤ, pos, ◌-ℤ◌, ◌*ℤ◌}
use mirador_rca.Prelude.Text.{◌<>◌, equal_fold, format_int}
use mirador_rca.Runtime.{Runtime}
use mirador_rca.Double.{Double}
use mirador_rca.Model.{
  Time, second, half_second, ServiceGraphEdge, InvestigationRequest, CorrelationResult, RedAnchor,
  TimelineEvent, severity_medium, data_type_traces,
}
use mirador_rca.Extractors.Metrics.{MetricAnomaly}
use mirador_rca.Extractors.Logs.{LogAnomaly}
use mirador_rca.Extractors.Traces.{TraceAnomaly}
use mirador_rca.Engine.Strings.{unique_strings}
use mirador_rca.Engine.Causality.{CausalityResult, evaluate, no_result, root_event_time}
use mirador_rca.Engine.Confidence.{compute_confidence, calibrate_confidence}
use mirador_rca.Engine.Anchors.{build_anchors, derive_root_cause}
use mirador_rca.Engine.Timeline.{build_timeline}
use mirador_rca.Engine.Topology.{neighbor_services, append_topology_events}

-- What the clock says at the three places where `Analyze` reads it.
pub record Clock : Type 0 where
  pub at_topology : Time
  pub at_id : Time
  pub at_created : Time

-- The seconds from Go's zero time to the Unix epoch.
abbrev pub unix_epoch : ℤ
unix_epoch = pos 62_135_596_800

-- `UnixNano`
unfoldable pub unix_nano : Time → ℤ
unix_nano t = t -ℤ unix_epoch *ℤ second

-- A suggestion counts if it names another service than the one under investigation.
unfoldable pub suggests_other : String → String → Bool
suggests_other suggested service = not (str_eq suggested "") && not (equal_fold suggested service)

module _ {F : Type 0} ⦃d : Double F⦄ where
  -- The causality result; without an engine it is the zero value.
  unfoldable pub causality_of :
      Bool → String → List (TimelineEvent F) → List (ServiceGraphEdge F) → CausalityResult F
  causality_of true service timeline graph = evaluate service timeline graph
  causality_of false service timeline graph = no_result

  unfoldable pub suggested_event : String → String → List (TimelineEvent F) → TimelineEvent F
  suggested_event suggested service timeline = record {
    time = root_event_time suggested timeline -ℤ half_second;
    event = "Causality: " <> (suggested <> (" precedes " <> service));
    service = suggested;
    severity = severity_medium;
    anomaly_score = d.lit 0 0;
    data_source = data_type_traces;
  }

  unfoldable pub with_suggestion : String → String → List (TimelineEvent F) → List (TimelineEvent F)
  with_suggestion suggested service timeline =
      if suggests_other suggested service
      then timeline ++ suggested_event suggested service timeline ∷ []
      else timeline

  unfoldable pub root_cause_of : String → String → List (RedAnchor F) → String
  root_cause_of suggested service anchors =
      if suggests_other suggested service
      then suggested <> (": upstream influence on " <> service)
      else derive_root_cause service anchors

module _ (r : Runtime) {F : Type 0} where
  unfoldable pub affected_of :
      String → String → List String → List (ServiceGraphEdge F) → List String
  affected_of suggested service requested graph =
      let direct = unique_strings (service ∷ requested) in
      let near = unique_strings (direct ++ neighbor_services r graph service) in
      if suggests_other suggested service then unique_strings (near ++ suggested ∷ []) else near

-- The anomalies that the three detectors found.
pub record Anomalies (F : Type 0) : Type 0 where
  pub metrics : List (MetricAnomaly F)
  pub logs : List (LogAnomaly F)
  pub traces : List (TraceAnomaly F)

module _ (r : Runtime) {F : Type 0} ⦃d : Double F⦄ where
  -- The result of `Analyze`, from the anomalies and the recommendations.
  unfoldable pub assemble :
      Clock
      → Bool
      → InvestigationRequest F
      → String
      → List (ServiceGraphEdge F)
      → Anomalies F
      → List String
      → CorrelationResult F
  assemble clock engine req service graph found recommendations =
      let anchors = build_anchors service found.metrics found.logs found.traces in
      let timeline = build_timeline r found.metrics found.logs found.traces in
      let confidence = compute_confidence found.metrics found.logs found.traces in
      let causality = causality_of engine service timeline graph in
      let suggested = causality.suggested_service in
      let extended = with_suggestion suggested service timeline in
      record {
        correlation_id = "corr-" <> format_int (unix_nano clock.at_id);
        incident_id = req.incident_id;
        root_cause = root_cause_of suggested service anchors;
        confidence = calibrate_confidence confidence causality.score;
        affected_services = affected_of r suggested service req.affected_services graph;
        recommendations = recommendations;
        red_anchors = anchors;
        timeline = append_topology_events r clock.at_topology extended service graph;
        created_at = clock.at_created;
      }
