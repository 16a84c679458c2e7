-- ===== src/Service/Reading.antt =====
-- internal/api/handlers.go, `ToProtoCorrelationResult`: a reader of the message gets the result back.
use mirador_rca.Prelude.{◌≡◌, refl, ◌⊎◌, inl, inr, List, [], ◌∷◌, map, All}
use mirador_rca.Model.{
  DataType, data_type_metrics, data_type_logs, data_type_traces, Severity, severity_low,
  severity_medium, severity_high, severity_critical, RedAnchor, TimelineEvent, CorrelationResult,
}
use mirador_rca.Service.Messages.{
  ProtoDataType, data_type_unspecified_code, data_type_metrics_code, data_type_logs_code,
  data_type_traces_code, ProtoSeverity, severity_unspecified_code, severity_low_code,
  severity_medium_code, severity_high_code, severity_critical_code, ProtoAnchor, ProtoEvent,
  ProtoCorrelation, to_proto_data_type, to_proto_severity, to_proto_anchor, to_proto_event,
  to_proto_correlation,
}

-- How a reader takes the codes.
abbrev pub read_data_type : ProtoDataType → DataType
read_data_type data_type_metrics_code = data_type_metrics
read_data_type data_type_logs_code = data_type_logs
read_data_type data_type_traces_code = data_type_traces
read_data_type data_type_unspecified_code = ""

abbrev pub read_severity : ProtoSeverity → Severity
read_severity severity_low_code = severity_low
read_severity severity_medium_code = severity_medium
read_severity severity_high_code = severity_high
read_severity severity_critical_code = severity_critical
read_severity severity_unspecified_code = ""

-- The data types and the severities that the program names.
abbrev pub IsDataType : DataType → Type 0
IsDataType t = (t ≡ data_type_metrics) ⊎ ((t ≡ data_type_logs) ⊎ (t ≡ data_type_traces))

abbrev pub IsSeverity : Severity → Type 0
IsSeverity s =
    (s ≡ severity_low) ⊎ ((s ≡ severity_medium) ⊎ ((s ≡ severity_high) ⊎ (s ≡ severity_critical)))

read_data_type-to_proto : (t : DataType) → IsDataType t → read_data_type (to_proto_data_type t) ≡ t
unfolding to_proto_data_type
read_data_type-to_proto t (inl e) = rw e
read_data_type-to_proto t (inr (inl e)) = rw e
read_data_type-to_proto t (inr (inr e)) = rw e

read_severity-to_proto : (s : Severity) → IsSeverity s → read_severity (to_proto_severity s) ≡ s
unfolding to_proto_severity
read_severity-to_proto s (inl e) = rw e
read_severity-to_proto s (inr (inl e)) = rw e
read_severity-to_proto s (inr (inr (inl e))) = rw e
read_severity-to_proto s (inr (inr (inr e))) = rw e

module _ {F : Type 0} where
  abbrev read_anchor : ProtoAnchor F → RedAnchor F
  read_anchor a = record {
    service = a.service;
    selector = a.selector;
    data_type = read_data_type a.data_type;
    timestamp = a.timestamp;
    anomaly_score = a.anomaly_score;
    threshold = a.threshold;
  }

  abbrev read_event : ProtoEvent F → TimelineEvent F
  read_event e = record {
    time = e.time;
    event = e.event;
    service = e.service;
    severity = read_severity e.severity;
    anomaly_score = e.anomaly_score;
    data_source = read_data_type e.data_source;
  }

  abbrev pub read_correlation : ProtoCorrelation F → CorrelationResult F
  read_correlation res = record {
    correlation_id = res.correlation_id;
    incident_id = res.incident_id;
    root_cause = res.root_cause;
    confidence = res.confidence;
    affected_services = res.affected_services;
    red_anchors = map read_anchor res.red_anchors;
    timeline = map read_event res.timeline;
    recommendations = res.recommendations;
    created_at = res.created_at;
  }

  abbrev pub HasNames : CorrelationResult F → Type 0
  HasNames res =
      All (λ a. IsDataType a.data_type) res.red_anchors
      × All (λ e. IsSeverity e.severity × IsDataType e.data_source) res.timeline

  read_anchors :
      (l : List (RedAnchor F))
      → All (λ a. IsDataType a.data_type) l
      → map read_anchor (map to_proto_anchor l) ≡ l
  unfolding to_proto_anchor
  read_anchors [] h = refl
  read_anchors (a ∷ l) (h, hs) = rw (read_data_type-to_proto a.data_type h, read_anchors l hs)

  read_events :
      (l : List (TimelineEvent F))
      → All (λ e. IsSeverity e.severity × IsDataType e.data_source) l
      → map read_event (map to_proto_event l) ≡ l
  unfolding to_proto_event
  read_events [] h = refl
  read_events (e ∷ l) ((h, k), hs) = rw (
    read_severity-to_proto e.severity h,
    read_data_type-to_proto e.data_source k,
    read_events l hs,
  )

  -- A reader of the message for a result gets exactly that result back, where the result uses the data
  -- types and severities that the program names.
  pub read_correlation-to_proto :
      (res : CorrelationResult F) → HasNames res → read_correlation (to_proto_correlation res) ≡ res
  unfolding to_proto_correlation
  read_correlation-to_proto res (anchors, events) =
      rw (read_anchors res.red_anchors anchors, read_events res.timeline events)
