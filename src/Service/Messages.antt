-- ===== src/Service/Messages.antt =====
-- internal/api/handlers.go: the messages (of internal/grpc/generated) and their conversions.
use mirador_rca.Prelude.{Bool, Option, none, some, String, List, map, ◌||◌, str_eq, if◌then◌else◌}
use mirador_rca.Prelude.Int.{ℤ}
use mirador_rca.Model.{
  Time, zero_time, is_zero, DataType, data_type_metrics, data_type_logs, data_type_traces, Severity,
  severity_low, severity_medium, severity_high, severity_critical, RedAnchor, TimelineEvent,
  CorrelationResult, ListCorrelationsRequest, ListCorrelationsResponse, InvestigationRequest,
  Feedback, AnchorTemplate, FailurePattern,
}

-- A conversion gives a value or the text of an error.
pub data Parsed (A : Type 0) : Type 0 where
  parsed : A → Parsed A
  invalid : String → Parsed A

pub data ProtoDataType : Type 0 where
  data_type_unspecified_code : ProtoDataType
  data_type_metrics_code : ProtoDataType
  data_type_logs_code : ProtoDataType
  data_type_traces_code : ProtoDataType

pub data ProtoSeverity : Type 0 where
  severity_unspecified_code : ProtoSeverity
  severity_low_code : ProtoSeverity
  severity_medium_code : ProtoSeverity
  severity_high_code : ProtoSeverity
  severity_critical_code : ProtoSeverity

pub record ProtoTimeRange : Type 0 where
  pub start : Option Time
  pub end : Option Time

pub record ProtoListRequest : Type 0 where
  pub tenant_id : String
  pub service : String
  pub start_time : Option Time
  pub end_time : Option Time
  pub page_size : ℤ
  pub page_token : String

pub record ProtoFeedback : Type 0 where
  pub tenant_id : String
  pub correlation_id : String
  pub correct : Bool
  pub notes : String

module _ (F : Type 0) where
  pub record ProtoInvestigation : Type 0 where
    pub incident_id : String
    pub symptoms : List String
    pub time_range : Option ProtoTimeRange
    pub affected_services : List String
    pub anomaly_threshold : F
    pub tenant_id : String

  pub record ProtoAnchor : Type 0 where
    pub service : String
    pub selector : String
    pub data_type : ProtoDataType
    pub timestamp : Time
    pub anomaly_score : F
    pub threshold : F

  pub record ProtoEvent : Type 0 where
    pub time : Time
    pub event : String
    pub service : String
    pub severity : ProtoSeverity
    pub anomaly_score : F
    pub data_source : ProtoDataType

  pub record ProtoCorrelation : Type 0 where
    pub correlation_id : String
    pub incident_id : String
    pub root_cause : String
    pub confidence : F
    pub affected_services : List String
    pub recommendations : List String
    pub created_at : Time
    pub red_anchors : List ProtoAnchor
    pub timeline : List ProtoEvent

  pub record ProtoPattern : Type 0 where
    pub id : String
    pub name : String
    pub description : String
    pub services : List String
    pub prevalence : F
    pub last_seen : Option Time
    pub anchor_templates : List (AnchorTemplate F)
    pub precision : F
    pub recall : F

  pub record ProtoListResponse : Type 0 where
    pub correlations : List ProtoCorrelation
    pub next_page_token : String

unfoldable pub to_proto_data_type : DataType → ProtoDataType
to_proto_data_type t =
    if str_eq t data_type_metrics
    then data_type_metrics_code
    else if str_eq t data_type_logs
    then data_type_logs_code
    else if str_eq t data_type_traces
    then data_type_traces_code
    else data_type_unspecified_code

unfoldable pub to_proto_severity : Severity → ProtoSeverity
to_proto_severity s =
    if str_eq s severity_low
    then severity_low_code
    else if str_eq s severity_medium
    then severity_medium_code
    else if str_eq s severity_high
    then severity_high_code
    else if str_eq s severity_critical
    then severity_critical_code
    else severity_unspecified_code

-- A time that is not set is the zero time.
abbrev pub time_or_zero : Option Time → Time
time_or_zero none = zero_time
time_or_zero (some t) = t

-- `FromProtoListCorrelationsRequest`
unfoldable pub from_proto_list : Option ProtoListRequest → Parsed ListCorrelationsRequest
from_proto_list none = invalid "request is nil"
from_proto_list (some req) = parsed (record {
  tenant_id = req.tenant_id;
  service = req.service;
  start = time_or_zero req.start_time;
  end = time_or_zero req.end_time;
  page_size = req.page_size;
  page_token = req.page_token;
})

-- `FromProtoFeedbackRequest`; `now` is what the clock says.
unfoldable pub from_proto_feedback : Time → Option ProtoFeedback → Parsed Feedback
from_proto_feedback now none = invalid "request is nil"
from_proto_feedback now (some req) =
    if str_eq req.correlation_id ""
    then invalid "correlation_id is required"
    else parsed (record {
      tenant_id = req.tenant_id;
      correlation_id = req.correlation_id;
      correct = req.correct;
      notes = req.notes;
      submitted_at = now;
    })

-- The two ends of the window, both of which must be set.
unfoldable pub window_of : Option ProtoTimeRange → Option (Time × Time)
window_of none = none
window_of (some range) = elim range.start [
  | none ↦ none
  | some start ↦ elim range.end [ none ↦ none | some end ↦ some (start, end) ]
]

module _ {F : Type 0} where
  -- `FromProtoInvestigationRequest`
  unfoldable pub from_proto_investigation :
      Option (ProtoInvestigation F) → Parsed (InvestigationRequest F)
  from_proto_investigation none = invalid "request is nil"
  from_proto_investigation (some req) = elim (window_of req.time_range) [
    | none ↦ invalid "time_range.start and time_range.end are required"
    | some w ↦
        if is_zero w.0 || is_zero w.1
        then invalid "time_range values must be set"
        else parsed (record {
          incident_id = req.incident_id;
          symptoms = req.symptoms;
          time_range = record { start = w.0; end = w.1 };
          affected_services = req.affected_services;
          anomaly_threshold = req.anomaly_threshold;
          tenant_id = req.tenant_id;
        })
  ]

  unfoldable pub to_proto_anchor : RedAnchor F → ProtoAnchor F
  to_proto_anchor a = record {
    service = a.service;
    selector = a.selector;
    data_type = to_proto_data_type a.data_type;
    timestamp = a.timestamp;
    anomaly_score = a.anomaly_score;
    threshold = a.threshold;
  }

  unfoldable pub to_proto_event : TimelineEvent F → ProtoEvent F
  to_proto_event e = record {
    time = e.time;
    event = e.event;
    service = e.service;
    severity = to_proto_severity e.severity;
    anomaly_score = e.anomaly_score;
    data_source = to_proto_data_type e.data_source;
  }

  -- `ToProtoCorrelationResult`
  unfoldable pub to_proto_correlation : CorrelationResult F → ProtoCorrelation F
  to_proto_correlation res = record {
    correlation_id = res.correlation_id;
    incident_id = res.incident_id;
    root_cause = res.root_cause;
    confidence = res.confidence;
    affected_services = res.affected_services;
    recommendations = res.recommendations;
    created_at = res.created_at;
    red_anchors = map to_proto_anchor res.red_anchors;
    timeline = map to_proto_event res.timeline;
  }

  -- `ToProtoListCorrelationsResponse`
  unfoldable pub to_proto_list : ListCorrelationsResponse F → ProtoListResponse F
  to_proto_list resp = record {
    correlations = map to_proto_correlation resp.correlations;
    next_page_token = resp.next_page_token;
  }

  -- `ToProtoPatternsResponse`; a template has the same fields on both sides.
  unfoldable pub to_proto_pattern : FailurePattern F → ProtoPattern F
  to_proto_pattern p = record {
    id = p.id;
    name = p.name;
    description = p.description;
    services = p.services;
    prevalence = p.prevalence;
    last_seen = if is_zero p.last_seen then none else some p.last_seen;
    anchor_templates = p.anchor_templates;
    precision = p.precision;
    recall = p.recall;
  }

  unfoldable pub to_proto_patterns : List (FailurePattern F) → List (ProtoPattern F)
  to_proto_patterns = map to_proto_pattern
