-- ===== src/Model.antt =====
-- internal/models and the signal records of internal/repo/mirador_core.go, over any type `F` of
-- floats. A time is a whole number of nanoseconds since Go's zero time, and a duration of nanoseconds.
use mirador_rca.Prelude.{Bool, String, List}
use mirador_rca.Prelude.Int.{ℤ, pos, ltb_ℤ, eqb_ℤ}

abbrev pub Time : Type 0
Time = ℤ

abbrev pub Duration : Type 0
Duration = ℤ

-- `time.Time{}`, and `IsZero`, `Before`, `After` and `Add`.
abbrev pub zero_time : Time
zero_time = pos 0

abbrev pub is_zero : Time → Bool
is_zero t = eqb_ℤ t zero_time

abbrev pub before : Time → Time → Bool
before s t = ltb_ℤ s t

abbrev pub after : Time → Time → Bool
after s t = ltb_ℤ t s

abbrev pub DataType : Type 0
DataType = String

abbrev pub data_type_metrics : DataType
data_type_metrics = "metrics"

abbrev pub data_type_logs : DataType
data_type_logs = "logs"

abbrev pub data_type_traces : DataType
data_type_traces = "traces"

abbrev pub Severity : Type 0
Severity = String

abbrev pub severity_low : Severity
severity_low = "low"

abbrev pub severity_medium : Severity
severity_medium = "medium"

abbrev pub severity_high : Severity
severity_high = "high"

abbrev pub severity_critical : Severity
severity_critical = "critical"

pub record TimeRange : Type 0 where
  pub start : Time
  pub end : Time

pub record ListCorrelationsRequest : Type 0 where
  pub tenant_id : String
  pub service : String
  pub start : Time
  pub end : Time
  pub page_size : ℤ
  pub page_token : String

pub record Feedback : Type 0 where
  pub tenant_id : String
  pub correlation_id : String
  pub correct : Bool
  pub notes : String
  pub submitted_at : Time

pub record LogEntry : Type 0 where
  pub timestamp : Time
  pub message : String
  pub severity : String
  pub count : ℤ

pub record TraceSpan : Type 0 where
  pub trace_id : String
  pub span_id : String
  pub service : String
  pub operation : String
  pub duration : Duration
  pub status : String
  pub timestamp : Time

module _ (F : Type 0) where
  pub record RedAnchor : Type 0 where
    pub service : String
    pub selector : String
    pub data_type : DataType
    pub timestamp : Time
    pub anomaly_score : F
    pub threshold : F

  pub record TimelineEvent : Type 0 where
    pub time : Time
    pub event : String
    pub service : String
    pub severity : Severity
    pub anomaly_score : F
    pub data_source : DataType

  pub record CorrelationResult : Type 0 where
    pub correlation_id : String
    pub incident_id : String
    pub root_cause : String
    pub confidence : F
    pub affected_services : List String
    pub red_anchors : List RedAnchor
    pub timeline : List TimelineEvent
    pub recommendations : List String
    pub created_at : Time

  pub record ListCorrelationsResponse : Type 0 where
    pub correlations : List CorrelationResult
    pub next_page_token : String

  pub record InvestigationRequest : Type 0 where
    pub incident_id : String
    pub symptoms : List String
    pub time_range : TimeRange
    pub affected_services : List String
    pub anomaly_threshold : F
    pub tenant_id : String

  pub record AnchorTemplate : Type 0 where
    pub service : String
    pub signal_type : String
    pub selector : String
    pub typical_lag : F
    pub threshold : F

  pub record FailurePattern : Type 0 where
    pub id : String
    pub name : String
    pub description : String
    pub services : List String
    pub anchor_templates : List AnchorTemplate
    pub prevalence : F
    pub last_seen : Time
    pub precision : F
    pub recall : F

  pub record MetricPoint : Type 0 where
    pub timestamp : Time
    pub value : F

  pub record ServiceGraphEdge : Type 0 where
    pub source : String
    pub target : String
    pub call_rate : F
    pub error_rate : F

-- Half a second, and a second.
abbrev pub half_second : Duration
half_second = pos 500_000_000

abbrev pub second : Duration
second = pos 1_000_000_000
