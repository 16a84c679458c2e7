-- ===== src/Weaviate/Records.antt =====
-- internal/repo/weaviate_repo.go: the rows of an answer, and what the repository makes of them.
use mirador_rca.Prelude.{ℕ, Option, none, some, Bool, String, List, [], if◌then◌else◌}
use mirador_rca.Prelude.Text.{codes, to_lower, codes_eq}
use mirador_rca.Json.{
  Json, Fields, find, read_object, read_array, read_time, text_in, number_in, texts_in, struct_in,
  structs_in, ◌>>=◌,
}
use mirador_rca.Double.{Double}
use mirador_rca.Model.{
  Time, zero_time, DataType, data_type_metrics, data_type_logs, data_type_traces, Severity,
  severity_low, severity_medium, severity_high, severity_critical, AnchorTemplate, FailurePattern,
  RedAnchor, TimelineEvent, CorrelationResult,
}

-- A `case` of a switch on a text in lower case.
abbrev is_case : String → List ℕ → Bool
is_case label lower = codes_eq lower (codes label)

abbrev parse_data_type_from : String → List ℕ → DataType
parse_data_type_from value lower =
    if is_case "metrics" lower
    then data_type_metrics
    else if is_case "logs" lower
    then data_type_logs
    else if is_case "traces" lower
    then data_type_traces
    else value

unfoldable pub parse_data_type : String → DataType
parse_data_type value = parse_data_type_from value (to_lower value)

abbrev parse_severity_from : String → List ℕ → Severity
parse_severity_from value lower =
    if is_case "low" lower
    then severity_low
    else if is_case "medium" lower
    then severity_medium
    else if is_case "high" lower
    then severity_high
    else if is_case "critical" lower
    then severity_critical
    else value

unfoldable pub parse_severity : String → Severity
parse_severity value = parse_severity_from value (to_lower value)

-- `t, _ := time.Parse(time.RFC3339, s)`
abbrev pub or_zero_time : Option Time → Time
or_zero_time none = zero_time
or_zero_time (some t) = t

module _ {F : Type 0} ⦃d : Double F⦄ where
  unfoldable pub template_from : Fields F → Option (AnchorTemplate F)
  template_from l = do
    service ← text_in "service" l
    signal_type ← text_in "signalType" l
    selector ← text_in "selector" l
    typical_lag ← number_in "typicalLeadLag" l
    threshold ← number_in "thresholds" l
    some (record {
      service = service;
      signal_type = signal_type;
      selector = selector;
      typical_lag = typical_lag;
      threshold = threshold;
    })

  unfoldable pub quality_from : Fields F → Option (F × F)
  quality_from l = do
    precision ← number_in "precision" l
    recall ← number_in "recall" l
    some (precision, recall)

module _ {F : Type 0} ⦃d : Double F⦄ (parse_time : String → Option Time) where
  -- A pattern of `FetchPatterns`.
  unfoldable pub pattern_from : Fields F → Option (FailurePattern F)
  pattern_from l = do
    id ← text_in "patternId" l
    name ← text_in "name" l
    description ← text_in "description" l
    services ← texts_in "services" l
    anchor_templates ← structs_in template_from "anchorTemplates" l
    prevalence ← number_in "prevalence" l
    last_seen ← text_in "lastSeen" l
    quality ← struct_in quality_from "quality" l
    some (record {
      id = id;
      name = name;
      description = description;
      services = services;
      anchor_templates = anchor_templates;
      prevalence = prevalence;
      last_seen = or_zero_time (parse_time last_seen);
      precision = quality.0;
      recall = quality.1;
    })

  unfoldable pub anchor_from : Fields F → Option (RedAnchor F)
  anchor_from l = do
    service ← text_in "service" l
    selector ← text_in "selector" l
    data_type ← text_in "dataType" l
    timestamp ← text_in "timestamp" l
    anomaly_score ← number_in "anomalyScore" l
    threshold ← number_in "threshold" l
    some (record {
      service = service;
      selector = selector;
      data_type = parse_data_type data_type;
      timestamp = or_zero_time (parse_time timestamp);
      anomaly_score = anomaly_score;
      threshold = threshold;
    })

  unfoldable pub event_from : Fields F → Option (TimelineEvent F)
  event_from l = do
    time ← text_in "time" l
    event ← text_in "event" l
    service ← text_in "service" l
    severity ← text_in "severity" l
    anomaly_score ← number_in "anomalyScore" l
    data_source ← text_in "dataSource" l
    some (record {
      time = or_zero_time (parse_time time);
      event = event;
      service = service;
      severity = parse_severity severity;
      anomaly_score = anomaly_score;
      data_source = parse_data_type data_source;
    })

  -- A record of `ListCorrelations`.
  unfoldable pub correlation_from : Fields F → Option (CorrelationResult F)
  correlation_from l = do
    correlation_id ← text_in "correlationId" l
    incident_id ← text_in "incidentId" l
    root_cause ← text_in "rootCause" l
    confidence ← number_in "confidence" l
    affected_services ← texts_in "affectedServices" l
    recommendations ← texts_in "recommendations" l
    created_at ← text_in "createdAt" l
    red_anchors ← structs_in anchor_from "redAnchors" l
    timeline ← structs_in event_from "timeline" l
    some (record {
      correlation_id = correlation_id;
      incident_id = incident_id;
      root_cause = root_cause;
      confidence = confidence;
      affected_services = affected_services;
      red_anchors = red_anchors;
      timeline = timeline;
      recommendations = recommendations;
      created_at = or_zero_time (parse_time created_at);
    })

  -- A record of `SimilarIncidents`, which asks for neither anchors nor a timeline.
  unfoldable pub incident_from : Fields F → Option (CorrelationResult F)
  incident_from l = do
    correlation_id ← text_in "correlationId" l
    incident_id ← text_in "incidentId" l
    root_cause ← text_in "rootCause" l
    confidence ← number_in "confidence" l
    affected_services ← texts_in "affectedServices" l
    recommendations ← texts_in "recommendations" l
    created_at ← read_time parse_time (find "createdAt" l)
    some (record {
      correlation_id = correlation_id;
      incident_id = incident_id;
      root_cause = root_cause;
      confidence = confidence;
      affected_services = affected_services;
      red_anchors = [];
      timeline = [];
      recommendations = recommendations;
      created_at = created_at;
    })

-- The rows of a class in an answer, under "data" and "Get".
module _ {F A : Type 0} where
  abbrev rows_under_get : (Fields F → Option A) → String → Fields F → Option (List A)
  rows_under_get read class l = read_array (read_object read) (find class l)

  abbrev rows_under_data : (Fields F → Option A) → String → Fields F → Option (List A)
  rows_under_data read class l = read_object (rows_under_get read class) (find "Get" l)

  unfoldable pub rows_from : (Fields F → Option A) → String → Json F → Option (List A)
  rows_from read class answer =
      read_object (λ l. read_object (rows_under_data read class) (find "data" l)) answer
