-- ===== src/Tests/Data.antt =====
-- The inputs of the examples.
use mirador_rca.Prelude.{some, true, String, List, [], ◌∷◌, ◌++◌}
use mirador_rca.Prelude.Int.{ℤ, pos}
use mirador_rca.Prelude.Outcome.{reply, failure}
use mirador_rca.Double.Fixed.{Fixed}
use mirador_rca.Model.{
  MetricPoint, LogEntry, TraceSpan, ServiceGraphEdge, InvestigationRequest, RedAnchor,
  TimelineEvent, severity_high, data_type_traces,
}
use mirador_rca.Extractors.Metrics.{MetricAnomaly}
use mirador_rca.Extractors.Logs.{LogAnomaly}
use mirador_rca.Extractors.Traces.{TraceAnomaly}
use mirador_rca.Engine.Rules.{Rule}
use mirador_rca.Engine.Pipeline.{CoreClient, WeaviateClient, Pipeline}
use mirador_rca.Engine.Pipeline.Assemble.{Clock, Anomalies}

abbrev pub thousandths : ℤ → Fixed
thousandths n = some n

abbrev pub at : ℤ → ℤ → MetricPoint Fixed
at t v = record { timestamp = t; value = some v }

abbrev pub cpu_series : List (MetricPoint Fixed)
cpu_series = at (pos 1) (pos 1000) ∷ at (pos 2) (pos 1000) ∷ at (pos 3) (pos 9000) ∷ []

abbrev pub log_entries : List LogEntry
log_entries =
    record { timestamp = pos 4; message = "timeout"; severity = "error"; count = pos 9 }
    ∷ record { timestamp = pos 5; message = "ok"; severity = "info"; count = pos 1 }
    ∷ []

abbrev pub span : String → String → ℤ → TraceSpan
span service status duration = record {
  trace_id = "t";
  span_id = "s";
  service = service;
  operation = "GET /pay";
  duration = duration;
  status = status;
  timestamp = pos 6;
}

abbrev pub spans : List TraceSpan
spans = span "checkout" "ok" (pos 5) ∷ span "payments" "error" (pos 7) ∷ []

abbrev pub edge : String → String → ServiceGraphEdge Fixed
edge source target = record {
  source = source;
  target = target;
  call_rate = some (pos 2000);
  error_rate = some (pos 50);
}

abbrev pub graph : List (ServiceGraphEdge Fixed)
graph = edge "payments" "checkout" ∷ edge "checkout" "cart" ∷ edge "cart" "stock" ∷ []

abbrev pub request : InvestigationRequest Fixed
request = record {
  incident_id = "inc-1";
  symptoms = "latency" ∷ [];
  time_range = record { start = pos 0; end = pos 100 };
  affected_services = "checkout" ∷ [];
  anomaly_threshold = some (pos 1000);
  tenant_id = "tenant";
}

abbrev pub metric_anomalies : List (MetricAnomaly Fixed)
metric_anomalies =
    record {
      timestamp = pos 3;
      value = some (pos 9000);
      score = some (pos 1400);
      threshold = some (pos 1000);
    }
    ∷ []

abbrev pub log_anomalies : List (LogAnomaly Fixed)
log_anomalies =
    record { timestamp = pos 4; severity = "error"; count = pos 9; score = some (pos 3000) } ∷ []

abbrev pub trace_anomalies : List (TraceAnomaly Fixed)
trace_anomalies =
    record {
      span = span "payments" "error" (pos 7);
      score = some (pos 2000);
      median = some (pos 1000);
    }
    ∷ []

abbrev pub event : ℤ → String → TimelineEvent Fixed
event t service = record {
  time = t;
  event = "Slow span: GET /pay";
  service = service;
  severity = severity_high;
  anomaly_score = some (pos 2000);
  data_source = data_type_traces;
}

abbrev pub timeline : List (TimelineEvent Fixed)
timeline = event (pos 6) "payments" ∷ event (pos 8) "checkout" ∷ []

abbrev pub rules : List Rule
rules =
    record {
      id = "errors";
      matching = record { service = "checkout"; severity = ""; selector_contains = "logs" ∷ [] };
      recommendations = "Roll back the last deployment" ∷ [];
    }
    ∷ []

abbrev pub anchors : List (RedAnchor Fixed)
anchors =
    record {
      service = "checkout";
      selector = "logs:error";
      data_type = "logs";
      timestamp = pos 4;
      anomaly_score = some (pos 3000);
      threshold = some (pos 3000);
    }
    ∷ []

-- A client whose state is the list of its calls.
abbrev pub core_client : CoreClient (List String) Fixed
core_client = record {
  fetch_metric_series = λ tenant service start end log. (reply cpu_series, log ++ "metrics" ∷ []);
  fetch_log_entries = λ tenant service start end log. (reply log_entries, log ++ "logs" ∷ []);
  fetch_trace_spans = λ tenant service start end log. (reply spans, log ++ "traces" ∷ []);
  fetch_service_graph = λ tenant start end log. (reply graph, log ++ "graph" ∷ []);
}

-- One whose logs cannot be fetched, and whose graph cannot either.
abbrev pub broken_client : CoreClient (List String) Fixed
broken_client = record core_client {
  fetch_log_entries = λ tenant service start end log. (failure "timeout", log ++ "logs" ∷ []);
  fetch_service_graph = λ tenant start end log. (failure "not found", log ++ "graph" ∷ []);
}

abbrev pub incident_store : WeaviateClient (List String) Fixed
incident_store = record {
  similar_incidents = λ tenant symptoms limit log. (reply [], log ++ "similar" ∷ []);
  store_correlation = λ tenant result log. (failure "read only", log ++ "store" ∷ []);
}

abbrev pub pipeline : Pipeline (List String) Fixed
pipeline = record {
  core_client = some core_client;
  weaviate = some incident_store;
  rules_engine = some (record { rules = rules });
  causality_engine = true;
  traces_threshold = some (pos 2000);
}

abbrev pub clock : Clock
clock = record { at_topology = pos 10; at_id = pos 11; at_created = pos 12 }

abbrev pub anomalies : Anomalies Fixed
anomalies = record { metrics = metric_anomalies; logs = log_anomalies; traces = trace_anomalies }
