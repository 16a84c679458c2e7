-- ===== src/MockCore.antt =====
-- deployment/localdev/mock-core/main.go: the server that stands in for mirador-core in development. A
-- request is its method and its path; what is written to the response is its status and its body.
pub mod Client
pub mod Reaches
pub mod Agreement
pub mod Investigation
use mirador_rca.Prelude.{ℕ, Bool, not, String, List, [], ◌∷◌, str_eq, if◌then◌else◌}
use mirador_rca.Prelude.Int.{ℤ, pos, ◌-ℤ◌, ◌*ℤ◌}
use mirador_rca.Double.{Double}
use mirador_rca.Json.{Json, number, text, array, object, items_of, fields_of}
use mirador_rca.Model.{Time, Duration, second, MetricPoint, LogEntry, ServiceGraphEdge}
use mirador_rca.Core.{SentSpan}

pub data MockBody (F : Type 0) : Type 0 where
  empty : MockBody F
  plain : String → MockBody F
  json : Json F → MockBody F

pub record MockResponse (F : Type 0) : Type 0 where
  pub status : ℕ
  pub body : MockBody F

module _ {F : Type 0} ⦃d : Double F⦄ (format_time : Time → String) where
  pub series_point : MetricPoint F → Json F
  series_point p =
      object
        (fields_of (("timestamp", text (format_time p.timestamp)) ∷ ("value", number p.value) ∷ []))

  pub log_entry : LogEntry → Json F
  log_entry e = object (
      fields_of (
        ("timestamp", text (format_time e.timestamp))
        ∷ ("message", text e.message)
        ∷ ("severity", text e.severity)
        ∷ ("count", number (d.of_int e.count))
        ∷ []))

  pub trace_span : SentSpan F → Json F
  trace_span s = object (
      fields_of (
        ("trace_id", text s.trace_id)
        ∷ ("span_id", text s.span_id)
        ∷ ("service", text s.service)
        ∷ ("operation", text s.operation)
        ∷ ("duration_ms", number s.duration_ms)
        ∷ ("status", text s.status)
        ∷ ("timestamp", text (format_time s.timestamp))
        ∷ []))

module _ {F : Type 0} where
  pub service_graph_edge : ServiceGraphEdge F → Json F
  service_graph_edge e = object (
      fields_of (
        ("source", text e.source)
        ∷ ("target", text e.target)
        ∷ ("call_rate", number e.call_rate)
        ∷ ("error_rate", number e.error_rate)
        ∷ []))

-- `time.Now().Add(-n * time.Second)`
abbrev seconds_ago : Time → ℤ → Time
seconds_ago now n = now -ℤ n *ℤ second

abbrev minutes_ago : Time → ℤ → Time
minutes_ago now n = now -ℤ n *ℤ (pos 60 *ℤ second)

module _ {F : Type 0} ⦃d : Double F⦄ (now : Time) where
  abbrev pub mock_series : List (MetricPoint F)
  mock_series =
      record { timestamp = minutes_ago now (pos 4); value = d.lit 10 1 }
      ∷ record { timestamp = minutes_ago now (pos 3); value = d.lit 55 1 }
      ∷ record { timestamp = minutes_ago now (pos 2); value = d.lit 92 1 }
      ∷ []

  abbrev pub mock_spans : List (SentSpan F)
  mock_spans =
      record {
        trace_id = "trace-abc";
        span_id = "span-1";
        service = "checkout";
        operation = "HTTP POST /payments";
        duration_ms = d.lit 950 0;
        status = "error";
        timestamp = seconds_ago now (pos 90);
      }
      ∷ record {
        trace_id = "trace-abc";
        span_id = "span-2";
        service = "payments";
        operation = "DB update";
        duration_ms = d.lit 740 0;
        status = "ok";
        timestamp = seconds_ago now (pos 80);
      }
      ∷ []

abbrev pub mock_entries : Time → List LogEntry
mock_entries now =
    record {
      timestamp = minutes_ago now (pos 3);
      message = "checkout failed to reach payments";
      severity = "error";
      count = pos 42;
    }
    ∷ record {
      timestamp = minutes_ago now (pos 2);
      message = "retry exhausted";
      severity = "warn";
      count = pos 7;
    }
    ∷ []

abbrev pub mock_edges : {F : Type 0} ⦃d : Double F⦄ → List (ServiceGraphEdge F)
mock_edges ⦃d⦄ =
    record {
      source = "checkout";
      target = "payments";
      call_rate = d.lit 3200 1;
      error_rate = d.lit 7 2;
    }
    ∷ record {
      source = "checkout";
      target = "inventory";
      call_rate = d.lit 1100 1;
      error_rate = d.lit 2 2;
    }
    ∷ []

module _ {F : Type 0} where
  abbrev pub under : {A : Type 0} → String → (A → Json F) → List A → Json F
  under key write l = object (fields_of ((key, array (items_of write l)) ∷ []))

  -- `enforcePost` in front of `writeJSON`; a response whose status is not set has the status 200.
  pub write_json : String → Json F → MockResponse F
  write_json method payload =
      if str_eq method "POST"
      then record { status = 200; body = json payload }
      else record { status = 405; body = empty }

-- The handlers of the mux; any other path is not found.
pub mock_core :
    {F : Type 0} ⦃d : Double F⦄ → (Time → String) → Time → String → String → MockResponse F
mock_core format_time now method path =
    if str_eq path "/healthz"
    then record { status = 200; body = plain "ok" }
    else if str_eq path "/api/v1/rca/metrics"
    then write_json method (under "series" (series_point format_time) (mock_series now))
    else if str_eq path "/api/v1/rca/logs"
    then write_json method (under "entries" (log_entry format_time) (mock_entries now))
    else if str_eq path "/api/v1/rca/traces"
    then write_json method (under "spans" (trace_span format_time) (mock_spans now))
    else if str_eq path "/api/v1/rca/service-graph"
    then write_json method (under "edges" service_graph_edge mock_edges)
    else record { status = 404; body = plain "404 page not found\n" }

-- What `logRequests` logs of a request: its method, its path, and the status that was answered.
pub record LogLine : Type 0 where
  pub method : String
  pub path : String
  pub status : ℕ

-- `logRequests` in front of a handler; the time that it logs too is left out.
unfoldable pub log_requests :
    {F : Type 0} → (String → String → MockResponse F) → String → String → MockResponse F × LogLine
log_requests handler method path =
    let response = handler method path in
    (response, record { method = method; path = path; status = response.status })
