-- ===== src/Core/Http.antt =====
-- internal/repo/mirador_core.go: the requests to mirador-core as JSON over HTTP, and the client that is
-- built on them. Sending, the bytes of JSON, the printing of times and `url.Parse` are parameters.
use Prim.Native.Char.{code}
use mirador_rca.Prelude.{ℕ, ◌==◌, Option, none, some, String, List, [], ◌∷◌, str_eq, if◌then◌else◌}
use mirador_rca.Prelude.Text.{◌<>◌, trim_slashes}
use mirador_rca.Prelude.Outcome.{Reply, reply, failure}
use mirador_rca.Double.{Double}
use mirador_rca.Json.{
  Json, text, object, Fields, fields_of, find, read_object, read_time, read_int, text_in, number_in,
  structs_in, ◌>>=◌,
}
use mirador_rca.Http.{HttpRequest, HttpResponse, attempt, wrapped}
use mirador_rca.Model.{Time, Duration, MetricPoint, LogEntry, ServiceGraphEdge}
use mirador_rca.Cache.Provider.{Provider, Coding, or_noop}
use mirador_rca.Core.{SentSpan, Backend, MiradorCoreClient}

module _ (W D F : Type 0) where
  -- `json.Marshal` of a payload, `http.NewRequestWithContext`, `httpClient.Do`, the text of a status, the
  -- decoder of a body and its error on a value of another shape, the address that a path gets behind the
  -- base where `url.Parse` takes it, `time.RFC3339`, and the coding of edges in the cache.
  pub record HttpCore : Type 0 where
    pub marshal : Json F → Reply D
    pub new_request : String → Reply (Unit {0})
    pub send : HttpRequest D → W → Reply (HttpResponse D) × W
    pub status_text : ℕ → String
    pub decode : D → Reply (Json F)
    pub misfit : Json F → String
    pub join_path : String → String → Option String
    pub format_time : Time → String
    pub parse_time : String → Option Time
    pub edges : Coding D (List (ServiceGraphEdge F))

pub record CorePaths : Type 0 where
  pub metrics_path : String
  pub logs_path : String
  pub traces_path : String
  pub service_graph_path : String

-- `strings.TrimLeft(s, "/")`
unfoldable pub trim_left_slashes : String → String
trim_left_slashes String.[] = ""
trim_left_slashes (String.◌∷◌ c s) =
    let rest = trim_left_slashes s in if code c == b'/' then rest else String.◌∷◌ c s

module _ {F : Type 0} where
  unfoldable pub window_payload : (Time → String) → String → String → Time → Time → Json F
  window_payload format_time tenant_id service start end = object (
      fields_of (
        ("tenant_id", text tenant_id)
        ∷ ("service", text service)
        ∷ ("start", text (format_time start))
        ∷ ("end", text (format_time end))
        ∷ []))

  unfoldable pub graph_payload : (Time → String) → String → Time → Time → Json F
  graph_payload format_time tenant_id start end = object (
      fields_of (
        ("tenant_id", text tenant_id)
        ∷ ("start", text (format_time start))
        ∷ ("end", text (format_time end))
        ∷ []))

module _ {F : Type 0} ⦃d : Double F⦄ (parse_time : String → Option Time) where
  unfoldable pub point_from : Fields F → Option (MetricPoint F)
  point_from l = do
    timestamp ← read_time parse_time (find "timestamp" l)
    value ← number_in "value" l
    some (record { timestamp = timestamp; value = value })

  unfoldable pub entry_from : Fields F → Option LogEntry
  entry_from l = do
    timestamp ← read_time parse_time (find "timestamp" l)
    message ← text_in "message" l
    severity ← text_in "severity" l
    count ← read_int (find "count" l)
    some (record { timestamp = timestamp; message = message; severity = severity; count = count })

  unfoldable pub sent_span_from : Fields F → Option (SentSpan F)
  sent_span_from l = do
    trace_id ← text_in "trace_id" l
    span_id ← text_in "span_id" l
    service ← text_in "service" l
    operation ← text_in "operation" l
    duration_ms ← number_in "duration_ms" l
    status ← text_in "status" l
    timestamp ← read_time parse_time (find "timestamp" l)
    some (record {
      trace_id = trace_id;
      span_id = span_id;
      service = service;
      operation = operation;
      duration_ms = duration_ms;
      status = status;
      timestamp = timestamp;
    })

module _ {F : Type 0} ⦃d : Double F⦄ where
  unfoldable pub edge_from : Fields F → Option (ServiceGraphEdge F)
  edge_from l = do
    source ← text_in "source" l
    target ← text_in "target" l
    call_rate ← number_in "call_rate" l
    error_rate ← number_in "error_rate" l
    some (record {
      source = source;
      target = target;
      call_rate = call_rate;
      error_rate = error_rate;
    })

-- An answer whose one field is a list of structs.
unfoldable pub list_in :
    {F A : Type 0} ⦃d : Double F⦄ → String → (Fields F → Option A) → Json F → Option (List A)
list_in key read = read_object λ l. structs_in read key l

module _ {W D F : Type 0} (h : HttpCore W D F) where
  -- `resolvePath`
  unfoldable pub resolve_path : String → String → String
  resolve_path base_url path =
      let cleaned = "/" <> trim_left_slashes path in
      if str_eq base_url ""
      then ""
      else elim (h.join_path base_url cleaned) [ none ↦ base_url <> cleaned | some url ↦ url ]

  abbrev fits : {A : Type 0} → Json F → Option A → Reply A
  fits json none = failure (h.misfit json)
  fits json (some a) = reply a

  abbrev decoded : {A : Type 0} → (Json F → Option A) → Reply (Json F) → Reply A
  decoded read (failure e) = failure e
  decoded read (reply json) = fits json (read json)

  unfoldable pub json_answer :
      {A : Type 0} → (Json F → Option A) → Reply (HttpResponse D) × W → Reply A × W
  json_answer read (failure e, w) = (failure e, w)
  json_answer read (reply response, w) = (
    if response.status == 200
        then wrapped "decode response" (decoded read (h.decode response.body))
        else failure ("mirador-core returned " <> h.status_text response.status),
    w,
  )

  -- `postJSON`
  unfoldable pub post_json : {A : Type 0} → String → Json F → (Json F → Option A) → W → Reply A × W
  post_json endpoint payload read w =
      if str_eq endpoint ""
      then (failure "empty endpoint", w)
      else attempt (wrapped "marshal payload" (h.marshal payload))
          (λ body. attempt (h.new_request endpoint) λ _ w'.
            json_answer read
              (h.send (record { url = endpoint; authorization = none; body = body }) w'))
          w

module _ {W D F : Type 0} ⦃d : Double F⦄ (h : HttpCore W D F) where
  unfoldable pub http_backend : String → CorePaths → Provider W D → Backend W D F
  http_backend base_url paths cache = record {
    post_metrics = λ tenant_id service start end.
        post_json h (resolve_path h base_url paths.metrics_path)
          (window_payload h.format_time tenant_id service start end)
          (list_in "series" (point_from h.parse_time));
    post_logs = λ tenant_id service start end.
        post_json h (resolve_path h base_url paths.logs_path)
          (window_payload h.format_time tenant_id service start end)
          (list_in "entries" (entry_from h.parse_time));
    post_traces = λ tenant_id service start end.
        post_json h (resolve_path h base_url paths.traces_path)
          (window_payload h.format_time tenant_id service start end)
          (list_in "spans" (sent_span_from h.parse_time));
    post_graph = λ tenant_id start end.
        post_json h (resolve_path h base_url paths.service_graph_path)
          (graph_payload h.format_time tenant_id start end) (list_in "edges" edge_from);
    cache_get = cache.get;
    cache_set = cache.set;
    marshal = h.edges.marshal;
    unmarshal = h.edges.unmarshal;
  }

  -- `NewMiradorCoreClient`
  unfoldable pub new_mirador_core_client :
      String → CorePaths → Option (Provider W D) → Duration → MiradorCoreClient W D F
  new_mirador_core_client base_url paths cache_provider service_graph_ttl =
      let trimmed = trim_slashes base_url in
      record {
        base_url = trimmed;
        service_graph_ttl = service_graph_ttl;
        backend = http_backend trimmed paths (or_noop cache_provider);
      }
