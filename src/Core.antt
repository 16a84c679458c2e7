-- ===== src/Core.antt =====
-- internal/repo/mirador_core.go: the client of mirador-core. A request that is sent and decoded, the
-- cache and the coding of edges in it are parameters; a client that is nil does not occur.
pub mod ReadThrough
pub mod Http
pub mod Synthetic
use mirador_rca.Prelude.{
  ℕ, Bool, true, false, not, ◌&&◌, ◌||◌, Option, none, some, String, List, [], ◌∷◌, map, str_eq,
  ◌==◌, leb, if◌then◌else◌,
}
use mirador_rca.Prelude.Int.{ℤ, pos, div_ℤ, ltb_ℤ, ◌-ℤ◌, ◌*ℤ◌}
use mirador_rca.Prelude.Text.{◌<>◌, codes, format_int}
use mirador_rca.Prelude.Outcome.{Reply, reply, failure}
use mirador_rca.Double.{Double}
use mirador_rca.Model.{Time, Duration, second, MetricPoint, LogEntry, TraceSpan, ServiceGraphEdge}
use mirador_rca.Engine.Pipeline.Assemble.{unix_epoch}

-- A span as it is sent, with its duration in milliseconds.
pub record SentSpan (F : Type 0) : Type 0 where
  pub trace_id : String
  pub span_id : String
  pub service : String
  pub operation : String
  pub duration_ms : F
  pub status : String
  pub timestamp : Time

module _ (W D F : Type 0) where
  -- `postJSON` to each endpoint, with the payload's fields; the cache's `Get` and `Set` on bytes `D`, and
  -- `json.Marshal` and `json.Unmarshal` for edges.
  pub record Backend : Type 0 where
    pub post_metrics : String → String → Time → Time → W → Reply (List (MetricPoint F)) × W
    pub post_logs : String → String → Time → Time → W → Reply (List LogEntry) × W
    pub post_traces : String → String → Time → Time → W → Reply (List (SentSpan F)) × W
    pub post_graph : String → Time → Time → W → Reply (List (ServiceGraphEdge F)) × W
    pub cache_get : String → W → Reply D × W
    pub cache_set : String → D → Duration → W → Reply (Unit {0}) × W
    pub marshal : List (ServiceGraphEdge F) → Option D
    pub unmarshal : D → Option (List (ServiceGraphEdge F))

  pub record MiradorCoreClient : Type 0 where
    pub base_url : String
    pub service_graph_ttl : Duration
    pub backend : Backend

-- `strings.TrimSpace(v) != ""`, for the spaces of ASCII.
unfoldable pub has_text : List ℕ → Bool
has_text [] = false
has_text (c ∷ l) = not (c == 32 || leb 9 c && leb c 13) || has_text l

-- `firstNonEmpty`, which tells blank texts from others by their trimmed form.
unfoldable pub first_with_text : List String → String
first_with_text [] = ""
first_with_text (v ∷ vs) = if has_text (codes v) then v else first_with_text vs

unfoldable pub unix : Time → ℤ
unix t = div_ℤ (t -ℤ unix_epoch *ℤ second) second

unfoldable pub service_graph_cache_key : String → Time → Time → String
service_graph_cache_key tenant_id start end =
    "servicegraph:"
    <> (tenant_id <> (":" <> (format_int (unix start) <> (":" <> format_int (unix end)))))

-- An answer that must not be empty.
abbrev pub some_of : {A : Type 0} → String → List A → Reply (List A)
some_of message [] = failure message
some_of message (x ∷ xs) = reply (x ∷ xs)

-- A request that fails does so behind the given text.
abbrev pub answer : {A B W : Type 0} → String → (A → Reply B) → Reply A × W → Reply B × W
answer context f (reply a, w) = (f a, w)
answer context f (failure e, w) = (failure (context <> (": " <> e)), w)

module _ {W D F : Type 0} (c : MiradorCoreClient W D F) where
  -- `FetchMetricSeries`
  unfoldable pub fetch_metric_series :
      String → String → Time → Time → W → Reply (List (MetricPoint F)) × W
  fetch_metric_series tenant_id service start end w =
      if str_eq c.base_url ""
      then (failure "mirador-core base URL not configured", w)
      else answer "mirador-core metrics request failed"
          (some_of "mirador-core metrics returned no samples")
          (c.backend.post_metrics tenant_id service start end w)

  -- `FetchLogEntries`
  unfoldable pub fetch_log_entries : String → String → Time → Time → W → Reply (List LogEntry) × W
  fetch_log_entries tenant_id service start end w =
      if str_eq c.base_url ""
      then (failure "mirador-core base URL not configured", w)
      else answer "mirador-core logs request failed"
          (some_of "mirador-core logs returned no entries")
          (c.backend.post_logs tenant_id service start end w)

  unfoldable pub decode_cached : Reply D × W → Option (List (ServiceGraphEdge F)) × W
  decode_cached (failure e, w) = (none, w)
  decode_cached (reply text, w) = (c.backend.unmarshal text, w)

  -- What the cache has under the key, if it can be read and decoded.
  unfoldable pub cached_edges : String → W → Option (List (ServiceGraphEdge F)) × W
  cached_edges key w = decode_cached (c.backend.cache_get key w)

  -- What is put into the cache; a failure is ignored.
  unfoldable pub cache_edges : String → List (ServiceGraphEdge F) → W → W
  cache_edges key edges w = elim (c.backend.marshal edges) [
    | none ↦ w
    | some text ↦ (c.backend.cache_set key text c.service_graph_ttl w).1
  ]

  -- The edges of an answer are cached before they are found to be missing.
  unfoldable pub graph_answer :
      Bool → String → Reply (List (ServiceGraphEdge F)) × W → Reply (List (ServiceGraphEdge F)) × W
  graph_answer caching key (failure e, w) =
      (failure ("mirador-core service graph request failed: " <> e), w)
  graph_answer caching key (reply found, w) = (
    some_of "mirador-core service graph returned no edges" found,
    if caching then cache_edges key found w else w,
  )

  unfoldable pub request_graph :
      Bool → String → Time → Time → W → Reply (List (ServiceGraphEdge F)) × W
  request_graph caching tenant_id start end w =
      graph_answer caching (service_graph_cache_key tenant_id start end)
        (c.backend.post_graph tenant_id start end w)

  unfoldable pub or_request :
      String
      → Time
      → Time
      → Option (List (ServiceGraphEdge F)) × W
      → Reply (List (ServiceGraphEdge F)) × W
  or_request tenant_id start end (some edges, w) = (reply edges, w)
  or_request tenant_id start end (none, w) = request_graph true tenant_id start end w

  -- `FetchServiceGraph`
  unfoldable pub fetch_service_graph :
      String → Time → Time → W → Reply (List (ServiceGraphEdge F)) × W
  fetch_service_graph tenant_id start end w =
      let key = service_graph_cache_key tenant_id start end in
      if str_eq c.base_url ""
      then (failure "mirador-core base URL not configured", w)
      else if ltb_ℤ (pos 0) c.service_graph_ttl
      then or_request tenant_id start end (cached_edges key w)
      else request_graph false tenant_id start end w

module _ {W D F : Type 0} ⦃d : Double F⦄ (c : MiradorCoreClient W D F) where
  -- A span without a service is given the one that was asked for.
  unfoldable pub span_from : String → SentSpan F → TraceSpan
  span_from service span = record {
    trace_id = span.trace_id;
    span_id = span.span_id;
    service = first_with_text (span.service ∷ service ∷ []);
    operation = span.operation;
    duration = d.trunc (d.mul span.duration_ms (d.of_int (pos 1_000_000)));
    status = span.status;
    timestamp = span.timestamp;
  }

  -- `FetchTraceSpans`
  unfoldable pub fetch_trace_spans : String → String → Time → Time → W → Reply (List TraceSpan) × W
  fetch_trace_spans tenant_id service start end w =
      if str_eq c.base_url ""
      then (failure "mirador-core base URL not configured", w)
      else answer "mirador-core traces request failed"
          (λ spans. some_of "mirador-core traces returned no spans" (map (span_from service) spans))
          (c.backend.post_traces tenant_id service start end w)
