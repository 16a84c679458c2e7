-- ===== src/MockCore/Reaches.antt =====
-- internal/repo/mirador_core.go against deployment/localdev/mock-core/main.go: a request that reaches the mock.
use mirador_rca.Prelude.{
  ℕ, ◌≤◌, ◌≡◌, refl, false, Option, none, some, String, List, All-imp, All-of_forall, str_eq, arith,
}
use mirador_rca.Prelude.Int.{pos, ◌-ℤ◌, ◌*ℤ◌}
use mirador_rca.Prelude.Text.{equal_fold, to_lower, codes_eq}
use mirador_rca.Prelude.Outcome.{reply}
use mirador_rca.Double.{Double}
use mirador_rca.Json.{Json, Fields, find}
use mirador_rca.Model.{Time}
use mirador_rca.Core.Http.{
  HttpCore, CorePaths, point_from, entry_from, sent_span_from, edge_from, list_in, resolve_path,
  post_json, json_answer,
}
use mirador_rca.MockCore.{
  MockBody, MockResponse, json, series_point, log_entry, trace_span, service_graph_edge,
  mock_series, mock_entries, mock_spans, mock_edges, mock_core, under,
}
use mirador_rca.MockCore.Client.{
  IsRead, IsWhole, point_from-series_point, entry_from-log_entry, sent_span_from-trace_span,
  edge_from-service_graph_edge, list_in-under,
}

pub data Signal : Type 0 where
  metrics logs traces graph : Signal

-- The default paths of the client.
abbrev pub path_of : Signal → String
path_of metrics = "/api/v1/rca/metrics"
path_of logs = "/api/v1/rca/logs"
path_of traces = "/api/v1/rca/traces"
path_of graph = "/api/v1/rca/service-graph"

abbrev pub default_paths : CorePaths
default_paths = record {
  metrics_path = path_of metrics;
  logs_path = path_of logs;
  traces_path = path_of traces;
  service_graph_path = path_of graph;
}

module _ {W D F : Type 0} ⦃d : Double F⦄ (h : HttpCore W D F) (base_url : String)
    (format_json : Time → String) (now : W → Time) where
  abbrev pub url_of : Signal → String
  url_of s = resolve_path h base_url (path_of s)

  abbrev pub response_to : Signal → W → MockResponse F
  response_to s w = mock_core format_json (now w) "POST" (path_of s)

  -- What is sent to the paths behind the base reaches the mock, whose bodies are decoded as they were
  -- encoded; the times of the last five minutes and counts up to a hundred are read back.
  pub record Reaches : Type 0 where
    pub configured : str_eq base_url "" ≡ false
    pub marshalled : (payload : Json F) → (bytes : D) × (h.marshal payload ≡ reply bytes)
    pub addressed : (s : Signal) → str_eq (url_of s) "" ≡ false
    pub requested : (s : Signal) → h.new_request (url_of s) ≡ reply tt
    pub encode : MockBody F → D
    pub sent :
        (s : Signal) (bytes : D) (w : W)
        → h.send (record { url = url_of s; authorization = none; body = bytes }) w ≡ (
          reply
              (record { status = (response_to s w).status; body = encode (response_to s w).body }),
          w,
        )
    pub decoded : (j : Json F) → h.decode (encode (json j)) ≡ reply j
    pub recent :
        (w : W) (k : ℕ) → k ≤ 300_000_000_000 → IsRead format_json h.parse_time (now w -ℤ pos k)
    pub whole : (n : ℕ) → n ≤ 100 → IsWhole F (pos n)

  module _ (reaches : Reaches) where
    open reaches use {
      configured, marshalled, addressed, requested, encode, sent, decoded, recent, whole,
    }

    pub post_json-mock :
        {A : Type 0} (s : Signal) (payload : Json F) (key : String) (read : Fields F → Option A)
        (write : A → Json F) (l : List A) (w : W)
        → response_to s w ≡ record { status = 200; body = json (under key write l) }
        → list_in key read (under key write l) ≡ some l
        → post_json h (url_of s) payload (list_in key read) w ≡ (reply l, w)
    unfolding post_json json_answer
    post_json-mock s payload key read write l w answer listed =
        let (bytes, m) = marshalled payload in
        rw
          (addressed s, m, requested s, sent s bytes w, answer, decoded (under key write l), listed)
          refl

    pub read_series :
        (w : W)
        → list_in "series"
            (point_from h.parse_time)
            (under "series" (series_point format_json) (mock_series {F = F} (now w)))
          ≡ some (mock_series (now w))
    unfolding find equal_fold to_lower codes_eq ◌*ℤ◌
    read_series w =
        list_in-under F format_json h.parse_time "series" (point_from h.parse_time)
          (series_point format_json) (mock_series (now w)) refl
          (All-imp _ (point_from-series_point F format_json h.parse_time) (mock_series (now w)) (
            recent w 240_000_000_000 (omega arith),
            (recent w 180_000_000_000 (omega arith), (recent w 120_000_000_000 (omega arith), tt)),
          ))

    pub read_entries :
        (w : W)
        → list_in "entries"
            (entry_from h.parse_time)
            (under "entries" (log_entry {F = F} format_json) (mock_entries (now w)))
          ≡ some (mock_entries (now w))
    unfolding find equal_fold to_lower codes_eq ◌*ℤ◌
    read_entries w =
        list_in-under F format_json h.parse_time "entries" (entry_from h.parse_time)
          (log_entry format_json) (mock_entries (now w)) refl
          (All-imp _ (entry_from-log_entry F format_json h.parse_time) (mock_entries (now w)) (
            (recent w 180_000_000_000 (omega arith), whole 42 (omega arith)),
            ((recent w 120_000_000_000 (omega arith), whole 7 (omega arith)), tt),
          ))

    pub read_spans :
        (w : W)
        → list_in "spans"
            (sent_span_from h.parse_time)
            (under "spans" (trace_span format_json) (mock_spans {F = F} (now w)))
          ≡ some (mock_spans (now w))
    unfolding find equal_fold to_lower codes_eq ◌*ℤ◌
    read_spans w =
        list_in-under F format_json h.parse_time "spans" (sent_span_from h.parse_time)
          (trace_span format_json) (mock_spans (now w)) refl
          (All-imp _ (sent_span_from-trace_span F format_json h.parse_time) (mock_spans (now w))
            (recent w 90_000_000_000 (omega arith), (recent w 80_000_000_000 (omega arith), tt)))

    pub read_edges :
        list_in "edges" edge_from (under "edges" service_graph_edge (mock_edges {F = F}))
        ≡ some mock_edges
    unfolding find equal_fold to_lower codes_eq
    read_edges =
        list_in-under F format_json h.parse_time "edges" edge_from service_graph_edge mock_edges
          refl
          (All-of_forall _ (edge_from-service_graph_edge F format_json h.parse_time) mock_edges)
