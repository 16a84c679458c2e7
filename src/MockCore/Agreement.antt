-- ===== src/MockCore/Agreement.antt =====
-- internal/repo/mirador_core.go against deployment/localdev/mock-core/main.go: what a client gets.
use mirador_rca.Prelude.{
  ◌≡◌, refl, ap, ◌∙◌, inl, inr, Bool, true, false, Option, none, some, String, List, map, str_eq,
  Bool-cases,
}
use mirador_rca.Prelude.Int.{pos, ltb_ℤ}
use mirador_rca.Prelude.Text.{trim_slashes}
use mirador_rca.Prelude.Outcome.{reply}
use mirador_rca.Double.{Double}
use mirador_rca.Model.{Time, Duration, ServiceGraphEdge}
use mirador_rca.Core.{
  MiradorCoreClient, span_from, fetch_metric_series, fetch_log_entries, fetch_trace_spans,
  fetch_service_graph, service_graph_cache_key, or_request, cached_edges, decode_cached,
  request_graph, graph_answer, cache_edges,
}
use mirador_rca.Core.Http.{
  HttpCore, point_from, entry_from, sent_span_from, edge_from, http_backend,
  new_mirador_core_client,
}
use mirador_rca.MockCore.{
  series_point, log_entry, trace_span, service_graph_edge, mock_series, mock_entries, mock_spans,
  mock_edges, mock_core, write_json,
}
use mirador_rca.MockCore.Reaches.{
  metrics, logs, traces, graph, default_paths, Reaches, post_json-mock, read_series, read_entries,
  read_spans, read_edges,
}

module _ {W D F : Type 0} ⦃d : Double F⦄ (h : HttpCore W D F) (address : String) (ttl : Duration)
    (format_json : Time → String) (now : W → Time) where
  -- A client with the default paths and without a cache.
  abbrev pub mock_client : MiradorCoreClient W D F
  mock_client = new_mirador_core_client h address default_paths none ttl

  module _ (reaches : Reaches h (trim_slashes address) format_json now) where
    url : str_eq mock_client.base_url "" ≡ false
    unfolding new_mirador_core_client
    url = reaches.configured

    posted_series :
        (tenant_id service : String) (start end : Time) (w : W)
        → mock_client.backend.post_metrics tenant_id service start end w
          ≡ (reply (mock_series (now w)), w)
    unfolding new_mirador_core_client http_backend mock_core write_json
    posted_series tenant_id service start end w =
        post_json-mock h (trim_slashes address) format_json now reaches metrics _ "series"
          (point_from h.parse_time) (series_point format_json) (mock_series (now w)) w refl
          (read_series h (trim_slashes address) format_json now reaches w)

    posted_entries :
        (tenant_id service : String) (start end : Time) (w : W)
        → mock_client.backend.post_logs tenant_id service start end w
          ≡ (reply (mock_entries (now w)), w)
    unfolding new_mirador_core_client http_backend mock_core write_json
    posted_entries tenant_id service start end w =
        post_json-mock h (trim_slashes address) format_json now reaches logs _ "entries"
          (entry_from h.parse_time) (log_entry format_json) (mock_entries (now w)) w refl
          (read_entries h (trim_slashes address) format_json now reaches w)

    posted_spans :
        (tenant_id service : String) (start end : Time) (w : W)
        → mock_client.backend.post_traces tenant_id service start end w
          ≡ (reply (mock_spans (now w)), w)
    unfolding new_mirador_core_client http_backend mock_core write_json
    posted_spans tenant_id service start end w =
        post_json-mock h (trim_slashes address) format_json now reaches traces _ "spans"
          (sent_span_from h.parse_time) (trace_span format_json) (mock_spans (now w)) w refl
          (read_spans h (trim_slashes address) format_json now reaches w)

    posted_edges :
        (tenant_id : String) (start end : Time) (w : W)
        → mock_client.backend.post_graph tenant_id start end w ≡ (reply mock_edges, w)
    unfolding new_mirador_core_client http_backend mock_core write_json
    posted_edges tenant_id start end w =
        post_json-mock h (trim_slashes address) format_json now reaches graph _ "edges" edge_from
          service_graph_edge mock_edges w refl
          (read_edges h (trim_slashes address) format_json now reaches)

    -- Without a cache, what is put into it leaves no trace.
    cache_edges-none :
        (key : String) (edges : List (ServiceGraphEdge F)) (w : W)
        → cache_edges mock_client key edges w ≡ w
    unfolding cache_edges new_mirador_core_client http_backend
    cache_edges-none key edges w = unchanged (h.edges.marshal edges)
      where
        unchanged : (o : Option D) → (elim o as (λ _. W) [ none ↦ w | some text ↦ w ]) ≡ w
        unchanged none = refl
        unchanged (some text) = refl

    graph_answer-edges :
        (caching : Bool) (key : String) (w : W)
        → graph_answer mock_client caching key (reply mock_edges, w) ≡ (reply mock_edges, w)
    unfolding graph_answer
    graph_answer-edges true key w =
        ap (λ v. (reply mock_edges, v)) (cache_edges-none key mock_edges w)
    graph_answer-edges false key w = refl

    request_graph-edges :
        (caching : Bool) (tenant_id : String) (start end : Time) (w : W)
        → request_graph mock_client caching tenant_id start end w ≡ (reply mock_edges, w)
    unfolding request_graph
    request_graph-edges caching tenant_id start end w =
        ap (graph_answer mock_client caching (service_graph_cache_key tenant_id start end))
          (posted_edges tenant_id start end w)
        ∙ graph_answer-edges caching (service_graph_cache_key tenant_id start end) w

    or_request-edges :
        (tenant_id : String) (start end : Time) (w : W)
        → or_request mock_client tenant_id start end
            (cached_edges mock_client (service_graph_cache_key tenant_id start end) w)
          ≡ (reply mock_edges, w)
    unfolding or_request cached_edges decode_cached new_mirador_core_client http_backend
    or_request-edges tenant_id start end w = request_graph-edges true tenant_id start end w

    fetch_service_graph-edges :
        (tenant_id : String) (start end : Time) (w : W)
        → fetch_service_graph mock_client tenant_id start end w ≡ (reply mock_edges, w)
    unfolding fetch_service_graph
    fetch_service_graph-edges tenant_id start end w =
        elim (Bool-cases (ltb_ℤ (pos 0) mock_client.service_graph_ttl)) [
          | inl caching ↦ rw (url, caching) (or_request-edges tenant_id start end w)
          | inr plain ↦ rw (url, plain) (request_graph-edges false tenant_id start end w)
        ]

    -- A client with the default paths and without a cache gets from the mock exactly the series, the log
    -- entries, the spans and the edges that the mock means to send, with the spans' milliseconds as
    -- durations, whatever the tenant, the service and the window are. This holds where requests and
    -- answers arrive as they were sent, and times and counts are read as they were written.
    pub agreement_lem :
        (tenant_id service : String) (start end : Time) (w : W)
        → (fetch_metric_series mock_client tenant_id service start end w
            ≡ (reply (mock_series (now w)), w))
          × (fetch_log_entries mock_client tenant_id service start end w
              ≡ (reply (mock_entries (now w)), w))
          × (fetch_trace_spans mock_client tenant_id service start end w
              ≡ (reply (map (span_from mock_client service) (mock_spans (now w))), w))
          × (fetch_service_graph mock_client tenant_id start end w ≡ (reply mock_edges, w))
    unfolding fetch_metric_series fetch_log_entries fetch_trace_spans
    agreement_lem tenant_id service start end w = (
      rw (url, posted_series tenant_id service start end w) refl,
      rw (url, posted_entries tenant_id service start end w) refl,
      rw (url, posted_spans tenant_id service start end w) refl,
      fetch_service_graph-edges tenant_id start end w,
    )
