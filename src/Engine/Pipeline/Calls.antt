-- ===== src/Engine/Pipeline/Calls.antt =====
-- internal/engine/pipeline.go: the calls that an investigation makes, and what comes of them.
use mirador_rca.Prelude.{String, List, [], ◌≡◌, refl, ap, ◌⊎◌, inl, inr}
use mirador_rca.Prelude.Text.{◌<>◌}
use mirador_rca.Prelude.Outcome.{Reply, reply, failure, Outcome, ok, err, reply-cases}
use mirador_rca.Model.{MetricPoint, LogEntry, TraceSpan, ServiceGraphEdge, InvestigationRequest}
use mirador_rca.Engine.Pipeline.{CoreClient, Signals, fetch_graph, fetch_from, wrapped}

module _ {W A : Type 0} (context : String) (call : W → Reply A × W) (w w' : W) where
  wrapped-reply : (a : A) → call w ≡ (reply a, w') → wrapped context call w ≡ (ok a, w')
  wrapped-reply a h = ap (λ x. wrapped context (λ _. x) w) h

  wrapped-failure :
      (e : String)
      → call w ≡ (failure e, w')
      → wrapped context call w ≡ (err (context <> (": " <> e)), w')
  wrapped-failure e h = ap (λ x. wrapped context (λ _. x) w) h

-- The graph that a reply to the first call gives.
abbrev pub graph_of : {F : Type 0} → Reply (List (ServiceGraphEdge F)) → List (ServiceGraphEdge F)
graph_of (reply edges) = edges
graph_of (failure e) = []

module _ {W F : Type 0} where
  module _ (core : CoreClient W F) (req : InvestigationRequest F) (service : String) where
    -- The four calls, with the tenant, the service and the window of the request.
    abbrev pub call_graph : W → Reply (List (ServiceGraphEdge F)) × W
    call_graph = core.fetch_service_graph req.tenant_id req.time_range.start req.time_range.end

    abbrev pub call_metrics : W → Reply (List (MetricPoint F)) × W
    call_metrics =
        core.fetch_metric_series req.tenant_id service req.time_range.start req.time_range.end

    abbrev pub call_logs : W → Reply (List LogEntry) × W
    call_logs = core.fetch_log_entries req.tenant_id service req.time_range.start req.time_range.end

    abbrev pub call_traces : W → Reply (List TraceSpan) × W
    call_traces =
        core.fetch_trace_spans req.tenant_id service req.time_range.start req.time_range.end

  module _ (core : CoreClient W F) (req : InvestigationRequest F) (service : String) where
    -- Four calls in a row, of which all but the first must answer.
    pub data Fetched (w : W) : Signals F → W → Type 0 where
      fetched :
          {g : Reply (List (ServiceGraphEdge F))} {m : List (MetricPoint F)} {l : List LogEntry}
          {t : List TraceSpan} {w1 w2 w3 w4 : W}
          → call_graph core req service w ≡ (g, w1)
          → call_metrics core req service w1 ≡ (reply m, w2)
          → call_logs core req service w2 ≡ (reply l, w3)
          → call_traces core req service w3 ≡ (reply t, w4)
          → Fetched w (record { service_graph = graph_of g; metrics = m; logs = l; traces = t }) w4

    -- The first of the last three calls that fails; no call comes after it.
    pub data Failed (w : W) : String → W → Type 0 where
      no_metrics :
          {g : Reply (List (ServiceGraphEdge F))} {w1 w2 : W} {e : String}
          → call_graph core req service w ≡ (g, w1)
          → call_metrics core req service w1 ≡ (failure e, w2)
          → Failed w ("fetch metrics" <> (": " <> e)) w2
      no_logs :
          {g : Reply (List (ServiceGraphEdge F))} {m : List (MetricPoint F)} {w1 w2 w3 : W}
          {e : String}
          → call_graph core req service w ≡ (g, w1)
          → call_metrics core req service w1 ≡ (reply m, w2)
          → call_logs core req service w2 ≡ (failure e, w3)
          → Failed w ("fetch logs" <> (": " <> e)) w3
      no_traces :
          {g : Reply (List (ServiceGraphEdge F))} {m : List (MetricPoint F)} {l : List LogEntry}
          {w1 w2 w3 w4 : W} {e : String}
          → call_graph core req service w ≡ (g, w1)
          → call_metrics core req service w1 ≡ (reply m, w2)
          → call_logs core req service w2 ≡ (reply l, w3)
          → call_traces core req service w3 ≡ (failure e, w4)
          → Failed w ("fetch traces" <> (": " <> e)) w4

    fetch_graph_lem :
        (w : W)
        → fetch_graph core req w
          ≡ (ok (graph_of (call_graph core req service w).0), (call_graph core req service w).1)
    unfolding fetch_graph
    fetch_graph_lem w = go (call_graph core req service w)
      where
        go :
            (x : Reply (List (ServiceGraphEdge F)) × W)
            → elim x.0 as (λ _. Outcome (List (ServiceGraphEdge F)) × W) [
              | reply edges ↦ (ok edges, x.1)
              | failure e ↦ (ok [], x.1)
            ]
              ≡ (ok (graph_of x.0), x.1)
        go (reply edges, w') = refl
        go (failure e, w') = refl

    -- The calls for the graph, the metrics, the logs and the traces are made in this order, and end in one
    -- of two ways. Either the last three answer: the signals are what they answered, with the graph, or
    -- no edges where the call for it fails. Or one of the three fails: its error comes out behind the
    -- name of what was to be fetched, and no later call is made.
    pub fetch_from_lem :
        (w : W)
        → ((signals : Signals F) × (w' : W) × Fetched w signals w'
            × (fetch_from core req service w ≡ (ok signals, w')))
          ⊎ ((e : String) × (w' : W) × Failed w e w'
              × (fetch_from core req service w ≡ (err e, w')))
    unfolding fetch_from
    fetch_from_lem w =
        let (g, w1) = call_graph core req service w in
        let start = fetch_graph_lem w in
        elim (reply-cases (call_metrics core req service w1)) [
          | inr (e, w2, h) ↦ inr (
            _,
            w2,
            no_metrics refl h,
            rw (start, wrapped-failure "fetch metrics" (call_metrics core req service) w1 w2 e h),
          )
          | inl (m, w2, h) ↦
              let metrics =
                wrapped-reply "fetch metrics" (call_metrics core req service) w1 w2 m h in
              elim (reply-cases (call_logs core req service w2)) [
                | inr (e, w3, k) ↦ inr (
                  _,
                  w3,
                  no_logs refl h k,
                  rw (
                    start,
                    metrics,
                    wrapped-failure "fetch logs" (call_logs core req service) w2 w3 e k,
                  ),
                )
                | inl (l, w3, k) ↦
                    let logs = wrapped-reply "fetch logs" (call_logs core req service) w2 w3 l k in
                    elim (reply-cases (call_traces core req service w3)) [
                      | inr (e, w4, i) ↦ inr (
                        _,
                        w4,
                        no_traces refl h k i,
                        rw (
                          start,
                          metrics,
                          logs,
                          wrapped-failure "fetch traces" (call_traces core req service) w3 w4 e i,
                        ),
                      )
                      | inl (t, w4, i) ↦ inl (
                        _,
                        w4,
                        fetched refl h k i,
                        rw (
                          start,
                          metrics,
                          logs,
                          wrapped-reply "fetch traces" (call_traces core req service) w3 w4 t i,
                        ),
                      )
                    ]
              ]
        ]
