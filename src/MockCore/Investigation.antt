-- ===== src/MockCore/Investigation.antt =====
-- internal/engine/pipeline.go against deployment/localdev/mock-core/main.go: an investigation with the mock.
use mathlib.Core.Path.{subst}
use mirador_rca.Prelude.{◌≡◌, sym, ap, ◌∙◌, inl, inr, some, arith, String, List, map}
use mirador_rca.Prelude.Text.{trim_slashes}
use mirador_rca.Prelude.Outcome.{reply, failure, ok}
use mirador_rca.Runtime.{Runtime, IsRuntime}
use mirador_rca.Double.{Double, IsDouble}
use mirador_rca.Model.{
  Time, Duration, MetricPoint, LogEntry, TraceSpan, ServiceGraphEdge, InvestigationRequest,
  CorrelationResult,
}
use mirador_rca.Core.{span_from}
use mirador_rca.Core.Http.{HttpCore}
use mirador_rca.Engine.Pipeline.{CoreClient, Pipeline, Signals, determine_service, investigate}
use mirador_rca.Engine.Pipeline.Assemble.{Clock}
use mirador_rca.Engine.Pipeline.Calls.{
  call_graph, call_metrics, call_logs, call_traces, graph_of, Fetched, fetched, Failed, no_metrics,
  no_logs, no_traces,
}
use mirador_rca.Engine.Pipeline.Advice.{ask}
use mirador_rca.Engine.Pipeline.Result.{IsResult}
use mirador_rca.Engine.Pipeline.Investigate.{stored, investigate_lem}
use mirador_rca.Entry.{core_client}
use mirador_rca.MockCore.{mock_series, mock_spans, mock_entries, mock_edges}
use mirador_rca.MockCore.Reaches.{Reaches}
use mirador_rca.MockCore.Agreement.{mock_client, agreement_lem}

clash : {A : Type 0} {a : A} {e : String} → ¬ (reply a ≡ failure e)
clash h = grind arith

-- A client that always answers, and changes nothing.
module _ {W F : Type 0} (core : CoreClient W F) (req : InvestigationRequest F) (service : String)
    (edges : List (ServiceGraphEdge F)) (points : W → List (MetricPoint F))
    (entries : W → List LogEntry) (spans : W → List (TraceSpan))
    (answers : (v : W)
      → (call_graph core req service v ≡ (reply edges, v))
        × (call_metrics core req service v ≡ (reply (points v), v))
        × (call_logs core req service v ≡ (reply (entries v), v))
        × (call_traces core req service v ≡ (reply (spans v), v))) where
  never-Failed : {w w' : W} {e : String} → ¬ Failed core req service w e w'
  never-Failed (no_metrics {w1} g m) =
      clash (sym (ap (λ y. y.0) ((answers w1).1)) ∙ ap (λ y. y.0) m)
  never-Failed (no_logs {w2} g m l) = clash (sym (ap (λ y. y.0) ((answers w2).2)) ∙ ap (λ y. y.0) l)
  never-Failed (no_traces {w3} g m l t) =
      clash (sym (ap (λ y. y.0) ((answers w3).3)) ∙ ap (λ y. y.0) t)

  Fetched-same :
      {w w' : W} {signals : Signals F}
      → Fetched core req service w signals w'
      → (signals.service_graph ≡ edges) × (w' ≡ w)
  Fetched-same {w} (fetched {w1} {w2} {w3} g m l t) = (
    ap (λ y. graph_of y.0) (sym g ∙ (answers w).0),
    ap (λ y. y.1) (sym t ∙ (answers w3).3)
        ∙ ap (λ y. y.1) (sym l ∙ (answers w2).2)
        ∙ ap (λ y. y.1) (sym m ∙ (answers w1).1)
        ∙ ap (λ y. y.1) (sym g ∙ (answers w).0),
  )

module _ {r : Runtime} (runs : IsRuntime r) {W D F : Type 0} ⦃d : Double F⦄ (laws : IsDouble F)
    (h : HttpCore W D F) (address : String) (ttl : Duration) (format_json : Time → String)
    (now : W → Time) (reaches : Reaches h (trim_slashes address) format_json now) (clock : Clock)
    (p : Pipeline W F) (req : InvestigationRequest F) where
  abbrev core : CoreClient W F
  core = core_client (mock_client h address ttl format_json now)

  abbrev points : W → List (MetricPoint F)
  points v = mock_series (now v)

  abbrev entries : W → List LogEntry
  entries v = mock_entries (now v)

  abbrev spans : W → List TraceSpan
  spans v =
      map (span_from (mock_client h address ttl format_json now) (determine_service req))
        (mock_spans (now v))

  answers :
      (v : W)
      → (call_graph core req (determine_service req) v ≡ (reply mock_edges, v))
        × (call_metrics core req (determine_service req) v ≡ (reply (points v), v))
        × (call_logs core req (determine_service req) v ≡ (reply (entries v), v))
        × (call_traces core req (determine_service req) v ≡ (reply (spans v), v))
  answers v =
      let (m, l, t, g) =
        agreement_lem h address ttl format_json now reaches req.tenant_id (determine_service req)
          req.time_range.start req.time_range.end v in
      (g, m, l, t)

  -- With a client that reaches the mock every investigation succeeds, whatever the request is and whatever
  -- becomes of the store of past incidents: it returns a result that keeps the promises of `IsResult` for
  -- the edges that the mock sends, and offers it to the store.
  pub investigate-mock :
      p.core_client ≡ some core
      → (w : W)
      → (result : CorrelationResult F) × IsResult req (determine_service req) mock_edges result
        × (investigate r clock p req w ≡ (ok result, stored p req.tenant_id result (ask p req w).1))
  investigate-mock c w =
      let service = determine_service req in
      elim (investigate_lem runs laws clock p req core c w) [
        | inl (e, w', failing, eq) ↦
            absurd (never-Failed core req service mock_edges points entries spans answers failing)
        | inr (signals, w', result, answered, is_result, eq) ↦
            let (graph, same) =
              Fetched-same core req service mock_edges points entries spans answers answered in
            (
              result,
              subst (λ edges. IsResult req service edges result) graph is_result,
              eq ∙ ap (λ v. (ok result, stored p req.tenant_id result (ask p req v).1)) same,
            )
      ]
