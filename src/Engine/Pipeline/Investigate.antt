-- ===== src/Engine/Pipeline/Investigate.antt =====
-- internal/engine/pipeline.go, `Investigate` and `Analyze`: how an investigation can end.
use mirador_rca.Prelude.{Option, none, some, String, ◌≡◌, refl, ap, ◌∙◌, ◌⊎◌, inl, inr}
use mirador_rca.Prelude.Outcome.{Outcome, ok, err, Act, raise, ◌>>=◌, bind-ok, bind-err}
use mirador_rca.Runtime.{Runtime, IsRuntime}
use mirador_rca.Double.{Double, IsDouble}
use mirador_rca.Model.{InvestigationRequest, CorrelationResult}
use mirador_rca.Extractors.Metrics
use mirador_rca.Extractors.Logs.Reports
use mirador_rca.Extractors.Traces
use mirador_rca.Engine.Anchors.{build_anchors}
use mirador_rca.Engine.Timeline.{build_timeline}
use mirador_rca.Engine.Pipeline.{
  CoreClient, WeaviateClient, Pipeline, Signals, fetch_from, determine_service, fetch_signals,
  persist_result, detect_all, analyze, analyze_and_persist, investigate,
}
use mirador_rca.Engine.Pipeline.Assemble.{Clock, Anomalies, assemble}
use mirador_rca.Engine.Pipeline.Calls.{Fetched, Failed, fetch_from_lem}
use mirador_rca.Engine.Pipeline.Advice.{ask, fetch_recommendations_lem}
use mirador_rca.Engine.Pipeline.Result.{IsResult, assemble-IsResult}

-- The state after the result is offered to the store of past incidents, if there is one.
abbrev pub stored : {W F : Type 0} → Pipeline W F → String → CorrelationResult F → W → W
stored p tenant_id result w = elim p.weaviate [
  | none ↦ w
  | some client ↦ (client.store_correlation tenant_id result w).1
]

module _ {r : Runtime} (runs : IsRuntime r) {F : Type 0} ⦃d : Double F⦄ (laws : IsDouble F) where
  detect_all_total :
      (threshold traces_threshold : F) (signals : Signals F)
      → (found : Anomalies F) × (detect_all r threshold traces_threshold signals ≡ some found)
  unfolding detect_all
  detect_all_total threshold traces_threshold signals =
      let (logs, e, high, sub) = Reports.detect_total runs laws signals.logs in
      (
        record {
          metrics = Metrics.detect signals.metrics threshold;
          logs = logs;
          traces = Traces.detect traces_threshold signals.traces;
        },
        rw (detect_all, e),
      )

  module _ {W : Type 0} (clock : Clock) (p : Pipeline W F) (req : InvestigationRequest F) where
    analyze_lem :
        (service : String) (signals : Signals F) (w : W)
        → (result : CorrelationResult F) × (analyze r clock p req service signals w
            ≡ (ok result, (ask p req w).1))
          × IsResult req service signals.service_graph result
    unfolding analyze
    analyze_lem service signals w =
        let (found, e) = detect_all_total req.anomaly_threshold p.traces_threshold signals in
        let (advice, a, is_advice, nonempty) =
          fetch_recommendations_lem p req
            (build_anchors service found.metrics found.logs found.traces)
            (build_timeline r found.metrics found.logs found.traces) w in
        (
          assemble r clock p.causality_engine req service signals.service_graph found advice,
          rw (e, a),
          assemble-IsResult runs laws clock p.causality_engine req service signals.service_graph
              found advice nonempty,
        )

    persist_result_lem :
        (result : CorrelationResult F) (w : W)
        → persist_result p req.tenant_id result w ≡ (ok tt, stored p req.tenant_id result w)
    unfolding persist_result
    persist_result_lem result w = go p.weaviate
      where
        go :
            (c : Option (WeaviateClient W F))
            → elim c as (λ _. Outcome (Unit {0}) × W) [
              | none ↦ (ok tt, w)
              | some client ↦ (ok tt, (client.store_correlation req.tenant_id result w).1)
            ]
              ≡ (
                ok tt,
                elim c as (λ _. W) [
                  | none ↦ w
                  | some client ↦ (client.store_correlation req.tenant_id result w).1
                ],
              )
        go none = refl
        go (some client) = refl

    analyze_and_persist_lem :
        (service : String) (signals : Signals F) (w : W)
        → (result : CorrelationResult F) × (analyze_and_persist r clock p req service signals w
            ≡ (ok result, stored p req.tenant_id result (ask p req w).1))
          × IsResult req service signals.service_graph result
    unfolding analyze_and_persist
    analyze_and_persist_lem service signals w =
        let (result, e, is_result) = analyze_lem service signals w in
        (result, rw (analyze_and_persist, e, persist_result_lem result (ask p req w).1), is_result)

    pub investigate-none :
        p.core_client ≡ none
        → (w : W) → investigate r clock p req w ≡ (err "core client not configured", w)
    unfolding investigate
    investigate-none c w =
        ap
          (λ x.
            elim x as (λ _. Act W (CorrelationResult F)) [
              | none ↦ raise "core client not configured"
              | some client ↦
                  fetch_signals p req (determine_service req)
                  >>= analyze_and_persist r clock p req (determine_service req)
            ]
              w)
          c

    module _ (core : CoreClient W F) (c : p.core_client ≡ some core) where
      fetch_signals-some :
          (service : String) (w : W) → fetch_signals p req service w ≡ fetch_from core req service w
      unfolding fetch_signals
      fetch_signals-some service w =
          ap
            (λ x.
              elim x as (λ _. Act W (Signals F)) [
                | none ↦ raise "core client not configured"
                | some client ↦ fetch_from client req service
              ]
                w)
            c

      investigate-some :
          (w : W)
          → investigate r clock p req w
            ≡ (fetch_signals p req (determine_service req)
                  >>= analyze_and_persist r clock p req (determine_service req))
                w
      unfolding investigate
      investigate-some w =
          ap
            (λ x.
              elim x as (λ _. Act W (CorrelationResult F)) [
                | none ↦ raise "core client not configured"
                | some client ↦
                    fetch_signals p req (determine_service req)
                    >>= analyze_and_persist r clock p req (determine_service req)
              ]
                w)
            c

    -- With a client, an investigation ends in one of two ways, and in particular never panics. Either
    -- the metrics, the logs or the traces cannot be fetched: it returns the first such error under the
    -- name of what it was fetching, makes no call after that one, and stores nothing. Or all are
    -- fetched: it returns a result that keeps the promises of `IsResult` with at least one
    -- recommendation, whatever becomes of the calls for the graph and to the store of past incidents,
    -- and offers that same result to the store in its last call.
    pub investigate_lem :
        (core : CoreClient W F)
        → p.core_client ≡ some core
        → (w : W)
        → let service = determine_service req in
          ((e : String) × (w' : W) × Failed core req service w e w'
            × (investigate r clock p req w ≡ (err e, w')))
          ⊎ ((signals : Signals F) × (w' : W) × (result : CorrelationResult F) × Fetched core req
                service w signals w'
              × IsResult req service signals.service_graph result
              × (investigate r clock p req w
                  ≡ (ok result, stored p req.tenant_id result (ask p req w').1)))
    investigate_lem core c w =
        let service = determine_service req in
        let rest = analyze_and_persist r clock p req service in
        elim (fetch_from_lem core req service w) [
          | inr (e, w', failing, eq) ↦ inl (
            e,
            w',
            failing,
            investigate-some core c w
                ∙ bind-err (fetch_signals p req service) rest w w' e
                    (fetch_signals-some core c service w ∙ eq),
          )
          | inl (signals, w', answered, eq) ↦
              let (result, done, is_result) = analyze_and_persist_lem service signals w' in
              inr (
                signals,
                w',
                result,
                answered,
                is_result,
                investigate-some core c w
                    ∙ bind-ok (fetch_signals p req service) rest w w' signals
                        (fetch_signals-some core c service w ∙ eq)
                    ∙ done,
              )
        ]
