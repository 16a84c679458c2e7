-- ===== src/Tests/Investigations.antt =====
-- Whole investigations, and the parts of a result.
use mathlib.Core.List.{Perm, Mem, Nodup}
use mirador_rca.Prelude.{
  ◌≡◌, ◌≢◌, ◌≤◌, ◌⊎◌, ◌↔◌, refl, true, some, none, String, List, [], ◌∷◌, ◌++◌, length, keep, All,
  arith,
}
use mirador_rca.Prelude.Int.{pos}
use mirador_rca.Prelude.Sort.{IsSorted}
use mirador_rca.Prelude.Outcome.{ok, err}
use mirador_rca.Runtime.{in_order, in_order-IsRuntime}
use mirador_rca.Double.Fixed.{Fixed, fixed_double, Fixed-IsDouble}
use mirador_rca.Model.{CorrelationResult, TimelineEvent}
use mirador_rca.Engine.Clamp.{IsUnit}
use mirador_rca.Engine.Causality.{evaluate}
use mirador_rca.Engine.Causality.Score.{evaluate-IsUnit}
use mirador_rca.Engine.Causality.Suggestion.{Suggests, evaluate_suggestion}
use mirador_rca.Engine.Rules.{recommend}
use mirador_rca.Engine.Rules.Recommend.{IsRecommended, recommend_lem}
use mirador_rca.Engine.Topology.{neighbor_services, append_topology_events, topology_time, touches}
use mirador_rca.Engine.Topology.Neighbors.{IsNeighbor, neighbor_services_lem}
use mirador_rca.Engine.Topology.Events.{IsPlaced, append_topology_events_lem}
use mirador_rca.Engine.Timeline.{event_before}
use mirador_rca.Engine.Pipeline.{
  Signals, fetch_from, fetch_recommendations, investigate, determine_service,
}
use mirador_rca.Engine.Pipeline.Assemble.{assemble}
use mirador_rca.Engine.Pipeline.Calls.{Fetched, Failed, fetch_from_lem}
use mirador_rca.Engine.Pipeline.Advice.{IsAdvice, ask, past_of, fetch_recommendations_lem}
use mirador_rca.Engine.Pipeline.Result.{IsResult, assemble-IsResult}
use mirador_rca.Engine.Pipeline.Investigate.{stored, investigate_lem}
use mirador_rca.Tests.Data.{
  core_client, broken_client, pipeline, request, clock, graph, anomalies, anchors, timeline, rules,
}

investigate_lem_example :
    ((e : String) × (w' : List String) × Failed core_client request
        (determine_service request)
        []
        e
        w'
      × (investigate in_order clock pipeline request [] ≡ (err e, w')))
    ⊎ ((signals : Signals Fixed) × (w' : List String) × (result : CorrelationResult Fixed) × Fetched
          core_client request
          (determine_service request)
          []
          signals
          w'
        × IsResult request (determine_service request) signals.service_graph result
        × (investigate in_order clock pipeline request []
            ≡ (ok result, stored pipeline "tenant" result (ask pipeline request w').1)))
investigate_lem_example =
    investigate_lem in_order-IsRuntime Fixed-IsDouble clock pipeline request core_client refl []

fetch_from_lem_example :
    ((signals : Signals Fixed) × (w' : List String) × Fetched broken_client request "checkout" []
        signals w'
      × (fetch_from broken_client request "checkout" [] ≡ (ok signals, w')))
    ⊎ ((e : String) × (w' : List String) × Failed broken_client request "checkout" [] e w'
        × (fetch_from broken_client request "checkout" [] ≡ (err e, w')))
fetch_from_lem_example = fetch_from_lem broken_client request "checkout" []

assemble-IsResult_example :
    IsResult request "checkout" graph
      (assemble in_order clock true request "checkout" graph anomalies ("Roll back" ∷ []))
assemble-IsResult_example =
    assemble-IsResult in_order-IsRuntime Fixed-IsDouble clock true request "checkout" graph
      anomalies ("Roll back" ∷ []) (λ e. ground arith)

fetch_recommendations_lem_example :
    (advice : List String) × (fetch_recommendations pipeline request anchors timeline []
      ≡ (ok advice, (ask pipeline request []).1))
    × IsAdvice pipeline request anchors timeline (past_of (ask pipeline request []).0) advice
    × (advice ≢ [])
fetch_recommendations_lem_example = fetch_recommendations_lem pipeline request anchors timeline []

evaluate-IsUnit_example : IsUnit (evaluate "checkout" timeline graph).score
evaluate-IsUnit_example = evaluate-IsUnit Fixed-IsDouble "checkout" timeline graph

evaluate_suggestion_example :
    Suggests "checkout" timeline graph (evaluate "checkout" timeline graph)
evaluate_suggestion_example = evaluate_suggestion "checkout" timeline graph

append_topology_events_lem_example :
    (added : List (TimelineEvent Fixed)) × Perm
      (append_topology_events in_order (pos 10) timeline "checkout" graph)
      (timeline ++ added)
    × (length added ≤ 2)
    × All (IsPlaced "checkout" graph (topology_time "checkout" timeline (pos 10))) added
    × (keep (touches "checkout") graph ≢ []
        → IsSorted event_before
            (append_topology_events in_order (pos 10) timeline "checkout" graph))
append_topology_events_lem_example =
    append_topology_events_lem "checkout" graph in_order-IsRuntime (pos 10) timeline

neighbor_services_lem_example :
    ((x : String)
      → Mem x (neighbor_services in_order graph "checkout") ↔ IsNeighbor "checkout" graph x)
    × Nodup (neighbor_services in_order graph "checkout")
neighbor_services_lem_example = neighbor_services_lem "checkout" in_order-IsRuntime graph

recommend_lem_example :
    ((x : String)
      → Mem x (recommend (some (record { rules = rules })) request anchors timeline)
        ↔ IsRecommended request anchors timeline rules x)
    × Nodup (recommend (some (record { rules = rules })) request anchors timeline)
    × (recommend none request anchors timeline ≡ [])
recommend_lem_example = recommend_lem request anchors timeline rules
