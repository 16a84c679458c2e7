-- ===== src/Engine/Pipeline/Result.antt =====
-- internal/engine/pipeline.go, `Analyze`: what every result has, whatever the anomalies are.
use mathlib.Core.List.{Mem, Nodup, mem-cons_self, mem-cons_of_mem}
use mirador_rca.Prelude.{
  Bool, true, false, List, [], ◌∷◌, ◌++◌, String, ◌≡◌, ◌≢◌, refl, inl, inr, arith, length,
  length-append, length-perm, Bool-cases, ◌≤◌, ◌+◌, not, ◌&&◌, ◌||◌, str_eq, str_eq_iff,
}
use mirador_rca.Runtime.{Runtime, IsRuntime}
use mirador_rca.Double.{Double, IsDouble}
use mirador_rca.Model.{ServiceGraphEdge, InvestigationRequest, CorrelationResult, TimelineEvent}
use mirador_rca.Engine.Clamp.{IsUnit}
use mirador_rca.Engine.Strings.{unique_strings, in_set}
use mirador_rca.Engine.Strings.Unique.{unique_strings_lem, in_set_iff, in_set-append}
use mirador_rca.Engine.Causality.Score.{evaluate-IsUnit}
use mirador_rca.Engine.Confidence.Range.{compute_confidence-IsUnit, calibrate_confidence-IsUnit}
use mirador_rca.Engine.Anchors.Ranking.{build_anchors-few}
use mirador_rca.Engine.Timeline.{build_timeline}
use mirador_rca.Engine.Timeline.Order.{build_timeline-IsTop}
use mirador_rca.Engine.Topology.{neighbor_services}
use mirador_rca.Engine.Topology.Neighbors.{IsNeighbor, neighbor_services_lem}
use mirador_rca.Engine.Topology.Events.{append_topology_events_lem}
use mirador_rca.Engine.Pipeline.Assemble.{
  Clock, Anomalies, assemble, affected_of, with_suggestion, suggested_event, causality_of,
  suggests_other,
}

-- What a result promises its reader, in terms of the request, the service and the graph.
module _ {F : Type 0} ⦃d : Double F⦄ (req : InvestigationRequest F) (service : String)
    (graph : List (ServiceGraphEdge F)) where
  pub record IsResult (result : CorrelationResult F) : Type 0 where
    pub same_incident : result.incident_id ≡ req.incident_id
    pub confidence_unit : IsUnit result.confidence
    pub few_anchors : length result.red_anchors ≤ 5
    pub few_events : length result.timeline ≤ 13
    pub services_once : Nodup result.affected_services
    pub services_named : ¬ Mem "" result.affected_services
    pub has_service : service ≢ "" → Mem service result.affected_services
    pub has_requested :
        (x : String) → Mem x req.affected_services → x ≢ "" → Mem x result.affected_services
    pub has_neighbors :
        (x : String) → IsNeighbor service graph x → x ≢ "" → Mem x result.affected_services
    pub advised : result.recommendations ≢ []

in_set-unique_strings :
    (x : String) (l : List String) → in_set x (unique_strings l) ≡ (in_set x l && not (str_eq x ""))
in_set-unique_strings x l =
    let (members, once, again) = unique_strings_lem l in
    let to = λ (h : in_set x (unique_strings l) ≡ true). (members x).0 ((in_set_iff x _).0 h) in
    elim (Bool-cases (in_set x (unique_strings l))) [
      | inl inside ↦
          let (m, n) = to inside in
          ground
            (arith, (in_set_iff x l).1 m, λ (h : str_eq x "" ≡ true). n ((str_eq_iff x "").0 h))
      | inr outside ↦ elim (Bool-cases (in_set x l)) [
        | inr missing ↦ ground arith
        | inl there ↦ elim (Bool-cases (str_eq x "")) [
          | inl empty ↦ ground arith
          | inr named ↦
              let inside : in_set x (unique_strings l) ≡ true = (in_set_iff x _).1 (
                (members x).1
                  ((in_set_iff x l).0 there, λ h. ground (arith, (str_eq_iff x "").1 h))) in
              ground arith
        ]
      ]
    ]

module _ (r : Runtime) {F : Type 0} (suggested service : String) (requested : List String)
    (graph : List (ServiceGraphEdge F)) where
  abbrev affected : List String
  affected = affected_of r suggested service requested graph

  in_set-affected_of :
      (x : String)
      → in_set x affected ≡ (
          (in_set x (service ∷ requested)
            || in_set x (neighbor_services r graph service)
            || (suggests_other suggested service && str_eq x suggested))
          && not (str_eq x ""))
  unfolding affected_of in_set
  in_set-affected_of x =
      let direct = unique_strings (service ∷ requested) in
      let near = direct ++ neighbor_services r graph service in
      elim (Bool-cases (suggests_other suggested service)) [
        | inl other ↦
            rw
              (
                other,
                in_set-unique_strings x (unique_strings near ++ suggested ∷ []),
                in_set-append x (unique_strings near) (suggested ∷ []),
                in_set-unique_strings x near,
                in_set-append x direct (neighbor_services r graph service),
                in_set-unique_strings x (service ∷ requested),
              )
              (ground arith)
        | inr same ↦
            rw
              (
                same,
                in_set-unique_strings x near,
                in_set-append x direct (neighbor_services r graph service),
                in_set-unique_strings x (service ∷ requested),
              )
              (ground arith)
      ]

  affected_of-kept :
      (x : String)
      → x ≢ ""
      → (in_set x (service ∷ requested) || in_set x (neighbor_services r graph service)) ≡ true
      → Mem x affected
  affected_of-kept x n h = (in_set_iff x affected).0 (elim (Bool-cases (str_eq x "")) [
    | inl empty ↦ absurd (n ((str_eq_iff x "").0 empty))
    | inr named ↦ ground (arith, in_set-affected_of x)
  ])

  affected_of-Nodup : Nodup affected
  unfolding affected_of
  affected_of-Nodup = elim (Bool-cases (suggests_other suggested service)) [
    | inl other ↦ rw other (unique_strings_lem _).1
    | inr same ↦ rw same (unique_strings_lem _).1
  ]

module _ {F : Type 0} ⦃d : Double F⦄ where
  causality_of-IsUnit :
      IsDouble F
      → (engine : Bool) (service : String) (timeline : List (TimelineEvent F))
        (graph : List (ServiceGraphEdge F))
      → IsUnit (causality_of engine service timeline graph).score
  unfolding causality_of
  causality_of-IsUnit laws true service timeline graph = evaluate-IsUnit laws service timeline graph
  causality_of-IsUnit laws false service timeline graph = (laws.lit_nonneg 0 0, laws.zero-le-one)

  with_suggestion-length :
      (suggested service : String) (timeline : List (TimelineEvent F))
      → length (with_suggestion suggested service timeline) ≤ length timeline + 1
  unfolding with_suggestion
  with_suggestion-length suggested service timeline =
      elim (Bool-cases (suggests_other suggested service)) [
        | inl other ↦ rw other (
            omega (arith, length-append timeline (suggested_event suggested service timeline ∷ [])))
        | inr same ↦ rw same (omega arith)
      ]

module _ {r : Runtime} (runs : IsRuntime r) {F : Type 0} ⦃d : Double F⦄ (laws : IsDouble F) where
  -- Whatever the anomalies are, the result keeps the incident, has a confidence in [0,1], at most five
  -- anchors and thirteen events, and names each affected service once and none without a name: the
  -- service, those of the request, and its neighbours in the graph.
  pub assemble-IsResult :
      (clock : Clock) (engine : Bool) (req : InvestigationRequest F) (service : String)
      (graph : List (ServiceGraphEdge F)) (found : Anomalies F) (advice : List String)
      → advice ≢ []
      → IsResult req service graph (assemble r clock engine req service graph found advice)
  unfolding assemble
  assemble-IsResult clock engine req service graph found advice some =
      let timeline = build_timeline r found.metrics found.logs found.traces in
      let suggested = (causality_of engine service timeline graph).suggested_service in
      let (rest, top) = build_timeline-IsTop runs found.metrics found.logs found.traces in
      let (added, perm, few, placed, ordered) =
        append_topology_events_lem service graph runs clock.at_topology
          (with_suggestion suggested service timeline) in
      let kept = affected_of-kept r suggested service req.affected_services graph in
      let inside = in_set-affected_of r suggested service req.affected_services graph in
      record {
        same_incident = refl;
        confidence_unit =
            calibrate_confidence-IsUnit laws _ _
              (compute_confidence-IsUnit laws found.metrics found.logs found.traces)
              (causality_of-IsUnit laws engine service timeline graph);
        few_anchors = build_anchors-few service found.metrics found.logs found.traces;
        few_events = omega (
          arith,
          top.few,
          length-perm perm,
          length-append (with_suggestion suggested service timeline) added,
          with_suggestion-length suggested service timeline,
        );
        services_once = affected_of-Nodup r suggested service req.affected_services graph;
        services_named =
            λ m. ground (arith, (in_set_iff "" _).1 m, inside "", (str_eq_iff "" "").1 refl);
        has_service = λ n. kept service n (
            ground (arith, (in_set_iff service (service ∷ req.affected_services)).1 mem-cons_self));
        has_requested = λ x m n. kept x n (
            ground (
              arith,
              (in_set_iff x (service ∷ req.affected_services)).1 (mem-cons_of_mem service m),
            ));
        has_neighbors = λ x m n. kept x n (
            ground
              (arith, (in_set_iff x _).1 (((neighbor_services_lem service runs graph).0 x).1 m)));
        advised = some;
      }
