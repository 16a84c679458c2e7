-- ===== src/Engine/Topology.antt =====
-- internal/engine/pipeline.go: `neighborServices` and `appendTopologyEvents`.
pub mod Neighbors
pub mod Events
use mirador_rca.Prelude.{
  ℕ, Bool, true, false, ◌||◌, String, List, [], ◌∷◌, ◌++◌, keep, take, map, str_eq, if◌then◌else◌,
}
use mirador_rca.Prelude.Int.{ℤ, ◌+ℤ◌, ◌-ℤ◌}
use mirador_rca.Prelude.Text.{◌<>◌}
use mirador_rca.Runtime.{Runtime}
use mirador_rca.Double.{Double}
use mirador_rca.Model.{
  Time, is_zero, half_second, TimelineEvent, ServiceGraphEdge, severity_low, data_type_traces,
}
use mirador_rca.Engine.Strings.{in_set}
use mirador_rca.Engine.Causality.{root_event_time}
use mirador_rca.Engine.Timeline.{event_before}

-- `set[x] = struct{}{}`
pub put : String → List String → List String
put x set = if in_set x set then set else set ++ x ∷ []

module _ {F : Type 0} where
  -- One round of the loop of `neighborServices`.
  pub put_neighbors : String → ServiceGraphEdge F → List String → List String
  put_neighbors service edge set =
      let forward = if str_eq edge.source service then put edge.target set else set in
      if str_eq edge.target service then put edge.source forward else forward

  pub neighbor_set : String → List (ServiceGraphEdge F) → List String → List String
  neighbor_set service [] set = set
  neighbor_set service (e ∷ es) set = neighbor_set service es (put_neighbors service e set)

  -- `edge.Source == service || edge.Target == service`
  pub touches : String → ServiceGraphEdge F → Bool
  touches service edge = str_eq edge.source service || str_eq edge.target service

module _ (r : Runtime) {F : Type 0} where
  pub neighbor_services : List (ServiceGraphEdge F) → String → List String
  neighbor_services edges service = r.map_order (neighbor_set service edges [])

module _ {F : Type 0} ⦃d : Double F⦄ where
  open d use {lit, lt, format_2}

  abbrev pub calls_more : ServiceGraphEdge F → ServiceGraphEdge F → Bool
  calls_more a b = lt b.call_rate a.call_rate

  -- The error rate behind the text of an event.
  unfoldable pub rate_suffix : ServiceGraphEdge F → String
  rate_suffix edge =
      if lt (lit 0 0) edge.error_rate
      then " (error rate " <> (format_2 edge.error_rate <> "%)")
      else ""

  -- The event of one edge: half a second before the root's time for a caller, and after it for a callee.
  pub topology_event : String → Time → ServiceGraphEdge F → TimelineEvent F
  topology_event service root_time edge =
      if str_eq edge.target service
      then record {
        time = root_time -ℤ half_second;
        event =
            "Service graph: upstream "
            <> (edge.source <> (" -> " <> (edge.target <> rate_suffix edge)));
        service = edge.source;
        severity = severity_low;
        anomaly_score = lit 0 0;
        data_source = data_type_traces;
      }
      else record {
        time = root_time +ℤ half_second;
        event = "Service graph: " <> (edge.source <> (" -> " <> (edge.target <> rate_suffix edge)));
        service = edge.target;
        severity = severity_low;
        anomaly_score = lit 0 0;
        data_source = data_type_traces;
      }

-- The time that the events are placed around; `now` where the root has no event.
unfoldable pub topology_time : {F : Type 0} → String → List (TimelineEvent F) → Time → Time
topology_time service timeline now =
    let root_time = root_event_time service timeline in if is_zero root_time then now else root_time

module _ (r : Runtime) {F : Type 0} ⦃d : Double F⦄ where
  -- The events of the two related edges with the highest call rates.
  pub topology_events : String → Time → List (ServiceGraphEdge F) → List (TimelineEvent F)
  topology_events service root_time related =
      map (topology_event service root_time) (take 2 (r.sort_slice calls_more related))

  pub insert_topology :
      Time → List (TimelineEvent F) → String → List (ServiceGraphEdge F) → List (TimelineEvent F)
  insert_topology now timeline service [] = timeline
  insert_topology now timeline service (e ∷ es) =
      let added = topology_events service (topology_time service timeline now) (e ∷ es) in
      r.sort_slice event_before (timeline ++ added)

  -- `appendTopologyEvents`; `now` is what the clock says.
  pub append_topology_events :
      Time → List (TimelineEvent F) → String → List (ServiceGraphEdge F) → List (TimelineEvent F)
  append_topology_events now timeline service edges =
      insert_topology now timeline service (keep (touches service) edges)
