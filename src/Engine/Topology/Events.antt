-- ===== src/Engine/Topology/Events.antt =====
-- internal/engine/pipeline.go, `appendTopologyEvents`: what it adds to the timeline, and the order.
use mathlib.Core.List.{Perm, Mem, Mem-prop, append-nil}
use mathlib.Core.List.Perm
use mathlib.Core.HLevel.{×_prop}
use mirador_rca.Prelude.{
  ◌≡◌, ◌≢◌, ◌≤◌, ◌⊎◌, refl, true, String, List, [], ◌∷◌, ◌++◌, take, keep, length, length-take,
  length-map, Bool-eq-prop, arith, All, All-map, All-imp, All-take, All-perm, All-keep, inl, inr,
  Bool-cases, str_eq, str_eq_iff,
}
use mirador_rca.Prelude.Int.{pos, ◌+ℤ◌, ◌-ℤ◌}
use mirador_rca.Prelude.Sort.{IsSorted}
use mirador_rca.Runtime.{Runtime, IsRuntime}
use mirador_rca.Double.{Double}
use mirador_rca.Model.{Time, TimelineEvent, ServiceGraphEdge}
use mirador_rca.Engine.Timeline.{event_before}
use mirador_rca.Engine.Timeline.Order.{sort_events-IsSorted}
use mirador_rca.Engine.Topology.{
  touches, topology_event, topology_time, topology_events, calls_more, insert_topology,
  append_topology_events,
}

module _ {F : Type 0} ⦃d : Double F⦄ (service : String) (edges : List (ServiceGraphEdge F)) where
  -- An event of the topology names a neighbour of the service in the graph: a caller 500,000,000
  -- nanoseconds before the root's time, or a callee as many after it.
  pub record IsPlaced (root_time : Time) (e : TimelineEvent F) : Type 0 where
    pub edge : ServiceGraphEdge F
    pub member : Mem edge edges
    pub placed :
        ((edge.target ≡ service)
          × (e.service ≡ edge.source)
          × (e.time ≡ root_time -ℤ pos 500_000_000))
        ⊎ ((edge.source ≡ service)
            × (e.service ≡ edge.target)
            × (e.time ≡ root_time +ℤ pos 500_000_000))

  topology_event-IsPlaced :
      (root_time : Time) (edge : ServiceGraphEdge F)
      → Mem edge edges × (touches service edge ≡ true)
      → IsPlaced root_time (topology_event service root_time edge)
  unfolding topology_event touches
  topology_event-IsPlaced root_time edge (m, h) = elim (Bool-cases (str_eq edge.target service)) [
    | inl caller ↦ record {
      edge = edge;
      member = m;
      placed = rw caller (inl ((str_eq_iff _ _).0 caller, refl, refl));
    }
    | inr callee ↦
        let same : str_eq edge.source service ≡ true = ground arith in
        record {
          edge = edge;
          member = m;
          placed = rw callee (inr ((str_eq_iff _ _).0 same, refl, refl));
        }
  ]

  module _ {r : Runtime} (laws : IsRuntime r) where
    topology_events_lem :
        (root_time : Time)
        → let added = topology_events r service root_time (keep (touches service) edges) in
          All (IsPlaced root_time) added × (length added ≤ 2)
    unfolding topology_events
    topology_events_lem root_time =
        let related = keep (touches service) edges in
        let sorted = r.sort_slice calls_more related in
        let Q : ServiceGraphEdge F → Type 0 = λ e. Mem e edges × (touches service e ≡ true) in
        (
          All-map (IsPlaced root_time) (topology_event service root_time) (take 2 sorted) (
              All-imp Q (topology_event-IsPlaced root_time) (take 2 sorted) (
                All-take Q 2 sorted (
                  All-perm Q (λ e. ×_prop Mem-prop Bool-eq-prop)
                    (Perm.symm (laws.sort_slice-perm calls_more related))
                    (All-keep Q (touches service) edges λ e m h. (m, h))))),
          omega (
            arith,
            length-map (take 2 sorted) (topology_event service root_time),
            length-take 2 sorted,
          ),
        )

    topology_events-nil : (root_time : Time) → topology_events r {F = F} service root_time [] ≡ []
    unfolding topology_events
    topology_events-nil root_time = rw (Perm.eq-nil (laws.sort_slice-perm (calls_more {F = F}) []))

    insert_topology_lem :
        (now : Time) (timeline : List (TimelineEvent F)) (related : List (ServiceGraphEdge F))
        → Perm
            (insert_topology r now timeline service related)
            (timeline ++ topology_events r service (topology_time service timeline now) related)
          × (related ≢ [] → IsSorted event_before (insert_topology r now timeline service related))
    unfolding insert_topology
    insert_topology_lem now timeline [] = (
      rw (topology_events-nil (topology_time service timeline now), append-nil)
          (Perm.refl timeline),
      λ h. absurd (h refl),
    )
    insert_topology_lem now timeline (e ∷ es) =
        let added = topology_events r service (topology_time service timeline now) (e ∷ es) in
        (
          laws.sort_slice-perm event_before (timeline ++ added),
          λ _. sort_events-IsSorted laws (timeline ++ added),
        )

    -- The topology step keeps every event of the timeline and adds at most two. Each of those names a
    -- neighbour of the service in the graph, a caller half a second before the root's time and a callee
    -- half a second after it. If an edge touches the service, the result is in order of time.
    pub append_topology_events_lem :
        (now : Time) (timeline : List (TimelineEvent F))
        → (added : List (TimelineEvent F)) × Perm
            (append_topology_events r now timeline service edges)
            (timeline ++ added)
          × (length added ≤ 2)
          × All (IsPlaced (topology_time service timeline now)) added
          × (keep (touches service) edges ≢ []
              → IsSorted event_before (append_topology_events r now timeline service edges))
    unfolding append_topology_events
    append_topology_events_lem now timeline =
        let related = keep (touches service) edges in
        let root_time = topology_time service timeline now in
        let (placed, few) = topology_events_lem root_time in
        let (perm, sorted) = insert_topology_lem now timeline related in
        (topology_events r service root_time related, perm, few, placed, sorted)
