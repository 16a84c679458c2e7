-- ===== src/Engine/Timeline/Order.antt =====
-- internal/engine/pipeline.go, `buildTimeline`: the timeline holds the earliest events, in order of time.
use mirador_rca.Prelude.{List, drop, arith, All-of_forall}
use mirador_rca.Prelude.Sort.{IsSorted, IsWeakOrder, IsTop, IsTop-cut}
use mirador_rca.Runtime.{Runtime, IsRuntime}
use mirador_rca.Double.{Double}
use mirador_rca.Model.{TimelineEvent}
use mirador_rca.Extractors.Metrics.{MetricAnomaly}
use mirador_rca.Extractors.Logs.{LogAnomaly}
use mirador_rca.Extractors.Traces.{TraceAnomaly}
use mirador_rca.Engine.Timeline.{event_before, all_events, build_timeline}

module _ {F : Type 0} where
  -- Times are totally ordered, so all events are weakly ordered.
  event_before-IsWeakOrder : IsWeakOrder event_before (λ (e : TimelineEvent F). Unit {0})
  event_before-IsWeakOrder = record {
    prop = λ e. hlevel;
    asym = λ a b _ _ h. ground arith;
    not_trans = λ a b c _ _ _ h k. ground arith;
  }

module _ {r : Runtime} (laws : IsRuntime r) {F : Type 0} where
  -- Sorting events puts them in order of time.
  pub sort_events-IsSorted :
      (events : List (TimelineEvent F)) → IsSorted event_before (r.sort_slice event_before events)
  sort_events-IsSorted events =
      laws.sort_slice-IsSorted event_before (λ e. Unit {0}) events event_before-IsWeakOrder
        (All-of_forall (λ e. Unit {0}) (λ e. tt) events)

  -- The timeline holds the earliest of all events: at most ten, in order of time, ten where events are
  -- left out, and none that is left out comes before one that is kept.
  pub build_timeline-IsTop :
      ⦃d : Double F⦄ (metrics : List (MetricAnomaly F)) (logs : List (LogAnomaly F))
      (traces : List (TraceAnomaly F))
      → (rest : List (TimelineEvent F)) × IsTop event_before 10
          (all_events metrics logs traces)
          (build_timeline r metrics logs traces)
          rest
  unfolding build_timeline
  build_timeline-IsTop metrics logs traces =
      let all = all_events metrics logs traces in
      let sorted = r.sort_slice event_before all in
      (
        drop 10 sorted,
        IsTop-cut event_before 10 sorted all (sort_events-IsSorted all)
            (laws.sort_slice-perm event_before all),
      )
