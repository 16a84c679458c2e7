-- ===== src/Tests/Ranking.antt =====
-- The anchors, the timeline, and the helpers on texts.
use mirador_rca.Prelude.{refl, String, List, [], ◌∷◌, All}
use mirador_rca.Prelude.Sort.{IsTop}
use mirador_rca.Runtime.{in_order, in_order-IsRuntime}
use mirador_rca.Double.Fixed.{Fixed, fixed_double, Fixed-IsDouble}
use mirador_rca.Model.{RedAnchor, TimelineEvent}
use mirador_rca.Engine.Anchors.{scores_higher, all_anchors, build_anchors}
use mirador_rca.Engine.Anchors.Ranking.{IsScored, build_anchors-IsTop}
use mirador_rca.Engine.Timeline.{event_before, all_events, build_timeline}
use mirador_rca.Engine.Timeline.Order.{build_timeline-IsTop}
use mirador_rca.Tests.Data.{metric_anomalies, log_anomalies, trace_anomalies}

all_anchors-IsScored :
    All IsScored (all_anchors "checkout" metric_anomalies log_anomalies trace_anomalies)
unfolding all_anchors mirador_rca.Engine.Anchors.metric_anchor mirador_rca.Engine.Anchors.log_anchor
    mirador_rca.Engine.Anchors.trace_anchor
all_anchors-IsScored = (refl, (refl, (refl, tt)))

build_anchors-IsTop_example :
    (rest : List (RedAnchor Fixed)) × IsTop scores_higher 5
      (all_anchors "checkout" metric_anomalies log_anomalies trace_anomalies)
      (build_anchors "checkout" metric_anomalies log_anomalies trace_anomalies)
      rest
build_anchors-IsTop_example =
    build_anchors-IsTop Fixed-IsDouble "checkout" metric_anomalies log_anomalies trace_anomalies
      all_anchors-IsScored

build_timeline-IsTop_example :
    (rest : List (TimelineEvent Fixed)) × IsTop event_before 10
      (all_events metric_anomalies log_anomalies trace_anomalies)
      (build_timeline in_order metric_anomalies log_anomalies trace_anomalies)
      rest
build_timeline-IsTop_example =
    build_timeline-IsTop in_order-IsRuntime metric_anomalies log_anomalies trace_anomalies

abbrev names : List String
names = "cart" ∷ "" ∷ "stock" ∷ "cart" ∷ []
