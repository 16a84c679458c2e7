-- ===== src/Engine/Anchors/Ranking.antt =====
-- internal/engine/pipeline.go, `buildAnchors`: the anchors are the best-scoring candidates.
use mirador_rca.Prelude.{
  String, List, drop, length, length-take, ltb, ◌≤◌, Bool-cases, inl, inr, arith, All,
}
use mirador_rca.Prelude.Sort.{
  IsWeakOrder, IsTop, IsTop-cut, sort_stable, sort_stable-perm, sort_stable-IsSorted,
}
use mirador_rca.Double.{Double, IsDouble, IsNumber}
use mirador_rca.Model.{RedAnchor}
use mirador_rca.Extractors.Metrics.{MetricAnomaly}
use mirador_rca.Extractors.Logs.{LogAnomaly}
use mirador_rca.Extractors.Traces.{TraceAnomaly}
use mirador_rca.Engine.Anchors.{all_anchors, build_anchors, scores_higher}

module _ {F : Type 0} ⦃d : Double F⦄ where
  abbrev pub IsScored : RedAnchor F → Type 0
  IsScored a = IsNumber a.anomaly_score

  module _ (laws : IsDouble F) where
    -- By falling score: the anchors whose scores are numbers are weakly ordered.
    scores_higher-IsWeakOrder : IsWeakOrder scores_higher IsScored
    scores_higher-IsWeakOrder = record {
      prop = λ a. hlevel;
      asym = λ a b na nb h.
          let x = a.anomaly_score in
          let y = b.anomaly_score in
          ground (
            arith,
            laws.lt-eq-not_le x y na nb,
            laws.lt-eq-not_le y x nb na,
            laws.le_total x y na nb,
          );
      not_trans = λ a b c na nb nc h k.
          let x = a.anomaly_score in
          let y = b.anomaly_score in
          let z = c.anomaly_score in
          ground (
            arith,
            laws.lt-eq-not_le y x nb na,
            laws.lt-eq-not_le z y nc nb,
            laws.lt-eq-not_le z x nc na,
            laws.le_trans x y z,
          );
    }

    -- Where every anomaly's score is a number, the anchors are the best-scoring of all candidates: at
    -- most five, in falling order of score, five where candidates are left out, and none that is left
    -- out scores higher than one that is kept.
    pub build_anchors-IsTop :
        (service : String) (metrics : List (MetricAnomaly F)) (logs : List (LogAnomaly F))
        (traces : List (TraceAnomaly F))
        → All IsScored (all_anchors service metrics logs traces)
        → (rest : List (RedAnchor F)) × IsTop scores_higher 5
            (all_anchors service metrics logs traces)
            (build_anchors service metrics logs traces)
            rest
    unfolding build_anchors
    build_anchors-IsTop service metrics logs traces scored =
        let all = all_anchors service metrics logs traces in
        let sorted = sort_stable scores_higher all in
        (
          drop 5 sorted,
          IsTop-cut scores_higher 5 sorted all
              (sort_stable-IsSorted scores_higher scores_higher-IsWeakOrder all scored)
              (sort_stable-perm scores_higher all),
        )

  -- Whatever the scores are.
  pub build_anchors-few :
      (service : String) (metrics : List (MetricAnomaly F)) (logs : List (LogAnomaly F))
      (traces : List (TraceAnomaly F))
      → length (build_anchors service metrics logs traces) ≤ 5
  unfolding build_anchors
  build_anchors-few service metrics logs traces =
      let all = sort_stable scores_higher (all_anchors service metrics logs traces) in
      elim (Bool-cases (ltb 5 (length all))) [
        | inl more ↦ rw more (omega (arith, length-take 5 all))
        | inr fits ↦ rw fits (ground arith)
      ]
