-- ===== src/Engine/Confidence/Range.antt =====
-- internal/engine/pipeline.go: the confidence stays in [0,1], before and after calibration.
use mirador_rca.Prelude.{List, [], ◌∷◌, map, arith, Bool-cases, inl, inr, if◌then◌else◌}
use mirador_rca.Double.{Double, ◌≼◌, IsDouble}
use mirador_rca.Extractors.Metrics.{MetricAnomaly}
use mirador_rca.Extractors.Logs.{LogAnomaly}
use mirador_rca.Extractors.Traces.{TraceAnomaly}
use mirador_rca.Engine.Clamp.{clamp, clamp_bounds, IsUnit}
use mirador_rca.Engine.Confidence.{
  max_from, max_metric_score, max_log_score, max_trace_score, add_metrics, add_logs, add_traces,
  compute_confidence, calibrate_confidence,
}

module _ {F : Type 0} ⦃d : Double F⦄ (laws : IsDouble F) where
  open laws use {
    refl_of_le, refl_of_lt, le_trans, le_total, lt-eq-not_le, lit_nonneg, zero-le-one, add_nonneg,
    mul_nonneg, div_nonneg,
  }

  -- A score that is NaN is never the largest: the search starts at zero and only moves up.
  max_from-nonneg : (best : F) (ss : List F) → d.lit 0 0 ≼ best → d.lit 0 0 ≼ max_from best ss
  unfolding max_from
  max_from-nonneg best [] h = h
  max_from-nonneg best (s ∷ ss) h = max_from-nonneg (if d.lt best s then s else best) ss next
    where
      next : d.lit 0 0 ≼ (if d.lt best s then s else best)
      next = elim (Bool-cases (d.lt best s)) [
        | inl e ↦
            let (bn, sn) = refl_of_lt best s e in
            rw e (
              le_trans _ best s h
                (ground (arith, lt-eq-not_le best s bn sn, le_total best s bn sn)))
        | inr e ↦ rw e h
      ]

  -- The share of one kind of signal.
  share_nonneg :
      (base top c x : F)
      → d.lit 0 0 ≼ base
      → d.lit 0 0 ≼ top
      → d.lit 0 0 ≼ c
      → d.lit 0 0 ≼ x
      → d.lit 0 0 ≼ d.add c (d.add base (clamp x (d.lit 0 0) top))
  share_nonneg base top c x hb ht hc hx =
      add_nonneg c _ hc
        (add_nonneg base _ hb (clamp_bounds laws x (d.lit 0 0) top (refl_of_le _ _ hx).1 ht).0)

  add_metrics-nonneg :
      (c : F) (anoms : List (MetricAnomaly F)) → d.lit 0 0 ≼ c → d.lit 0 0 ≼ add_metrics c anoms
  unfolding add_metrics max_metric_score
  add_metrics-nonneg c [] h = h
  add_metrics-nonneg c (a ∷ rest) h = share_nonneg _ _ c _ (lit_nonneg 25 2) (lit_nonneg 25 2) h (
      div_nonneg _ 8 (omega arith)
        (max_from-nonneg _ (map (λ x. x.score) (a ∷ rest)) (lit_nonneg 0 0)))

  add_logs-nonneg :
      (c : F) (anoms : List (LogAnomaly F)) → d.lit 0 0 ≼ c → d.lit 0 0 ≼ add_logs c anoms
  unfolding add_logs max_log_score
  add_logs-nonneg c [] h = h
  add_logs-nonneg c (a ∷ rest) h = share_nonneg _ _ c _ (lit_nonneg 25 2) (lit_nonneg 2 1) h (
      div_nonneg _ 6 (omega arith)
        (max_from-nonneg _ (map (λ x. x.score) (a ∷ rest)) (lit_nonneg 0 0)))

  add_traces-nonneg :
      (c : F) (anoms : List (TraceAnomaly F)) → d.lit 0 0 ≼ c → d.lit 0 0 ≼ add_traces c anoms
  unfolding add_traces max_trace_score
  add_traces-nonneg c [] h = h
  add_traces-nonneg c (a ∷ rest) h = share_nonneg _ _ c _ (lit_nonneg 25 2) (lit_nonneg 2 1) h (
      div_nonneg _ 6 (omega arith)
        (max_from-nonneg _ (map (λ x. x.score) (a ∷ rest)) (lit_nonneg 0 0)))

  -- The confidence of any anomalies is a number in [0,1], also where scores are NaN or infinite.
  pub compute_confidence-IsUnit :
      (metrics : List (MetricAnomaly F)) (logs : List (LogAnomaly F))
      (traces : List (TraceAnomaly F))
      → IsUnit (compute_confidence metrics logs traces)
  unfolding compute_confidence
  compute_confidence-IsUnit metrics logs traces =
      let total = add_traces (add_logs (add_metrics (d.lit 0 0) metrics) logs) traces in
      let positive : d.lit 0 0 ≼ total =
        add_traces-nonneg _ traces
          (add_logs-nonneg _ logs (add_metrics-nonneg _ metrics (lit_nonneg 0 0))) in
      let n = (refl_of_le _ _ positive).1 in
      let one = (refl_of_le _ _ zero-le-one).1 in
      ground
        (arith, zero-le-one, lt-eq-not_le (d.lit 1 0) total one n, le_total total (d.lit 1 0) n one)

  -- A confidence and a causality score in [0,1] are calibrated to a confidence in [0,1].
  pub calibrate_confidence-IsUnit :
      (base causality : F)
      → IsUnit base
      → IsUnit causality
      → IsUnit (calibrate_confidence base causality)
  unfolding calibrate_confidence
  calibrate_confidence-IsUnit base causality b c =
      let bounded = clamp base (d.lit 0 0) (d.lit 1 0) in
      let (low, high) =
        clamp_bounds laws base (d.lit 0 0) (d.lit 1 0) (refl_of_le _ _ b.0).1 zero-le-one in
      let plain = (mul_nonneg bounded 7 1 low high).0 in
      let sum =
        add_nonneg _ _ (mul_nonneg bounded 6 1 low high).0 (mul_nonneg causality 4 1 c.0 c.1).0 in
      elim (Bool-cases (d.le causality (d.lit 0 0))) [
        | inl e ↦ rw e (clamp_bounds laws _ _ _ (refl_of_le _ _ plain).1 zero-le-one)
        | inr e ↦ rw e (clamp_bounds laws _ _ _ (refl_of_le _ _ sum).1 zero-le-one)
      ]
