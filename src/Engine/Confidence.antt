-- ===== src/Engine/Confidence.antt =====
-- internal/engine/pipeline.go: `computeConfidence`, `calibrateConfidence`, `severityFromScore` and the
-- largest scores.
pub mod Range
use mirador_rca.Prelude.{Bool, true, false, List, [], ◌∷◌, map, if◌then◌else◌}
use mirador_rca.Double.{Double}
use mirador_rca.Model.{Severity, severity_low, severity_medium, severity_high, severity_critical}
use mirador_rca.Extractors.Metrics.{MetricAnomaly}
use mirador_rca.Extractors.Logs.{LogAnomaly}
use mirador_rca.Extractors.Traces.{TraceAnomaly}
use mirador_rca.Engine.Clamp.{clamp}

module _ {F : Type 0} ⦃d : Double F⦄ where
  open d use {add, mul, div, lit, lt, le}

  unfoldable pub severity_from_score : F → Severity
  severity_from_score score =
      if le (lit 4 0) score
      then severity_critical
      else if le (lit 3 0) score
      then severity_high
      else if le (lit 2 0) score
      then severity_medium
      else severity_low

  -- The loop that `maxMetricScore`, `maxLogScore` and `maxTraceScore` share.
  unfoldable pub max_from : F → List F → F
  max_from best [] = best
  max_from best (s ∷ ss) = max_from (if lt best s then s else best) ss

  pub max_metric_score : List (MetricAnomaly F) → F
  max_metric_score anoms = max_from (lit 0 0) (map (λ a. a.score) anoms)

  pub max_log_score : List (LogAnomaly F) → F
  max_log_score anoms = max_from (lit 0 0) (map (λ a. a.score) anoms)

  pub max_trace_score : List (TraceAnomaly F) → F
  max_trace_score anoms = max_from (lit 0 0) (map (λ a. a.score) anoms)

  -- The share of one kind of signal, added where there are anomalies of that kind.
  pub add_metrics : F → List (MetricAnomaly F) → F
  add_metrics c [] = c
  add_metrics c (a ∷ rest) =
      add c
        (add (lit 25 2) (clamp (div (max_metric_score (a ∷ rest)) (lit 8 0)) (lit 0 0) (lit 25 2)))

  pub add_logs : F → List (LogAnomaly F) → F
  add_logs c [] = c
  add_logs c (a ∷ rest) =
      add c (add (lit 25 2) (clamp (div (max_log_score (a ∷ rest)) (lit 6 0)) (lit 0 0) (lit 2 1)))

  pub add_traces : F → List (TraceAnomaly F) → F
  add_traces c [] = c
  add_traces c (a ∷ rest) =
      add c
        (add (lit 25 2) (clamp (div (max_trace_score (a ∷ rest)) (lit 6 0)) (lit 0 0) (lit 2 1)))

  pub compute_confidence : List (MetricAnomaly F) → List (LogAnomaly F) → List (TraceAnomaly F) → F
  compute_confidence metrics logs traces =
      let confidence = add_traces (add_logs (add_metrics (lit 0 0) metrics) logs) traces in
      if lt (lit 1 0) confidence then lit 1 0 else confidence

  pub calibrate_confidence : F → F → F
  calibrate_confidence base causality =
      let bounded = clamp base (lit 0 0) (lit 1 0) in
      if le causality (lit 0 0)
      then clamp (mul bounded (lit 7 1)) (lit 0 0) (lit 1 0)
      else clamp (add (mul bounded (lit 6 1)) (mul causality (lit 4 1))) (lit 0 0) (lit 1 0)
