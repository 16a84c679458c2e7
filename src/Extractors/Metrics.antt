-- ===== src/Extractors/Metrics.antt =====
-- internal/extractors/metrics.go: samples far above the mean, by a z-score.
pub mod Threshold
use mirador_rca.Prelude.{ℕ, Bool, List, [], ◌∷◌, length, if◌then◌else◌}
use mirador_rca.Prelude.Int.{pos}
use mirador_rca.Double.{Double}
use mirador_rca.Model.{Time, MetricPoint}

pub record MetricAnomaly (F : Type 0) : Type 0 where
  pub timestamp : Time
  pub value : F
  pub score : F
  pub threshold : F

module _ {F : Type 0} ⦃d : Double F⦄ where
  open d use {add, sub, div, pow, sqrt, lit, le, eq, of_int}

  -- The loop that adds up the values.
  unfoldable pub sum_values : F → List (MetricPoint F) → F
  sum_values acc [] = acc
  sum_values acc (p ∷ ps) = sum_values (add acc p.value) ps

  -- The loop that adds up the squares of the distances from the mean.
  unfoldable pub sum_squares : F → F → List (MetricPoint F) → F
  sum_squares mean acc [] = acc
  sum_squares mean acc (p ∷ ps) = sum_squares mean (add acc (pow (sub p.value mean) (lit 2 0))) ps

  -- The threshold in force: the default where the one asked for is not positive.
  pub effective_threshold : F → F
  effective_threshold threshold = if le threshold (lit 0 0) then lit 25 1 else threshold

  unfoldable pub mean_of : List (MetricPoint F) → F
  mean_of series = div (sum_values (lit 0 0) series) (of_int (pos (length series)))

  -- The standard deviation, or 0.01 where it is 0.
  unfoldable pub std_dev_of : List (MetricPoint F) → F
  std_dev_of series =
      let variance =
        div (sum_squares (mean_of series) (lit 0 0) series) (of_int (pos (length series))) in
      let std_dev = sqrt variance in if eq std_dev (lit 0 0) then lit 1 2 else std_dev

  -- The loop that collects the anomalies.
  unfoldable pub collect : F → F → F → List (MetricPoint F) → List (MetricAnomaly F)
  collect mean std_dev threshold [] = []
  collect mean std_dev threshold (p ∷ ps) =
      let rest = collect mean std_dev threshold ps in
      let score = div (sub p.value mean) std_dev in
      if le threshold score
      then record { timestamp = p.timestamp; value = p.value; score = score; threshold = threshold }
        ∷ rest
      else rest

  -- `Detect`
  unfoldable pub detect : List (MetricPoint F) → F → List (MetricAnomaly F)
  detect [] threshold = []
  detect (p ∷ ps) threshold =
      collect (mean_of (p ∷ ps)) (std_dev_of (p ∷ ps)) (effective_threshold threshold) (p ∷ ps)
