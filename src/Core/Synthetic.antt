-- ===== src/Core/Synthetic.antt =====
-- internal/repo/mirador_core.go: the made-up series and log entries, which nothing uses.
use mirador_rca.Prelude.{ℕ, zero, suc, ◌+◌, ◌*◌, ◌||◌, not, List, [], ◌∷◌, ltb, leb, if◌then◌else◌}
use mirador_rca.Prelude.Int.{pos, ◌-ℤ◌, ◌+ℤ◌, ◌*ℤ◌, div_ℤ, leb_ℤ}
use mirador_rca.Double.{Double}
use mirador_rca.Model.{Time, Duration, second, is_zero, before, MetricPoint, LogEntry}

abbrev minutes : ℕ → Duration
minutes n = pos (n * 60) *ℤ second

-- A window that is empty or not set is the last quarter of an hour.
unfoldable pub window_or_recent : Time → Time → Time → Time × Time
window_or_recent now start end =
    if is_zero start || (is_zero end || not (before start end))
    then (now -ℤ minutes 15, now)
    else (start, end)

unfoldable pub step_or : Duration → Duration → Duration
step_or step fallback = if leb_ℤ step (pos 0) then fallback else step

module _ {F : Type 0} ⦃d : Double F⦄ where
  abbrev synthetic_point : Time → Duration → ℕ → MetricPoint F
  synthetic_point start step i =
      let value = d.add (d.lit 5 1) (d.mul (d.lit 5 2) (d.of_int (pos i))) in
      record {
        timestamp = start +ℤ pos i *ℤ step;
        value = if ltb 10 i then d.add value (d.lit 3 1) else value;
      }

  -- The rounds of the loop from this one on.
  points_from : ℕ → ℕ → Time → Duration → List (MetricPoint F)
  points_from zero i start step = []
  points_from (suc left) i start step =
      synthetic_point start step i ∷ points_from left (i + 1) start step

  -- `syntheticMetricSeries`
  pub synthetic_metric_series : Time → Time → Time → List (MetricPoint F)
  synthetic_metric_series now start end =
      let (first, last) = window_or_recent now start end in
      points_from 15 0 first (step_or (div_ℤ (last -ℤ first) (pos 15)) (minutes 1))

abbrev synthetic_entry : Time → Duration → ℕ → LogEntry
synthetic_entry start step i = record {
  timestamp = start +ℤ pos i *ℤ step;
  message = "synthetic log";
  severity = if leb 3 i then "error" else "info";
  count = pos (if leb 3 i then 20 + i * 2 + 12 else 20 + i * 2);
}

entries_from : ℕ → ℕ → Time → Duration → List LogEntry
entries_from zero i start step = []
entries_from (suc left) i start step =
    synthetic_entry start step i ∷ entries_from left (i + 1) start step

-- `syntheticLogEntries`
pub synthetic_log_entries : Time → Time → Time → List LogEntry
synthetic_log_entries now start end =
    let (first, last) = window_or_recent now start end in
    entries_from 5 0 first (step_or (div_ℤ (last -ℤ first) (pos 5)) (minutes 3))
