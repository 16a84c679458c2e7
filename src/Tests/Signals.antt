-- ===== src/Tests/Signals.antt =====
-- The three detectors and the latency tracker.
use mathlib.Core.List.{Sublist}
use mirador_rca.Prelude.{◌≡◌, refl, some, List, [], ◌∷◌, map, keep, All, arith}
use mirador_rca.Prelude.Int.{ℤ, pos}
use mirador_rca.Runtime.{in_order, in_order-IsRuntime}
use mirador_rca.Double.Fixed.{Fixed, fixed_double, Fixed-IsDouble}
use mirador_rca.Extractors.Logs
use mirador_rca.Extractors.Logs.Reports as LogReports
use mirador_rca.Extractors.Traces
use mirador_rca.Extractors.Traces.Reports as TraceReports
use mirador_rca.Extractors.Metrics
use mirador_rca.Extractors.Metrics.Threshold.{reading, detect_mono}
use mirador_rca.Latency.{LatencyTracker, new_latency_tracker, percentile}
use mirador_rca.Latency.Window.{observe_all, last_n, capacity, new_latency_tracker-window}
use mirador_rca.Latency.Percentile.{IsPercentile, percentile_total}
use mirador_rca.Tests.Data.{cpu_series, log_entries, spans}

detect_total_example :
    (out : List (Logs.LogAnomaly Fixed)) × (Logs.detect in_order log_entries ≡ some out)
    × All LogReports.IsHigh out
    × Sublist (map LogReports.line_of out) (map LogReports.entry_line log_entries)
detect_total_example = LogReports.detect_total in_order-IsRuntime Fixed-IsDouble log_entries

detect_lem_example :
    (keep TraceReports.in_error
        (map TraceReports.span_of (Traces.detect {F = Fixed} (some (pos 2000)) spans))
      ≡ keep TraceReports.in_error spans)
    × All
        (TraceReports.IsReported (some (pos 2000)))
        (Traces.detect {F = Fixed} (some (pos 2000)) spans)
    × Sublist (map TraceReports.span_of (Traces.detect {F = Fixed} (some (pos 2000)) spans)) spans
detect_lem_example = TraceReports.detect_lem {F = Fixed} (some (pos 2000)) spans

detect_mono_example :
    Sublist
      (map reading (Metrics.detect cpu_series (some (pos 1500))))
      (map reading (Metrics.detect cpu_series (some (pos 1000))))
detect_mono_example =
    detect_mono Fixed-IsDouble cpu_series (some (pos 1000)) (some (pos 1500)) refl refl

abbrev latencies : List ℤ
latencies = pos 30 ∷ pos 10 ∷ pos 20 ∷ []

new_latency_tracker-window_example :
    (observe_all (new_latency_tracker (pos 2)) latencies).samples
    ≡ last_n (capacity (pos 2)) latencies
new_latency_tracker-window_example = new_latency_tracker-window (pos 2) latencies

abbrev tracker : LatencyTracker
tracker = record { samples = latencies; max_size = 4 }

percentile_total_example :
    (v : ℤ) × (percentile in_order {F = Fixed} tracker (some (pos 50000)) ≡ some v)
    × IsPercentile in_order-IsRuntime {F = Fixed} (some (pos 50000)) latencies v
percentile_total_example =
    percentile_total in_order-IsRuntime {F = Fixed} tracker (some (pos 50000)) λ e. ground arith
