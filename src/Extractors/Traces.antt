-- ===== src/Extractors/Traces.antt =====
-- internal/extractors/traces.go: spans that are slow against the mean, and spans in error.
pub mod Reports
use mirador_rca.Prelude.{◌||◌, List, [], ◌∷◌, map, length, str_eq, if◌then◌else◌}
use mirador_rca.Prelude.Int.{ℤ, pos, ◌-ℤ◌, ◌*ℤ◌, div_ℤ}
use mirador_rca.Double.{Double}
use mirador_rca.Model.{Duration, TraceSpan, second}

pub record TraceAnomaly (F : Type 0) : Type 0 where
  pub span : TraceSpan
  pub score : F
  pub median : F

module _ {F : Type 0} ⦃d : Double F⦄ where
  open d use {add, sub, mul, div, sqrt, lit, le, eq, of_int}

  -- `Duration.Seconds`: the whole seconds and the rest are converted apart.
  unfoldable pub seconds : Duration → F
  unfolding ◌-ℤ◌ ◌*ℤ◌ div_ℤ
  seconds t =
      let whole = div_ℤ t second in
      add (of_int whole) (div (of_int (t -ℤ whole *ℤ second)) (lit 1_000_000_000 0))

  unfoldable pub sum_from : F → List F → F
  sum_from acc [] = acc
  sum_from acc (v ∷ vs) = sum_from (add acc v) vs

  unfoldable pub mean : List F → F
  mean values = div (sum_from (lit 0 0) values) (of_int (pos (length values)))

  unfoldable pub sum_squares : F → F → List F → F
  sum_squares m acc [] = acc
  sum_squares m acc (v ∷ vs) = sum_squares m (let diff = sub v m in add acc (mul diff diff)) vs

  unfoldable pub std_dev : List F → F → F
  std_dev values m = sqrt (div (sum_squares m (lit 0 0) values) (of_int (pos (length values))))

  -- `NewTracesExtractor`
  abbrev pub default_threshold : F
  default_threshold = lit 2 0

  unfoldable pub durations_of : List TraceSpan → List F
  durations_of = map λ s. seconds s.duration

  -- The deviation in force: 0.01 where it is 0.
  unfoldable pub spread_of : List F → F
  spread_of durations =
      let std = std_dev durations (mean durations) in if eq std (lit 0 0) then lit 1 2 else std

  unfoldable pub collect : F → F → F → List TraceSpan → List (TraceAnomaly F)
  collect threshold m std [] = []
  collect threshold m std (s ∷ ss) =
      let rest = collect threshold m std ss in
      let score = div (sub (seconds s.duration) m) std in
      if le threshold score || str_eq s.status "error"
      then record { span = s; score = score; median = m } ∷ rest
      else rest

  -- `Detect`
  unfoldable pub detect : F → List TraceSpan → List (TraceAnomaly F)
  detect threshold [] = []
  detect threshold (s ∷ ss) =
      let durations = durations_of (s ∷ ss) in
      collect threshold (mean durations) (spread_of durations) (s ∷ ss)
