-- ===== src/Extractors/Logs.antt =====
-- internal/extractors/logs.go: log volumes far from the median, and error lines above it.
pub mod Reports
use mirador_rca.Prelude.{
  ℕ, ◌-◌, suc, Bool, true, false, not, ◌&&◌, ◌||◌, Option, none, some, String, List, [], ◌∷◌, map,
  length, get_elem?, leb, if◌then◌else◌,
}
use mirador_rca.Prelude.Int.{ℤ, pos, negsuc, ltb_ℤ}
use mirador_rca.Prelude.Text.{equal_fold}
use mirador_rca.Runtime.{Runtime}
use mirador_rca.Double.{Double}
use mirador_rca.Model.{Time, LogEntry}

pub record LogAnomaly (F : Type 0) : Type 0 where
  pub timestamp : Time
  pub severity : String
  pub count : ℤ
  pub score : F

-- An index, after the two tests that bring it into the range of a list of `n` elements.
unfoldable pub clamp_index : ℤ → ℕ → ℕ
clamp_index (negsuc _) n = 0
clamp_index (pos i) n = if leb n i then n - 1 else i

module _ {F : Type 0} ⦃d : Double F⦄ where
  open d use {add, sub, mul, div, abs, round, trunc, lit, lt, le, eq, of_int}

  -- The order of `sort.Float64s`: NaN comes first.
  abbrev pub float_less : F → F → Bool
  float_less a b = lt a b || (not (eq a a) && eq b b)

  unfoldable pub sum_deviations : F → F → List F → F
  sum_deviations center acc [] = acc
  sum_deviations center acc (v ∷ vs) = sum_deviations center (add acc (abs (sub v center))) vs

  -- `meanAbsoluteDeviation`
  unfoldable pub mean_absolute_deviation : List F → F → F
  mean_absolute_deviation [] center = lit 0 0
  mean_absolute_deviation (v ∷ vs) center =
      div (sum_deviations center (lit 0 0) (v ∷ vs)) (of_int (pos (length (v ∷ vs))))

  -- The median deviation in force: 1 where it is 0.
  unfoldable pub mad_of : List F → F → F
  mad_of counts median =
      let mad = mean_absolute_deviation counts median in if eq mad (lit 0 0) then lit 1 0 else mad

  unfoldable pub counts_of : List LogEntry → List F
  counts_of = map λ e. of_int e.count

  unfoldable pub score_of : F → F → LogEntry → F
  score_of median mad entry = div (abs (sub (of_int entry.count) median)) mad

  -- What the loop appends for one entry.
  pub anomaly_of : F → F → LogEntry → Option (LogAnomaly F)
  anomaly_of median mad entry =
      let score = score_of median mad entry in
      if le (lit 3 0) score
      then some (record {
        timestamp = entry.timestamp;
        severity = entry.severity;
        count = entry.count;
        score = score;
      })
      else if equal_fold entry.severity "error" && ltb_ℤ (trunc (mul median (lit 13 1))) entry.count
      then some (record {
        timestamp = entry.timestamp;
        severity = entry.severity;
        count = entry.count;
        score = lit 3 0;
      })
      else none

  unfoldable pub collect : F → F → List LogEntry → List (LogAnomaly F)
  collect median mad [] = []
  collect median mad (e ∷ es) =
      let rest = collect median mad es in
      elim (anomaly_of median mad e) [ none ↦ rest | some a ↦ a ∷ rest ]

module _ (r : Runtime) {F : Type 0} ⦃d : Double F⦄ where
  open d use {mul, round, trunc, lit, of_int}

  -- `percentile`; `none` is an index out of range, a panic.
  unfoldable pub percentile : List F → F → Option F
  percentile [] p = some (lit 0 0)
  percentile (v ∷ vs) p =
      let sorted = r.sort_slice float_less (v ∷ vs) in
      let n = length sorted in
      get_elem? sorted (clamp_index (trunc (round (mul p (of_int (pos (n - 1)))))) n)

  -- `Detect`; `none` is a panic of `percentile`.
  unfoldable pub detect : List LogEntry → Option (List (LogAnomaly F))
  detect [] = some []
  detect (e ∷ es) =
      let counts : List F = counts_of (e ∷ es) in
      elim (percentile counts (lit 5 1)) [
        | none ↦ none
        | some median ↦ some (collect median (mad_of counts median) (e ∷ es))
      ]
