-- ===== src/Extractors/Logs/Reports.antt =====
-- internal/extractors/logs.go, `Detect`: it never panics, and what it reports.
use mathlib.Core.Path.{subst}
use mathlib.Core.List.{Sublist, Sublistᴰ}
use mirador_rca.Prelude.{
  ℕ, zero, suc, ◌<◌, ◌≡◌, refl, sym, none, some, String, List, [], ◌∷◌, map, length, length-perm,
  get_elem?, arith, All, Option-cases, inl, inr,
}
use mirador_rca.Prelude.Int.{ℤ}
use mirador_rca.Runtime.{Runtime, IsRuntime}
use mirador_rca.Double.{Double, ◌≼◌, IsDouble}
use mirador_rca.Model.{Time, LogEntry}
use mirador_rca.Extractors.Logs.{
  LogAnomaly, clamp_index, float_less, mad_of, counts_of, anomaly_of, collect, percentile, detect,
}

clamp_index-lt : (i : ℤ) (n : ℕ) → 0 < n → clamp_index i n < n
unfolding clamp_index
clamp_index-lt i n h = ground arith

get_elem?-lt {ℓ} :
    {A : Type ℓ} (l : List A) (i : ℕ) → i < length l → (v : A) × (get_elem? l i ≡ some v)
get_elem?-lt [] i h = absurd (omega arith)
get_elem?-lt (x ∷ xs) zero h = (x, refl)
get_elem?-lt (x ∷ xs) (suc i) h = get_elem?-lt xs i (omega arith)

-- The time, the severity and the count of a log line.
abbrev pub Line : Type 0
Line = Time × String × ℤ

abbrev pub line_of : {F : Type 0} → LogAnomaly F → Line
line_of a = (a.timestamp, a.severity, a.count)

abbrev pub entry_line : LogEntry → Line
entry_line e = (e.timestamp, e.severity, e.count)

module _ {F : Type 0} ⦃d : Double F⦄ where
  abbrev pub IsHigh : LogAnomaly F → Type 0
  IsHigh a = d.lit 3 0 ≼ a.score

  module _ (laws : IsDouble F) where
    anomaly_of_lem :
        (median mad : F) (e : LogEntry) (a : LogAnomaly F)
        → anomaly_of median mad e ≡ some a
        → IsHigh a × (line_of a ≡ entry_line e)
    unfolding anomaly_of
    anomaly_of_lem median mad e a h =
        let three = (laws.refl_of_le _ _ (laws.lit_nonneg 3 0)).1 in ground arith

    abbrev Reported : List (LogAnomaly F) → List LogEntry → Type 0
    Reported out es = All IsHigh out × Sublistᴰ (map line_of out) (map entry_line es)

    collect-some :
        (median mad : F) (e : LogEntry) (es : List LogEntry) (a : LogAnomaly F)
        → anomaly_of median mad e ≡ some a
        → collect median mad (e ∷ es) ≡ a ∷ collect median mad es
    unfolding collect
    collect-some median mad e es a h = rw (h, collect)

    collect-none :
        (median mad : F) (e : LogEntry) (es : List LogEntry)
        → anomaly_of median mad e ≡ none
        → collect median mad (e ∷ es) ≡ collect median mad es
    unfolding collect
    collect-none median mad e es h = rw (h, collect)

    collect_lem : (median mad : F) (es : List LogEntry) → Reported (collect median mad es) es
    unfolding collect
    collect_lem median mad [] = (tt, Sublistᴰ.slnil)
    collect_lem median mad (e ∷ es) =
        let (high, sub) = collect_lem median mad es in
        elim (Option-cases (anomaly_of median mad e)) [
          | inl quiet ↦
              subst (λ out. Reported out (e ∷ es)) (sym (collect-none median mad e es quiet))
                (high, Sublistᴰ.cons sub)
          | inr (a, found) ↦
              let (top, same) = anomaly_of_lem median mad e a found in
              subst (λ out. Reported out (e ∷ es)) (sym (collect-some median mad e es a found))
                ((top, high), Sublistᴰ.cons-cons same sub)
        ]

module _ {r : Runtime} (runs : IsRuntime r) {F : Type 0} ⦃d : Double F⦄ where
  -- The index that `percentile` computes is always in range, whatever the fraction is.
  percentile_total : (values : List F) (p : F) → (v : F) × (percentile r values p ≡ some v)
  unfolding percentile
  percentile_total [] p = (d.lit 0 0, refl)
  percentile_total (v ∷ vs) p =
      let sorted = r.sort_slice float_less (v ∷ vs) in
      let size : length sorted ≡ suc (length vs) =
        length-perm (runs.sort_slice-perm float_less (v ∷ vs)) in
      get_elem?-lt sorted _ (clamp_index-lt _ (length sorted) (omega arith))

  -- `Detect` never panics. It reports log lines of the input in their order, each with a score of at
  -- least 3, also those that are reported for their severity.
  pub detect_total :
      IsDouble F
      → (entries : List LogEntry)
      → (out : List (LogAnomaly F)) × (detect r entries ≡ some out)
        × All IsHigh out
        × Sublist (map line_of out) (map entry_line entries)
  unfolding detect
  detect_total laws [] = ([], refl, tt, ∣ Sublistᴰ.slnil ∣₁)
  detect_total laws (e ∷ es) =
      let counts : List F = counts_of (e ∷ es) in
      let (median, found) = percentile_total counts (d.lit 5 1) in
      let (high, sub) = collect_lem laws median (mad_of counts median) (e ∷ es) in
      (collect median (mad_of counts median) (e ∷ es), rw (found, detect), high, ∣◌∣₁ sub)
