-- ===== src/Extractors/Traces/Reports.antt =====
-- internal/extractors/traces.go, `Detect`: which spans are reported.
use mathlib.Core.Path.{subst}
use mathlib.Core.List.{Sublist, Sublistᴰ}
use mirador_rca.Prelude.{
  ◌≡◌, refl, sym, ◌∙◌, ap, keep-true, keep-false, ◌⊎◌, Bool, true, false, ◌||◌, List, [], ◌∷◌, map,
  keep, arith, All, Bool-cases, inl, inr, str_eq,
}
use mirador_rca.Double.{Double, ◌≼◌}
use mirador_rca.Model.{TraceSpan}
use mirador_rca.Extractors.Traces.{
  TraceAnomaly, durations_of, mean, spread_of, seconds, collect, detect,
}

abbrev pub in_error : TraceSpan → Bool
in_error s = str_eq s.status "error"

abbrev pub span_of : {F : Type 0} → TraceAnomaly F → TraceSpan
span_of a = a.span

module _ {F : Type 0} ⦃d : Double F⦄ where
  abbrev pub IsReported : F → TraceAnomaly F → Type 0
  IsReported threshold a = (threshold ≼ a.score) ⊎ (in_error a.span ≡ true)

  score_of : F → F → TraceSpan → F
  score_of m s x = d.div (d.sub (seconds x.duration) m) s

  module _ (t m s : F) (x : TraceSpan) (xs : List TraceSpan) where
    collect_report :
        d.le t (score_of m s x) || in_error x ≡ true
        → collect t m s (x ∷ xs)
          ≡ record { span = x; score = score_of m s x; median = m } ∷ collect t m s xs
    unfolding collect score_of
    collect_report e = rw e

    collect_skip :
        d.le t (score_of m s x) || in_error x ≡ false → collect t m s (x ∷ xs) ≡ collect t m s xs
    unfolding collect score_of
    collect_skip e = rw e

  abbrev Reports : F → List (TraceAnomaly F) → List TraceSpan → Type 0
  Reports t out ss =
      (keep in_error (map span_of out) ≡ keep in_error ss)
      × All (IsReported t) out
      × Sublistᴰ (map span_of out) ss

  collect_lem : (t m s : F) (ss : List TraceSpan) → Reports t (collect t m s ss) ss
  unfolding keep collect
  collect_lem t m s [] = (refl, tt, Sublistᴰ.slnil)
  collect_lem t m s (x ∷ xs) =
      let (kept, all, sub) = collect_lem t m s xs in
      let rest = collect t m s xs in
      elim (Bool-cases (in_error x)) [
        | inl bad ↦
            subst (λ out. Reports t out (x ∷ xs)) (sym (collect_report t m s x xs (ground arith)))
              (
                keep-true in_error x (map span_of rest) bad
                    ∙ ap (◌∷◌ x) kept
                    ∙ sym (keep-true in_error x xs bad),
                (inr bad, all),
                Sublistᴰ.cons-cons refl sub,
              )
        | inr good ↦ elim (Bool-cases (d.le t (score_of m s x))) [
          | inl slow ↦
              subst (λ out. Reports t out (x ∷ xs)) (sym (collect_report t m s x xs (ground arith)))
                (
                  keep-false in_error x (map span_of rest) good
                      ∙ kept
                      ∙ sym (keep-false in_error x xs good),
                  (inl slow, all),
                  Sublistᴰ.cons-cons refl sub,
                )
          | inr fast ↦
              subst (λ out. Reports t out (x ∷ xs)) (sym (collect_skip t m s x xs (ground arith)))
                (kept ∙ sym (keep-false in_error x xs good), all, Sublistᴰ.cons sub)
        ]
      ]

  -- `Detect` reports spans of the input in their order, misses no span whose status is "error",
  -- whatever its duration, and reports another span only if its score reaches the threshold.
  pub detect_lem :
      (threshold : F) (spans : List TraceSpan)
      → (keep in_error (map span_of (detect threshold spans)) ≡ keep in_error spans)
        × All (IsReported threshold) (detect threshold spans)
        × Sublist (map span_of (detect threshold spans)) spans
  unfolding detect
  detect_lem t [] = (refl, tt, ∣ Sublistᴰ.slnil ∣₁)
  detect_lem t (x ∷ xs) =
      let durations : List F = durations_of (x ∷ xs) in
      let (kept, all, sub) = collect_lem t (mean durations) (spread_of durations) (x ∷ xs) in
      (kept, all, ∣◌∣₁ sub)
