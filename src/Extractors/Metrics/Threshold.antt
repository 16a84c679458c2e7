-- ===== src/Extractors/Metrics/Threshold.antt =====
-- internal/extractors/metrics.go, `Detect`: how the threshold decides what is reported.
use mathlib.Core.List.{Sublist, Sublistᴰ}
use mirador_rca.Prelude.{
  ◌≡◌, refl, true, false, List, [], ◌∷◌, map, arith, All, Bool-cases, inl, inr,
}
use mirador_rca.Double.{Double, ◌≼◌, IsDouble, IsNumber}
use mirador_rca.Model.{Time, MetricPoint}
use mirador_rca.Extractors.Metrics.{
  MetricAnomaly, effective_threshold, mean_of, std_dev_of, collect, detect,
}

-- What an anomaly reports of its sample: the time, the value and the score.
abbrev pub Reading : Type 0 → Type 0
Reading F = Time × F × F

abbrev pub reading : {F : Type 0} → MetricAnomaly F → Reading F
reading a = (a.timestamp, a.value, a.score)

module _ {F : Type 0} ⦃d : Double F⦄ where
  -- Reported at the threshold that is in force.
  abbrev pub IsReportedAt : F → MetricAnomaly F → Type 0
  IsReportedAt threshold a = (threshold ≼ a.score) × (a.threshold ≡ threshold)

  collect-IsReportedAt :
      (m s threshold : F) (ps : List (MetricPoint F))
      → All (IsReportedAt threshold) (collect m s threshold ps)
  unfolding collect
  collect-IsReportedAt m s threshold [] = tt
  collect-IsReportedAt m s threshold (p ∷ ps) =
      elim (Bool-cases (d.le threshold (d.div (d.sub p.value m) s))) [
        | inl e ↦ rw (e, collect) ((e, refl), collect-IsReportedAt m s threshold ps)
        | inr e ↦ rw (e, collect) (collect-IsReportedAt m s threshold ps)
      ]

  detect-IsReportedAt :
      (series : List (MetricPoint F)) (t : F)
      → All (IsReportedAt (effective_threshold t)) (detect series t)
  unfolding detect
  detect-IsReportedAt [] t = tt
  detect-IsReportedAt (x ∷ xs) t =
      collect-IsReportedAt (mean_of (x ∷ xs)) (std_dev_of (x ∷ xs)) (effective_threshold t) (x ∷ xs)

  module _ (laws : IsDouble F) where
    open laws use {refl_of_le, refl_of_lt, le_trans, le_total, lt-eq-not_le, lit_nonneg}

    collect_mono :
        (m s low high : F) (ps : List (MetricPoint F))
        → low ≼ high
        → Sublistᴰ (map reading (collect m s high ps)) (map reading (collect m s low ps))
    unfolding collect
    collect_mono m s low high [] h = Sublistᴰ.slnil
    collect_mono m s low high (p ∷ ps) h =
        let score = d.div (d.sub p.value m) s in
        elim (Bool-cases (d.le high score)) [
          | inl top ↦
              rw (top, le_trans low high score h top)
                (Sublistᴰ.cons-cons refl (collect_mono m s low high ps h))
          | inr below ↦ elim (Bool-cases (d.le low score)) [
            | inl e ↦ rw (below, e) (Sublistᴰ.cons (collect_mono m s low high ps h))
            | inr e ↦ rw (below, e) (collect_mono m s low high ps h)
          ]
        ]

    -- A positive number is not at most zero.
    not_le_zero : (t : F) → d.lt (d.lit 0 0) t ≡ true → d.le t (d.lit 0 0) ≡ false
    not_le_zero t p =
        let (zero_number, number) = refl_of_lt (d.lit 0 0) t p in
        ground (arith, lt-eq-not_le (d.lit 0 0) t zero_number number)

    effective_threshold-pos : (t : F) → d.le t (d.lit 0 0) ≡ false → effective_threshold t ≡ t
    unfolding effective_threshold
    effective_threshold-pos t e = rw e

    -- Asking for a higher threshold reports a part of the same anomalies, in the same order and with
    -- the same scores, where the lower threshold is positive.
    pub detect_mono :
        (series : List (MetricPoint F)) (low high : F)
        → d.lt (d.lit 0 0) low ≡ true
        → low ≼ high
        → Sublist (map reading (detect series high)) (map reading (detect series low))
    unfolding detect
    detect_mono [] low high p h = ∣ Sublistᴰ.slnil ∣₁
    detect_mono (x ∷ xs) low high p h =
        let positive = not_le_zero low p in
        let higher : d.le high (d.lit 0 0) ≡ false = elim (Bool-cases (d.le high (d.lit 0 0))) [
          | inl e ↦ cc (le_trans low high (d.lit 0 0) h e)
          | inr e ↦ e
        ] in
        rw (effective_threshold-pos low positive, effective_threshold-pos high higher)
          (∣◌∣₁ (collect_mono (mean_of (x ∷ xs)) (std_dev_of (x ∷ xs)) low high (x ∷ xs) h))

    collect_nan : (m s t : F) (ps : List (MetricPoint F)) → ¬ IsNumber t → collect m s t ps ≡ []
    unfolding collect
    collect_nan m s t [] n = refl
    collect_nan m s t (p ∷ ps) n =
        let score = d.div (d.sub p.value m) s in
        elim (Bool-cases (d.le t score)) [
          | inl e ↦ absurd (n (refl_of_le t score e).0)
          | inr e ↦ rw e (collect_nan m s t ps n)
        ]

    effective_threshold_nonneg : (t : F) → IsNumber t → d.lit 0 0 ≼ effective_threshold t
    unfolding effective_threshold
    effective_threshold_nonneg t n =
        let zero_number = (refl_of_le _ _ (lit_nonneg 0 0)).0 in
        elim (Bool-cases (d.le t (d.lit 0 0))) [
          | inl e ↦ rw e (lit_nonneg 25 1)
          | inr e ↦ rw e (ground (arith, le_total t (d.lit 0 0) n zero_number))
        ]

    detect_nan : (series : List (MetricPoint F)) (t : F) → ¬ IsNumber t → detect series t ≡ []
    unfolding detect
    detect_nan [] t n = refl
    detect_nan (x ∷ xs) t n = elim (Bool-cases (d.le t (d.lit 0 0))) [
      | inl e ↦ absurd (n (refl_of_le t (d.lit 0 0) e).0)
      | inr e ↦
          rw (effective_threshold-pos t e)
            (collect_nan (mean_of (x ∷ xs)) (std_dev_of (x ∷ xs)) t (x ∷ xs) n)
    ]

    -- Every anomaly is reported with the threshold in force, which its score reaches; the threshold
    -- in force is above zero unless it is NaN, and a threshold that is NaN reports nothing.
    pub detect_threshold :
        (series : List (MetricPoint F)) (t : F)
        → All (IsReportedAt (effective_threshold t)) (detect series t)
          × (IsNumber t → d.lit 0 0 ≼ effective_threshold t)
          × (¬ IsNumber t → detect series t ≡ [])
    detect_threshold series t =
        (detect-IsReportedAt series t, effective_threshold_nonneg t, detect_nan series t)
