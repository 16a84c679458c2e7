-- ===== src/Miner/Totals.antt =====
-- internal/patterns/miner.go, the loops of `Mine` over the correlations: what the aggregates count.
use mathlib.Core.Path.{subst}
use mirador_rca.Prelude.{
  ℕ, ◌+◌, ◌≡◌, refl, sym, ap, ◌∙◌, false, String, List, [], ◌∷◌, foldl, str_eq, str_eq_iff,
  if◌then◌else◌, arith, Bool-cases, inl, inr,
}
use mirador_rca.Double.{Double}
use mirador_rca.Model.{Time, after, RedAnchor, CorrelationResult}
use mirador_rca.Miner.{
  find, update, ServiceAggregate, Stats, new_aggregate, name_of, with_aggregate, see, count_service,
  total_service, add_anchor, count_anchor, count_correlation, service_stats,
}

module _ {V : Type 0} (missing : V) (f : V → V) where
  find-update-same :
      (k : String) (m : List (String × V))
      → find missing k (update missing k f m) ≡ f (find missing k m)
  unfolding find update
  find-update-same k [] = ground (arith, str_eq_iff k k)
  find-update-same k ((k0, v) ∷ m) = elim (Bool-cases (str_eq k k0)) [
    | inl here ↦ rw (here, here)
    | inr later ↦ rw (later, later) (find-update-same k m)
  ]

  find-update-other :
      (k k' : String) (m : List (String × V))
      → str_eq k k' ≡ false
      → find missing k (update missing k' f m) ≡ find missing k m
  unfolding find update
  find-update-other k k' [] h = rw h
  find-update-other k k' ((k0, v) ∷ m) h = elim (Bool-cases (str_eq k' k0)) [
    | inl here ↦
        let other : str_eq k k0 ≡ false =
          subst (λ x. str_eq k x ≡ false) ((str_eq_iff k' k0).0 here) h in
        rw (here, other)
    | inr later ↦ rw later (elim (Bool-cases (str_eq k k0)) [
      | inl found ↦ rw found
      | inr other ↦ rw other (find-update-other k k' m h)
    ])
  ]

-- How often a service is named in a list, a name that is missing counting as "unknown".
pub occurrences : String → List String → ℕ
occurrences k [] = 0
occurrences k (s ∷ ss) = (if str_eq k (name_of s) then 1 else 0) + occurrences k ss

-- How often the correlations name it as affected.
unfoldable pub mentions : {F : Type 0} → String → List (CorrelationResult F) → ℕ
mentions k [] = 0
mentions k (c ∷ cs) = occurrences k c.affected_services + mentions k cs

module _ {F : Type 0} (μ : ServiceAggregate F → ℕ) where
  -- The measure of a service's aggregate.
  abbrev at : String → Stats F → ℕ
  at k stats = μ (find new_aggregate k stats)

  with_aggregate-same :
      (s : String) (f : ServiceAggregate F → ServiceAggregate F)
      → ((agg : ServiceAggregate F) → μ (f agg) ≡ μ agg)
      → (k : String) (stats : Stats F) → at k (with_aggregate s f stats) ≡ at k stats
  unfolding with_aggregate
  with_aggregate-same s f h k stats = elim (Bool-cases (str_eq k (name_of s))) [
    | inr other ↦ ap μ (find-update-other new_aggregate f k (name_of s) stats other)
    | inl same ↦
        subst (λ x. at x (update new_aggregate (name_of s) f stats) ≡ at x stats)
          (sym ((str_eq_iff _ _).0 same))
          (ap μ (find-update-same new_aggregate f (name_of s) stats) ∙ h _)
  ]

  with_aggregate-more :
      (s : String) (f : ServiceAggregate F → ServiceAggregate F)
      → ((agg : ServiceAggregate F) → μ (f agg) ≡ μ agg + 1)
      → (k : String) (stats : Stats F)
      → at k (with_aggregate s f stats) ≡ at k stats + (if str_eq k (name_of s) then 1 else 0)
  unfolding with_aggregate
  with_aggregate-more s f h k stats = elim (Bool-cases (str_eq k (name_of s))) [
    | inr other ↦
        rw other (ap μ (find-update-other new_aggregate f k (name_of s) stats other) ∙ ground arith)
    | inl same ↦ rw same (
        subst (λ x. at x (update new_aggregate (name_of s) f stats) ≡ at x stats + 1)
          (sym ((str_eq_iff _ _).0 same))
          (ap μ (find-update-same new_aggregate f (name_of s) stats) ∙ h _))
  ]

  -- A loop whose steps keep the measure, and one whose steps add one for each service that is named.
  foldl-same :
      {A : Type 0} (step : Stats F → A → Stats F)
      → ((k : String) (stats : Stats F) (x : A) → at k (step stats x) ≡ at k stats)
      → (k : String) (stats : Stats F) (l : List A) → at k (foldl step stats l) ≡ at k stats
  foldl-same step h k stats [] = refl
  foldl-same step h k stats (x ∷ l) = foldl-same step h k (step stats x) l ∙ h k stats x

  foldl-more :
      (step : Stats F → String → Stats F)
      → ((k : String) (stats : Stats F) (s : String)
          → at k (step stats s) ≡ at k stats + (if str_eq k (name_of s) then 1 else 0))
      → (k : String) (stats : Stats F) (l : List String)
      → at k (foldl step stats l) ≡ at k stats + occurrences k l
  unfolding occurrences
  foldl-more step h k stats [] = omega arith
  foldl-more step h k stats (s ∷ l) =
      omega (arith, foldl-more step h k (step stats s) l, h k stats s)

module _ {F : Type 0} ⦃d : Double F⦄ where
  see-count : (created : Time) (agg : ServiceAggregate F) → (see created agg).count ≡ agg.count
  unfolding see
  see-count created agg = elim (Bool-cases (after created agg.last_seen)) [
    | inl e ↦ rw e
    | inr e ↦ rw e
  ]

  see-total :
      (created : Time) (agg : ServiceAggregate F)
      → (see created agg).total_correlations ≡ agg.total_correlations
  unfolding see
  see-total created agg = elim (Bool-cases (after created agg.last_seen)) [
    | inl e ↦ rw e
    | inr e ↦ rw e
  ]

  add_anchor-count :
      (created : Time) (anchor : RedAnchor F) (agg : ServiceAggregate F)
      → (add_anchor created anchor agg).count ≡ agg.count
  unfolding add_anchor
  add_anchor-count created anchor agg = elim (Bool-cases (str_eq anchor.selector "")) [
    | inl e ↦ rw e
    | inr e ↦ rw e (see-count created _)
  ]

  add_anchor-total :
      (created : Time) (anchor : RedAnchor F) (agg : ServiceAggregate F)
      → (add_anchor created anchor agg).total_correlations ≡ agg.total_correlations
  unfolding add_anchor
  add_anchor-total created anchor agg = elim (Bool-cases (str_eq anchor.selector "")) [
    | inl e ↦ rw e
    | inr e ↦ rw e (see-total created _)
  ]

  -- The numbers of a service's aggregate.
  abbrev count_at : String → Stats F → ℕ
  count_at k stats = (find new_aggregate k stats).count

  abbrev total_at : String → Stats F → ℕ
  total_at k stats = (find new_aggregate k stats).total_correlations

  count_correlation-count :
      (k : String) (stats : Stats F) (c : CorrelationResult F)
      → count_at k (count_correlation stats c)
        ≡ count_at k stats + occurrences k c.affected_services
  unfolding count_correlation count_service count_anchor total_service
  count_correlation-count k stats c =
      foldl-same (λ agg. agg.count) total_service
        (λ k' s x. with_aggregate-same (λ agg. agg.count) x _ (λ agg. refl) k' s) k _
        c.affected_services
      ∙ foldl-same (λ agg. agg.count) (count_anchor c.created_at)
          (λ k' s x.
            with_aggregate-same (λ agg. agg.count) x.service _ (add_anchor-count c.created_at x) k'
              s)
          k _ c.red_anchors
      ∙ foldl-more (λ agg. agg.count) (count_service c.created_at)
          (λ k' s x.
            with_aggregate-more (λ agg. agg.count) x _ (λ agg. see-count c.created_at _) k' s)
          k stats c.affected_services

  count_correlation-total :
      (k : String) (stats : Stats F) (c : CorrelationResult F)
      → total_at k (count_correlation stats c)
        ≡ total_at k stats + occurrences k c.affected_services
  unfolding count_correlation count_service count_anchor total_service
  count_correlation-total k stats c =
      foldl-more (λ agg. agg.total_correlations) total_service
        (λ k' s x. with_aggregate-more (λ agg. agg.total_correlations) x _ (λ agg. refl) k' s) k _
        c.affected_services
      ∙ ap (λ n. n + occurrences k c.affected_services)
          (foldl-same (λ agg. agg.total_correlations) (count_anchor c.created_at)
              (λ k' s x.
                with_aggregate-same (λ agg. agg.total_correlations) x.service _
                  (add_anchor-total c.created_at x) k' s)
              k _ c.red_anchors
            ∙ foldl-same (λ agg. agg.total_correlations) (count_service c.created_at)
                (λ k' s x.
                  with_aggregate-same (λ agg. agg.total_correlations) x _
                    (λ agg. see-total c.created_at _) k' s)
                k stats c.affected_services)

  foldl-mentions :
      (k : String) (stats : Stats F) (cs : List (CorrelationResult F))
      → (count_at k (foldl count_correlation stats cs) ≡ count_at k stats + mentions k cs)
        × (total_at k (foldl count_correlation stats cs) ≡ total_at k stats + mentions k cs)
  unfolding mentions
  foldl-mentions k stats [] = (omega arith, omega arith)
  foldl-mentions k stats (c ∷ cs) =
      let (counted, totalled) = foldl-mentions k (count_correlation stats c) cs in
      (
        omega (arith, counted, count_correlation-count k stats c),
        omega (arith, totalled, count_correlation-total k stats c),
      )

  -- Both numbers of a service's aggregate are how often the correlations name the service as affected.
  pub service_stats_lem :
      (k : String) (correlations : List (CorrelationResult F))
      → ((find new_aggregate k (service_stats correlations)).count ≡ mentions k correlations)
        × ((find new_aggregate k (service_stats correlations)).total_correlations
            ≡ mentions k correlations)
  unfolding service_stats find
  service_stats_lem k correlations =
      let (counted, totalled) = foldl-mentions k [] correlations in
      (omega (arith, counted), omega (arith, totalled))
