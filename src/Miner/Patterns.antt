-- ===== src/Miner/Patterns.antt =====
-- internal/patterns/miner.go, `Mine`: which patterns come out.
use mathlib.Core.Logic.{∥∥₁_prop}
use mathlib.Core.Logic.Or
use mathlib.Core.List.{Mem, mem-cons, mem-cons_self, mem-cons_of_mem, not-mem-nil, Mem-prop}
use mathlib.Core.List.Perm
use mathlib.Core.Path.{subst}
use mirador_rca.Prelude.{
  ℕ, ◌≤◌, ◌≡◌, refl, sym, ap, false, Option, none, some, String, List, [], ◌∷◌, length, length-map,
  length-take, take, ltb, ◌==◌, str_eq, str_eq_iff, if◌then◌else◌, arith, All, All-perm, Bool-cases,
  inl, inr,
}
use mirador_rca.Prelude.Int.{pos}
use mirador_rca.Prelude.Outcome.{ok}
use mirador_rca.Runtime.{Runtime, IsRuntime}
use mirador_rca.Double.{Double}
use mirador_rca.Engine.Rules.{is_nil}
use mirador_rca.Model.{CorrelationResult, FailurePattern}
use mirador_rca.Miner.{
  find, keys, counted_more, Stats, Store, new_aggregate, ServiceAggregate, service_stats,
  top_selectors, template_of, pattern_of, patterns_from, more_prevalent, patterns_of, mine,
}
use mirador_rca.Miner.Totals.{mentions, service_stats_lem}

module _ {F : Type 0} ⦃d : Double F⦄ (correlations : List (CorrelationResult F)) where
  -- A pattern of the service `k`: the service is affected, and its share of mentions is the prevalence.
  pub record IsPatternOf (k : String) (p : FailurePattern F) : Type 0 where
    pub service : p.services ≡ k ∷ []
    pub affected : 1 ≤ mentions k correlations
    pub share :
        p.prevalence
        ≡ d.div (d.of_int (pos (mentions k correlations))) (d.of_int (pos (length correlations)))
    pub few_templates : length p.anchor_templates ≤ 3

  abbrev pub IsPattern : FailurePattern F → Type 0
  IsPattern p = ∥ ((k : String) × IsPatternOf k p) ∥₁

module _ (r : Runtime) {F : Type 0} ⦃d : Double F⦄ where
  top_selectors-few : (agg : ServiceAggregate F) (n : ℕ) → length (top_selectors r agg n) ≤ n
  unfolding top_selectors
  top_selectors-few agg n =
      go (r.sort_slice (counted_more agg) (r.map_order (keys agg.anchor_counts)))
    where
      go : (l : List String) → length (if ltb n (length l) then take n l else l) ≤ n
      go l = elim (Bool-cases (ltb n (length l))) [
        | inl more ↦ rw more (omega (arith, length-take n l))
        | inr fits ↦ rw fits (ground arith)
      ]

  pattern_of-IsPatternOf :
      (correlations : List (CorrelationResult F)) (k : String)
      → let agg = find new_aggregate k (service_stats correlations) in
        1 ≤ agg.total_correlations
        → IsPatternOf correlations k (
            pattern_of r
              (length correlations)
              k
              (find new_aggregate k (service_stats correlations)))
  unfolding pattern_of
  pattern_of-IsPatternOf correlations k h =
      let agg = find new_aggregate k (service_stats correlations) in
      let (counted, totalled) = service_stats_lem k correlations in
      record {
        service = refl;
        affected = omega (arith, totalled);
        share = ap (λ n. d.div (d.of_int (pos n)) (d.of_int (pos (length correlations)))) counted;
        few_templates = omega (
          arith,
          length-map (top_selectors r agg 3) (template_of k agg),
          top_selectors-few agg 3,
        );
      }

  patterns_from-IsPattern :
      (correlations : List (CorrelationResult F)) (ks : List String)
      → All
          (IsPattern correlations)
          (patterns_from r (length correlations) (service_stats correlations) ks)
  unfolding patterns_from
  patterns_from-IsPattern correlations [] = tt
  patterns_from-IsPattern correlations (k ∷ ks) =
      let rest = patterns_from-IsPattern correlations ks in
      elim (Bool-cases
        ((find new_aggregate k (service_stats correlations)).total_correlations == 0)) [
          | inl unaffected ↦ rw unaffected rest
          | inr affected ↦
              rw affected (∣ (k, pattern_of-IsPatternOf correlations k (ground arith)) ∣₁, rest)
        ]

  patterns_from-mem :
      (n : ℕ) (stats : Stats F) (k : String) (ks : List String)
      → 1 ≤ (find new_aggregate k stats).total_correlations
      → Mem k ks
      → Mem (pattern_of r n k (find new_aggregate k stats)) (patterns_from r n stats ks)
  unfolding patterns_from
  patterns_from-mem n stats k [] h m = absurd (not-mem-nil m)
  patterns_from-mem n stats k (x ∷ ks) h m =
      Or.elim Mem-prop (mem-cons.0 m)
        (λ same.
          subst
            (λ y.
              Mem (pattern_of r n k (find new_aggregate k stats))
                (patterns_from r n stats (y ∷ ks)))
            same first)
        (λ later. elim (Bool-cases ((find new_aggregate x stats).total_correlations == 0)) [
          | inl skipped ↦ rw skipped (patterns_from-mem n stats k ks h later)
          | inr taken ↦ rw taken (
              mem-cons_of_mem (pattern_of r n x (find new_aggregate x stats))
                (patterns_from-mem n stats k ks h later))
        ])
    where
      counts : ((find new_aggregate k stats).total_correlations == 0) ≡ false
      counts = ground arith

      first : Mem (pattern_of r n k (find new_aggregate k stats)) (patterns_from r n stats (k ∷ ks))
      first = rw counts mem-cons_self

find-mem :
    {F : Type 0} (k : String) (stats : Stats F)
    → 1 ≤ (find new_aggregate k stats).total_correlations
    → Mem k (keys stats)
unfolding find
find-mem k [] h = absurd (omega arith)
find-mem k ((k0, v) ∷ m) h = elim (Bool-cases (str_eq k k0)) [
  | inl here ↦ subst (λ x. Mem x (k0 ∷ keys m)) (sym ((str_eq_iff k k0).0 here)) mem-cons_self
  | inr later ↦ mem-cons_of_mem k0 (find-mem k m (rw later at h))
]

module _ {r : Runtime} (runs : IsRuntime r) {F : Type 0} ⦃d : Double F⦄ where
  mine_ok :
      {W : Type 0} (store : Option (Store F W)) (tenant_id : String) (c : CorrelationResult F)
      (cs : List (CorrelationResult F)) (w : W)
      → (mine r store tenant_id (c ∷ cs) w).0 ≡ ok (patterns_of r (c ∷ cs))
  unfolding mine
  mine_ok none tenant_id c cs w = refl
  mine_ok (some f) tenant_id c cs w = elim (Bool-cases (is_nil (patterns_of r (c ∷ cs)))) [
    | inl e ↦ rw e
    | inr e ↦ rw e
  ]

  patterns_of-IsPattern :
      (correlations : List (CorrelationResult F))
      → All (IsPattern correlations) (patterns_of r correlations)
  unfolding patterns_of
  patterns_of-IsPattern correlations =
      All-perm (IsPattern correlations) (λ p. ∥∥₁_prop)
        (Perm.symm (runs.sort_slice-perm more_prevalent _))
        (patterns_from-IsPattern r correlations (r.map_order (keys (service_stats correlations))))

  patterns_of-mem :
      (correlations : List (CorrelationResult F)) (k : String)
      → 1 ≤ mentions k correlations
      → ∥ (
          (p : FailurePattern F) × Mem p (patterns_of r correlations)
          × IsPatternOf correlations k p) ∥₁
  unfolding patterns_of
  patterns_of-mem correlations k h =
      let stats = service_stats correlations in
      let total : 1 ≤ (find new_aggregate k stats).total_correlations =
        omega (arith, (service_stats_lem k correlations).1) in
      ∣ (
        pattern_of r (length correlations) k (find new_aggregate k stats),
        (Perm.mem_iff (runs.sort_slice-perm more_prevalent _)).1 (
            patterns_from-mem r (length correlations) stats k (r.map_order (keys stats)) total
              ((Perm.mem_iff (runs.map_order-perm (keys stats))).1 (find-mem k stats total))),
        pattern_of-IsPatternOf r correlations k total,
      ) ∣₁

  -- For any correlations and whatever the store does, `Mine` returns patterns and no error: each is the
  -- pattern of one service that the correlations name as affected, with the share of its mentions as
  -- prevalence and at most three templates, and every such service has one.
  pub mine_lem :
      {W : Type 0} (store : Option (Store F W)) (tenant_id : String)
      (correlations : List (CorrelationResult F)) (w : W)
      → (patterns : List (FailurePattern F)) × ((mine r store tenant_id correlations w).0
          ≡ ok patterns)
        × All (IsPattern correlations) patterns
        × ((k : String)
            → 1 ≤ mentions k correlations
            → ∥ ((p : FailurePattern F) × Mem p patterns × IsPatternOf correlations k p) ∥₁)
  unfolding mine mentions
  mine_lem store tenant_id [] w = ([], refl, tt, λ k h. absurd (omega arith))
  mine_lem store tenant_id (c ∷ cs) w = (
    patterns_of r (c ∷ cs),
    mine_ok store tenant_id c cs w,
    patterns_of-IsPattern (c ∷ cs),
    patterns_of-mem (c ∷ cs),
  )
