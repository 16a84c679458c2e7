-- ===== src/Miner.antt =====
-- internal/patterns/miner.go: the miner of failure patterns. A map is the list of its entries in the
-- order of insertion; where the program ranges over one, the runtime chooses the order.
pub mod Totals
pub mod Patterns
use mirador_rca.Prelude.{
  ℕ, zero, suc, ◌+◌, Bool, true, false, Option, none, some, String, List, [], ◌∷◌, ◌++◌, map, foldl,
  length, take, ltb, ◌==◌, str_eq, if◌then◌else◌,
}
use mirador_rca.Prelude.Int.{ℤ, pos}
use mirador_rca.Prelude.Text.{◌<>◌, codes, contains}
use mirador_rca.Prelude.Outcome.{Reply, reply, failure, Outcome, ok, Act}
use mirador_rca.Runtime.{Runtime}
use mirador_rca.Engine.Rules.{is_nil}
use mirador_rca.Double.{Double}
use mirador_rca.Model.{
  Time, zero_time, after, RedAnchor, CorrelationResult, AnchorTemplate, FailurePattern,
}

module _ {V : Type 0} where
  -- `m[key]`, with the value that a missing key has.
  pub find : V → String → List (String × V) → V
  find missing key [] = missing
  find missing key ((k, v) ∷ m) = if str_eq key k then v else find missing key m

  -- `m[key] = f(m[key])`
  pub update : V → String → (V → V) → List (String × V) → List (String × V)
  update missing key f [] = (key, f missing) ∷ []
  update missing key f ((k, v) ∷ m) =
      let rest = update missing key f m in if str_eq key k then (k, f v) ∷ m else (k, v) ∷ rest

  abbrev pub keys : List (String × V) → List String
  keys = map λ p. p.0

module _ (F : Type 0) where
  pub record ServiceAggregate : Type 0 where
    pub count : ℕ
    pub total_correlations : ℕ
    pub last_seen : Time
    pub anchor_counts : List (String × ℕ)
    pub anchor_scores : List (String × F)

  -- `Store`, as an action on the state `W` of what it writes to.
  abbrev pub Store : Type 0 → Type 0
  Store W = String → List (FailurePattern F) → W → Reply (Unit {0}) × W

abbrev pub Stats : Type 0 → Type 0
Stats F = List (String × ServiceAggregate F)

abbrev pub new_aggregate : {F : Type 0} → ServiceAggregate F
new_aggregate = record {
  count = 0;
  total_correlations = 0;
  last_seen = zero_time;
  anchor_counts = [];
  anchor_scores = [];
}

abbrev pub name_of : String → String
name_of service = if str_eq service "" then "unknown" else service

module _ {F : Type 0} where
  -- `ensureAggregate`, and what is done to the aggregate.
  pub with_aggregate : String → (ServiceAggregate F → ServiceAggregate F) → Stats F → Stats F
  with_aggregate service f stats = update new_aggregate (name_of service) f stats

  pub see : Time → ServiceAggregate F → ServiceAggregate F
  see created agg = if after created agg.last_seen then record agg { last_seen = created } else agg

  pub count_service : Time → Stats F → String → Stats F
  count_service created stats service =
      with_aggregate service (λ agg. see created (record agg { count = agg.count + 1 })) stats

  pub total_service : Stats F → String → Stats F
  total_service stats service =
      with_aggregate service (λ agg. record agg { total_correlations = agg.total_correlations + 1 })
        stats

module _ {F : Type 0} ⦃d : Double F⦄ where
  pub add_anchor : Time → RedAnchor F → ServiceAggregate F → ServiceAggregate F
  add_anchor created anchor agg =
      if str_eq anchor.selector ""
      then agg
      else see created (record agg {
        anchor_counts = update 0 anchor.selector (λ n. n + 1) agg.anchor_counts;
        anchor_scores =
            update (d.lit 0 0) anchor.selector (λ x. d.add x anchor.anomaly_score)
              agg.anchor_scores;
      })

  pub count_anchor : Time → Stats F → RedAnchor F → Stats F
  count_anchor created stats anchor =
      with_aggregate anchor.service (add_anchor created anchor) stats

  -- The three loops over one correlation.
  pub count_correlation : Stats F → CorrelationResult F → Stats F
  count_correlation stats corr =
      let counted = foldl (count_service corr.created_at) stats corr.affected_services in
      let anchored = foldl (count_anchor corr.created_at) counted corr.red_anchors in
      foldl total_service anchored corr.affected_services

  pub service_stats : List (CorrelationResult F) → Stats F
  service_stats correlations = foldl count_correlation [] correlations

unfoldable pub infer_signal_type : String → String
infer_signal_type selector =
    if contains (codes selector) (codes "log")
    then "logs"
    else if contains (codes selector) (codes "trace")
    then "traces"
    else "metrics"

-- The first selector is counted more often.
abbrev pub counted_more : {F : Type 0} → ServiceAggregate F → String → String → Bool
counted_more agg a b = ltb (find 0 b agg.anchor_counts) (find 0 a agg.anchor_counts)

module _ (r : Runtime) {F : Type 0} where
  -- `topSelectors`
  pub top_selectors : ServiceAggregate F → ℕ → List String
  top_selectors agg limit =
      let selectors = r.sort_slice (counted_more agg) (r.map_order (keys agg.anchor_counts)) in
      if ltb limit (length selectors) then take limit selectors else selectors

module _ {F : Type 0} ⦃d : Double F⦄ where
  unfoldable pub template_of : String → ServiceAggregate F → String → AnchorTemplate F
  template_of service agg selector = record {
    service = service;
    signal_type = infer_signal_type selector;
    selector = selector;
    typical_lag = d.lit 1 0;
    threshold =
        d.div (find (d.lit 0 0) selector agg.anchor_scores)
          (d.of_int (pos (find 0 selector agg.anchor_counts)));
  }

  abbrev pub more_prevalent : FailurePattern F → FailurePattern F → Bool
  more_prevalent a b = d.lt b.prevalence a.prevalence

module _ (r : Runtime) {F : Type 0} ⦃d : Double F⦄ where
  pub pattern_of : ℕ → String → ServiceAggregate F → FailurePattern F
  pattern_of n service agg = record {
    id = "pattern-" <> service;
    name = service <> " hotspot";
    description = "Auto-mined pattern based on historical anomalies";
    services = service ∷ [];
    anchor_templates = map (template_of service agg) (top_selectors r agg 3);
    prevalence = d.div (d.of_int (pos agg.count)) (d.of_int (pos n));
    last_seen = agg.last_seen;
    precision = d.lit 5 1;
    recall = d.lit 5 1;
  }

  -- The loop over the map: a service that no correlation affects has no pattern.
  pub patterns_from : ℕ → Stats F → List String → List (FailurePattern F)
  patterns_from n stats [] = []
  patterns_from n stats (service ∷ services) =
      let agg = find new_aggregate service stats in
      let rest = patterns_from n stats services in
      if agg.total_correlations == 0 then rest else pattern_of n service agg ∷ rest

  pub patterns_of : List (CorrelationResult F) → List (FailurePattern F)
  patterns_of correlations =
      let stats = service_stats correlations in
      r.sort_slice more_prevalent
        (patterns_from (length correlations) stats (r.map_order (keys stats)))

  -- `Mine`; a failure of the store is only logged.
  pub mine :
      {W : Type 0}
      → Option (Store F W)
      → String
      → List (CorrelationResult F)
      → Act W (List (FailurePattern F))
  mine store tenant_id [] w = (ok [], w)
  mine store tenant_id (c ∷ cs) w =
      let patterns = patterns_of (c ∷ cs) in
      elim store [
        | none ↦ (ok patterns, w)
        | some store_patterns ↦
            if is_nil patterns
            then (ok patterns, w)
            else (ok patterns, (store_patterns tenant_id patterns w).1)
      ]
