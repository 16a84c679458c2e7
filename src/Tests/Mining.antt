-- ===== src/Tests/Mining.antt =====
-- The pattern miner on two correlations.
use mathlib.Core.List.{Mem}
use mirador_rca.Prelude.{◌≡◌, ◌≤◌, some, String, List, [], ◌∷◌, ◌++◌, All}
use mirador_rca.Prelude.Int.{pos}
use mirador_rca.Prelude.Outcome.{reply, ok}
use mirador_rca.Runtime.{in_order, in_order-IsRuntime}
use mirador_rca.Double.Fixed.{Fixed, fixed_double}
use mirador_rca.Model.{CorrelationResult, FailurePattern}
use mirador_rca.Miner.{Store, mine}
use mirador_rca.Miner.Totals.{mentions}
use mirador_rca.Miner.Patterns.{IsPattern, IsPatternOf, mine_lem}
use mirador_rca.Tests.Data.{anchors, timeline}

abbrev correlation : List String → CorrelationResult Fixed
correlation services = record {
  correlation_id = "corr-1";
  incident_id = "inc-1";
  root_cause = "checkout: logs:error anomaly";
  confidence = some (pos 500);
  affected_services = services;
  red_anchors = anchors;
  timeline = timeline;
  recommendations = [];
  created_at = pos 9;
}

abbrev correlations : List (CorrelationResult Fixed)
correlations = correlation ("checkout" ∷ "cart" ∷ []) ∷ correlation ("checkout" ∷ "" ∷ []) ∷ []

abbrev pattern_store : Store Fixed (List String)
pattern_store tenant_id patterns log = (reply tt, log ++ tenant_id ∷ [])

mine_lem_example :
    (patterns : List (FailurePattern Fixed)) × ((mine in_order
        (some pattern_store)
        "tenant"
        correlations
        []).0
      ≡ ok patterns)
    × All (IsPattern correlations) patterns
    × ((k : String)
        → 1 ≤ mentions k correlations
        → ∥ ((p : FailurePattern Fixed) × Mem p patterns × IsPatternOf correlations k p) ∥₁)
mine_lem_example = mine_lem in_order-IsRuntime (some pattern_store) "tenant" correlations []
