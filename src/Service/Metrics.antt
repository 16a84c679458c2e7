-- ===== src/Service/Metrics.antt =====
-- internal/metrics/metrics.go: the counter of investigations and the histogram of their durations, as
-- the numbers that they are fed with.
use mirador_rca.Prelude.{ℕ, ◌+◌, String, List, [], ◌∷◌, ◌++◌, str_eq, if◌then◌else◌}
use mirador_rca.Prelude.Int.{pos, ltb_ℤ}
use mirador_rca.Prelude.Outcome.{Reply, reply, failure}
use mirador_rca.Model.{Duration}

abbrev pub outcome_success : String
outcome_success = "success"

abbrev pub outcome_error : String
outcome_error = "error"

pub record InvestigationMetrics : Type 0 where
  pub successes : ℕ
  pub errors : ℕ
  pub durations : List Duration

-- `ObserveInvestigation`: any label but "error" counts as a success.
unfoldable pub observe_investigation :
    Duration → String → InvestigationMetrics → InvestigationMetrics
observe_investigation duration outcome m =
    let failed = str_eq outcome outcome_error in
    record {
      successes = if failed then m.successes else m.successes + 1;
      errors = if failed then m.errors + 1 else m.errors;
      durations = m.durations ++ (if ltb_ℤ duration (pos 0) then pos 0 else duration) ∷ [];
    }

-- What the registerer says to a collector: it is new, it was there already, or an error.
pub data Registered : Type 0 where
  registered : Registered
  already_registered : Registered
  not_registered : String → Registered

unfoldable pub register_next :
    {W : Type 0} → (W → Reply (Unit {0}) × W) → Registered × W → Reply (Unit {0}) × W
register_next more (registered, w) = more w
register_next more (already_registered, w) = more w
register_next more (not_registered e, w) = (failure e, w)

-- The loop of `Register` over the collectors.
unfoldable pub register_each :
    {W C : Type 0} → (C → W → Registered × W) → List C → W → Reply (Unit {0}) × W
register_each register [] w = (reply tt, w)
register_each register (c ∷ collectors) w =
    register_next (register_each register collectors) (register c w)
