-- ===== src/Service/Handlers.antt =====
-- internal/services/rca_service.go: the handlers. Each is an action on the state of the service: what
-- lies outside, the latencies and the metrics.
use mirador_rca.Prelude.{ℕ, ◌%◌, Bool, ◌&&◌, Option, none, some, String, List, leb, ◌==◌}
use mirador_rca.Prelude.Int.{pos}
use mirador_rca.Prelude.Text.{◌<>◌}
use mirador_rca.Prelude.Outcome.{Reply, reply, failure, Outcome, ok, err, panic}
use mirador_rca.Runtime.{Runtime}
use mirador_rca.Double.{Double}
use mirador_rca.Model.{
  Time, Duration, ListCorrelationsRequest, ListCorrelationsResponse, Feedback, FailurePattern,
  CorrelationResult,
}
use mirador_rca.Latency.{LatencyTracker, new_latency_tracker, observe, percentile}
use mirador_rca.Engine.Pipeline.{Pipeline, investigate}
use mirador_rca.Engine.Pipeline.Assemble.{Clock}
use mirador_rca.Service.Messages.{
  parsed, invalid, ProtoInvestigation, ProtoCorrelation, ProtoListRequest, ProtoListResponse,
  ProtoFeedback, ProtoPattern, from_proto_investigation, from_proto_list, from_proto_feedback,
  to_proto_correlation, to_proto_list, to_proto_patterns,
}
use mirador_rca.Service.Metrics.{
  InvestigationMetrics, observe_investigation, outcome_success, outcome_error,
}

pub data Code : Type 0 where
  invalid_argument : Code
  failed_precondition : Code
  internal : Code

-- An answer, an error with its code, or a panic.
pub data Status (A : Type 0) : Type 0 where
  served : A → Status A
  rejected : Code → String → Status A
  aborted : Status A

module _ (W F : Type 0) where
  -- `CorrelationPatternRepo`
  pub record HistoryRepo : Type 0 where
    pub list_correlations : ListCorrelationsRequest → W → Reply (ListCorrelationsResponse F) × W
    pub fetch_patterns : String → String → W → Reply (List (FailurePattern F)) × W
    pub store_feedback : Feedback → W → Reply (Unit {0}) × W

  pub record RcaService : Type 0 where
    pub pipeline : Option (Pipeline W F)
    pub history : Option HistoryRepo

-- What the handlers change.
pub record ServiceState (W : Type 0) : Type 0 where
  pub world : W
  pub latencies : LatencyTracker
  pub metrics : InvestigationMetrics

abbrev pub Handler : Type 0 → Type 0 → Type 0
Handler W A = ServiceState W → Status A × ServiceState W

-- `NewRCAService`
abbrev pub tracker_size : ℕ
tracker_size = 1024

unfoldable pub new_latencies : LatencyTracker
new_latencies = new_latency_tracker (pos tracker_size)

-- Whether the handler logs the latencies, after this many samples.
unfoldable pub reports_latency : ℕ → Bool
reports_latency n = leb 20 n && n % 20 == 0

-- A failure of a repository comes out under one text.
abbrev pub respond :
    {W A B : Type 0} → String → (A → B) → ServiceState W → Reply A × W → Status B × ServiceState W
respond context f st (reply a, w) = (served (f a), record st { world = w })
respond context f st (failure e, w) = (rejected internal context, record st { world = w })

module _ (r : Runtime) {W F : Type 0} ⦃d : Double F⦄ where
  -- What comes of an investigation: the metrics count it, and the latency of a success is observed.
  unfoldable pub conclude_investigation :
      Duration
      → ServiceState W
      → Outcome (CorrelationResult F) × W
      → Status (ProtoCorrelation F) × ServiceState W
  conclude_investigation duration st (ok result, w) = (
    served (to_proto_correlation result),
    record {
      world = w;
      latencies = observe st.latencies duration;
      metrics = observe_investigation duration outcome_success st.metrics;
    },
  )
  conclude_investigation duration st (err e, w) = (
    rejected internal ("investigation failed: " <> e),
    record st { world = w; metrics = observe_investigation duration outcome_error st.metrics },
  )
  conclude_investigation duration st (panic, w) = (aborted, record st { world = w })

  -- `InvestigateIncident`; `duration` is how long the investigation takes.
  unfoldable pub investigate_incident :
      Clock
      → Duration
      → RcaService W F
      → Option (ProtoInvestigation F)
      → Handler W (ProtoCorrelation F)
  investigate_incident clock duration service none st =
      (rejected invalid_argument "request cannot be nil", st)
  investigate_incident clock duration service (some req) st = elim service.pipeline [
    | none ↦ (rejected failed_precondition "pipeline not configured", st)
    | some pipeline ↦ elim (from_proto_investigation (some req)) [
      | invalid e ↦ (rejected invalid_argument e, st)
      | parsed domain_req ↦
          conclude_investigation duration st (investigate r clock pipeline domain_req st.world)
    ]
  ]

-- `LatencyP95`, over the floats `F`; `none` is an index out of range.
unfoldable pub latency_p95 :
    Runtime → (F : Type 0) ⦃d : Double F⦄ → {W : Type 0} → ServiceState W → Option Duration
latency_p95 r F ⦃d⦄ st = percentile r {F = F} st.latencies (d.lit 95 0)

module _ {W F : Type 0} where
  -- `ListCorrelations`
  unfoldable pub list_correlations :
      RcaService W F → Option ProtoListRequest → Handler W (ProtoListResponse F)
  list_correlations service none st = (rejected invalid_argument "request cannot be nil", st)
  list_correlations service (some req) st = elim service.history [
    | none ↦ (rejected failed_precondition "history repository not configured", st)
    | some repo ↦ elim (from_proto_list (some req)) [
      | invalid e ↦ (rejected invalid_argument e, st)
      | parsed domain_req ↦
          respond "failed to list correlations" to_proto_list st
            (repo.list_correlations domain_req st.world)
    ]
  ]

  -- `GetPatterns`, with the tenant and the service of its request.
  unfoldable pub get_patterns :
      RcaService W F → Option (String × String) → Handler W (List (ProtoPattern F))
  get_patterns service none st = (rejected invalid_argument "request cannot be nil", st)
  get_patterns service (some req) st = elim service.history [
    | none ↦ (rejected failed_precondition "pattern repository not configured", st)
    | some repo ↦
        respond "failed to fetch patterns" to_proto_patterns st
          (repo.fetch_patterns req.0 req.1 st.world)
  ]

  -- `SubmitFeedback`: the identifier that is acknowledged. `now` is what the clock says.
  unfoldable pub submit_feedback : Time → RcaService W F → Option ProtoFeedback → Handler W String
  submit_feedback now service none st = (rejected invalid_argument "request cannot be nil", st)
  submit_feedback now service (some req) st = elim service.history [
    | none ↦ (rejected failed_precondition "feedback repository not configured", st)
    | some repo ↦ elim (from_proto_feedback now (some req)) [
      | invalid e ↦ (rejected invalid_argument e, st)
      | parsed feedback ↦
          respond "failed to persist feedback" (λ u. feedback.correlation_id) st
            (repo.store_feedback feedback st.world)
    ]
  ]

-- `HealthCheck`, for any request.
abbrev pub health_check : {W : Type 0} → Handler W String
health_check st = (served "SERVING", st)
