-- ===== src/Service/Concurrent.antt =====
-- internal/services/rca_service.go, `InvestigateIncident` as it runs in many goroutines at once: each call
-- of a tracker or of the metrics is one step, and between two steps of a handler others may take theirs.
pub mod Moves
pub mod Durations
pub mod Counting
pub mod Alone
use mirador_rca.Prelude.{◌≡◌, true, false, Option, none, some, String, List, [], ◌∷◌, ◌++◌}
use mirador_rca.Prelude.Text.{◌<>◌}
use mirador_rca.Model.{Duration, CorrelationResult}
use mirador_rca.Latency.{LatencyTracker, observe, count}
use mirador_rca.Service.Messages.{
  ProtoInvestigation, ProtoCorrelation, parsed, invalid, from_proto_investigation,
  to_proto_correlation,
}
use mirador_rca.Service.Metrics.{
  InvestigationMetrics, observe_investigation, outcome_success, outcome_error,
}
use mirador_rca.Service.Handlers.{
  Code, invalid_argument, failed_precondition, internal, Status, served, rejected, RcaService,
  new_latencies, reports_latency,
}

-- Where a handler is, with the variables that it still needs: it was called, the pipeline has answered or
-- failed, the latency is observed, the success is counted, the latencies are to be logged, or it is over.
pub data Phase (F : Type 0) : Type 0 where
  called : Option (ProtoInvestigation F) → Phase F
  answered : Duration → CorrelationResult F → Phase F
  broke : Duration → String → Phase F
  observed : Duration → CorrelationResult F → Phase F
  counted : CorrelationResult F → Phase F
  logging : CorrelationResult F → Phase F
  over : Status (ProtoCorrelation F) → Phase F

-- What the handlers share.
pub record Shared : Type 0 where
  pub latencies : LatencyTracker
  pub metrics : InvestigationMetrics

abbrev pub fresh : Shared
fresh = record {
  latencies = new_latencies;
  metrics = record { successes = 0; errors = 0; durations = [] };
}

module _ {W F : Type 0} (service : RcaService W F) where
  -- The tests before the pipeline is asked.
  unfoldable pub refusal : Option (ProtoInvestigation F) → Option (Code × String)
  refusal none = some (invalid_argument, "request cannot be nil")
  refusal (some req) = elim service.pipeline [
    | none ↦ some (failed_precondition, "pipeline not configured")
    | some pipeline ↦ elim (from_proto_investigation (some req)) [
      | invalid e ↦ some (invalid_argument, e)
      | parsed domain_req ↦ none
    ]
  ]

  -- A step of one handler. What the pipeline answers, and how long it takes, is left open.
  pub data Move : Phase F → Shared → Phase F → Shared → Type 0 where
    refuse :
        {req : Option (ProtoInvestigation F)} {m : Shared} {code : Code} {message : String}
        → refusal req ≡ some (code, message)
        → Move (called req) m (over (rejected code message)) m
    pipeline_answers :
        {req : Option (ProtoInvestigation F)} {m : Shared} {duration : Duration}
        {result : CorrelationResult F}
        → refusal req ≡ none
        → Move (called req) m (answered duration result) m
    pipeline_fails :
        {req : Option (ProtoInvestigation F)} {m : Shared} {duration : Duration} {e : String}
        → refusal req ≡ none
        → Move (called req) m (broke duration e) m
    count_error :
        {m : Shared} {duration : Duration} {e : String}
        → Move
            (broke duration e)
            m
            (over (rejected internal ("investigation failed: " <> e)))
            (record m { metrics = observe_investigation duration outcome_error m.metrics })
    observe_latency :
        {m : Shared} {duration : Duration} {result : CorrelationResult F}
        → Move
            (answered duration result)
            m
            (observed duration result)
            (record m { latencies = observe m.latencies duration })
    count_success :
        {m : Shared} {duration : Duration} {result : CorrelationResult F}
        → Move
            (observed duration result)
            m
            (counted result)
            (record m { metrics = observe_investigation duration outcome_success m.metrics })
    is_twentieth :
        {m : Shared} {result : CorrelationResult F}
        → reports_latency (count m.latencies) ≡ true
        → Move (counted result) m (logging result) m
    respond :
        {m : Shared} {result : CorrelationResult F}
        → reports_latency (count m.latencies) ≡ false
        → Move (counted result) m (over (served (to_proto_correlation result))) m
    log_latency :
        {m : Shared} {result : CorrelationResult F}
        → Move (logging result) m (over (served (to_proto_correlation result))) m

  -- A request comes in, or a handler takes a step.
  pub data Step : List (Phase F) → Shared → List (Phase F) → Shared → Type 0 where
    arrives :
        {ps : List (Phase F)} {m : Shared} {req : Option (ProtoInvestigation F)}
        → Step ps m (called req ∷ ps) m
    moves :
        (before after : List (Phase F)) {p p' : Phase F} {m m' : Shared}
        → Move p m p' m'
        → Step (before ++ p ∷ after) m (before ++ p' ∷ after) m'

  pub data Reach : List (Phase F) → Shared → Type 0 where
    start : Reach [] fresh
    later : {ps ps' : List (Phase F)} {m m' : Shared} → Reach ps m → Step ps m ps' m' → Reach ps' m'
