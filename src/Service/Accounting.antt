-- ===== src/Service/Accounting.antt =====
-- internal/services/rca_service.go, `InvestigateIncident`: every investigation is counted once.
use mirador_rca.Prelude.{
  ◌+◌, ◌≡◌, ◌≢◌, refl, Option, none, some, String, arith, inl, inr, Option-cases,
}
use mirador_rca.Prelude.Outcome.{Outcome, ok, err, panic}
use mirador_rca.Runtime.{Runtime, IsRuntime}
use mirador_rca.Double.{Double, IsDouble}
use mirador_rca.Model.{Duration, InvestigationRequest, CorrelationResult}
use mirador_rca.Latency.{observe}
use mirador_rca.Engine.Pipeline.{Pipeline, investigate}
use mirador_rca.Engine.Pipeline.Assemble.{Clock}
use mirador_rca.Engine.Pipeline.Investigate.{investigate_lem, investigate-none}
use mirador_rca.Service.Messages.{
  Parsed, parsed, invalid, ProtoInvestigation, ProtoCorrelation, from_proto_investigation,
  to_proto_correlation,
}
use mirador_rca.Service.Metrics.{InvestigationMetrics, observe_investigation}
use mirador_rca.Service.Handlers.{
  Code, invalid_argument, failed_precondition, internal, Status, served, rejected, RcaService,
  ServiceState, conclude_investigation, investigate_incident,
}

module _ {W F : Type 0} (duration : Duration) (st : ServiceState W) where
  -- How a request can end: refused for what it asks or how the service is set up, with no effect; or
  -- failed, which counts one error; or answered, which counts one success and observes the latency.
  pub data Accounted : Status (ProtoCorrelation F) × ServiceState W → Type 0 where
    refused :
        {code : Code} {message : String} → code ≢ internal → Accounted (rejected code message, st)
    failed :
        {message : String} {w : W} {m : InvestigationMetrics}
        → m.errors ≡ st.metrics.errors + 1
        → m.successes ≡ st.metrics.successes
        → Accounted (rejected internal message, record st { world = w; metrics = m })
    answered :
        {w : W} {m : InvestigationMetrics} (result : CorrelationResult F)
        → m.successes ≡ st.metrics.successes + 1
        → m.errors ≡ st.metrics.errors
        → Accounted (
          served (to_proto_correlation result),
          record { world = w; latencies = observe st.latencies duration; metrics = m },
        )

module _ {r : Runtime} (runs : IsRuntime r) {W F : Type 0} ⦃d : Double F⦄ (laws : IsDouble F) where
  -- An investigation never panics, whether the pipeline has a client or not.
  pub investigate-settles :
      (clock : Clock) (p : Pipeline W F) (req : InvestigationRequest F) (w : W)
      → (out : Outcome (CorrelationResult F) × W) × (investigate r clock p req w ≡ out)
        × (out.0 ≢ panic)
  unfolding investigate
  investigate-settles clock p req w = elim (Option-cases p.core_client) [
    | inl unset ↦ (
      (err "core client not configured", w),
      investigate-none runs laws clock p req unset w,
      λ h. ground arith,
    )
    | inr (core, set) ↦ elim (investigate_lem runs laws clock p req core set w) [
      | inl (e, w', failing, eq) ↦ (_, eq, λ h. ground arith)
      | inr (signals, w', result, fetching, is_result, eq) ↦ (_, eq, λ h. ground arith)
    ]
  ]

  conclude-Accounted :
      (duration : Duration) (st : ServiceState W) (out : Outcome (CorrelationResult F) × W)
      → out.0 ≢ panic
      → Accounted duration st (conclude_investigation r duration st out)
  unfolding conclude_investigation observe_investigation
  conclude-Accounted duration st (ok result, w) h = answered result refl refl
  conclude-Accounted duration st (err e, w) h = failed refl refl
  conclude-Accounted duration st (panic, w) h = absurd (h refl)

  -- Every request ends in one of the ways of `Accounted`, whatever the request, the clients and the
  -- state are: it never panics, the error and success counters grow by one in total where the pipeline
  -- runs and not at all where it does not, and only a success adds to the latencies.
  pub investigate_incident-Accounted :
      (clock : Clock) (duration : Duration) (service : RcaService W F)
      (req : Option (ProtoInvestigation F)) (st : ServiceState W)
      → Accounted duration st (investigate_incident r clock duration service req st)
  unfolding investigate_incident
  investigate_incident-Accounted clock duration service none st = refused λ h. ground arith
  investigate_incident-Accounted clock duration service (some req) st = go service.pipeline
    where
      run :
          (p : Pipeline W F) (request : Parsed (InvestigationRequest F))
          → Accounted duration st
              (elim request as (λ _. Status (ProtoCorrelation F) × ServiceState W) [
                | invalid e ↦ (rejected invalid_argument e, st)
                | parsed domain_req ↦
                    conclude_investigation r duration st (investigate r clock p domain_req st.world)
              ])
      run p (invalid e) = refused λ h. ground arith
      run p (parsed domain_req) =
          let (out, e, settles) = investigate-settles clock p domain_req st.world in
          rw e (conclude-Accounted duration st out settles)

      go :
          (c : Option (Pipeline W F))
          → Accounted duration st (elim c as (λ _. Status (ProtoCorrelation F) × ServiceState W) [
            | none ↦ (rejected failed_precondition "pipeline not configured", st)
            | some p ↦
                elim (from_proto_investigation (some req))
                  as (λ _. Status (ProtoCorrelation F) × ServiceState W) [
                    | invalid e ↦ (rejected invalid_argument e, st)
                    | parsed domain_req ↦
                        conclude_investigation r duration st
                          (investigate r clock p domain_req st.world)
                  ]
          ])
      go none = refused λ h. ground arith
      go (some p) = run p (from_proto_investigation (some req))
