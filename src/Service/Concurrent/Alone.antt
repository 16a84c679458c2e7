-- ===== src/Service/Concurrent/Alone.antt =====
-- internal/services/rca_service.go, `InvestigateIncident`: a handler that is not interrupted takes the
-- steps of the handlers that run together.
use mirador_rca.Prelude.{◌≡◌, ◌≢◌, ◌⊎◌, refl, String, Bool-cases, Option, none, some, inl, inr}
use mirador_rca.Prelude.Outcome.{Outcome, ok, err, panic}
use mirador_rca.Runtime.{Runtime, IsRuntime}
use mirador_rca.Double.{Double, IsDouble}
use mirador_rca.Model.{Duration, CorrelationResult}
use mirador_rca.Latency.{count}
use mirador_rca.Engine.Pipeline.{Pipeline}
use mirador_rca.Engine.Pipeline.Assemble.{Clock}
use mirador_rca.Service.Messages.{
  Parsed, parsed, invalid, ProtoInvestigation, ProtoCorrelation, from_proto_investigation,
  to_proto_correlation,
}
use mirador_rca.Service.Handlers.{
  Status, served, RcaService, ServiceState, conclude_investigation, investigate_incident,
  reports_latency,
}
use mirador_rca.Service.Accounting.{investigate-settles}
use mirador_rca.Service.Concurrent.{
  Phase, called, counted, over, Shared, refusal, Move, refuse, pipeline_answers, pipeline_fails,
  count_error, observe_latency, count_success, is_twentieth, respond, log_latency,
}

-- What the other handlers see of the state of the service.
abbrev pub shared_of : {W : Type 0} → ServiceState W → Shared
shared_of st = record { latencies = st.latencies; metrics = st.metrics }

abbrev with_pipeline : {W F : Type 0} → RcaService W F → Option (Pipeline W F) → RcaService W F
with_pipeline service c = record { pipeline = c; history = service.history }

Parsed-cases :
    {A : Type 0} (x : Parsed A) → ((e : String) × (x ≡ invalid e)) ⊎ ((a : A) × (x ≡ parsed a))
Parsed-cases (invalid e) = inl (e, refl)
Parsed-cases (parsed a) = inr (a, refl)

module _ {W F : Type 0} (service : RcaService W F) where
  -- Steps of one handler, with none of another between them.
  pub data Runs : Phase F → Shared → Phase F → Shared → Type 0 where
    stays : {p : Phase F} {m : Shared} → Runs p m p m
    goes :
        {p q p' : Phase F} {m n m' : Shared}
        → Move service p m q n
        → Runs q n p' m'
        → Runs p m p' m'

  -- The handler comes to its end with this answer, and with this state.
  abbrev pub Finishes :
      Option (ProtoInvestigation F)
      → ServiceState W
      → Status (ProtoCorrelation F) × ServiceState W
      → Type 0
  Finishes req st (status, st') = Runs (called req) (shared_of st) (over status) (shared_of st')

  counted-Runs :
      (result : CorrelationResult F) (m : Shared)
      → Runs (counted result) m (over (served (to_proto_correlation result))) m
  counted-Runs result m = elim (Bool-cases (reports_latency (count m.latencies))) [
    | inl due ↦ goes (is_twentieth due) (goes log_latency stays)
    | inr not_due ↦ goes (respond not_due) stays
  ]

module _ {r : Runtime} (runs : IsRuntime r) {W F : Type 0} ⦃d : Double F⦄ (laws : IsDouble F) where
  conclude-Finishes :
      (service : RcaService W F) (req : Option (ProtoInvestigation F))
      → refusal service req ≡ none
      → (duration : Duration) (st : ServiceState W) (out : Outcome (CorrelationResult F) × W)
      → out.0 ≢ panic
      → Finishes service req st (conclude_investigation r duration st out)
  unfolding conclude_investigation
  conclude-Finishes service req asked duration st (ok result, w) h =
      goes (pipeline_answers asked)
        (goes observe_latency (goes count_success (counted-Runs service result _)))
  conclude-Finishes service req asked duration st (err e, w) h =
      goes (pipeline_fails asked) (goes count_error stays)
  conclude-Finishes service req asked duration st (panic, w) h = absurd (h refl)

  -- A request that is investigated on its own, whatever it is, takes the steps of a handler among the
  -- others, from its arrival to the answer that it returns, and what the others see in the end is the
  -- state that it leaves.
  pub investigate_incident-Finishes :
      (clock : Clock) (duration : Duration) (service : RcaService W F)
      (req : Option (ProtoInvestigation F)) (st : ServiceState W)
      → Finishes service req st (investigate_incident r clock duration service req st)
  unfolding investigate_incident refusal
  investigate_incident-Finishes clock duration service none st = goes (refuse refl) stays
  investigate_incident-Finishes clock duration service (some req) st =
      elim service.pipeline
        as (λ c.
          Finishes (with_pipeline service c) (some req) st
            (investigate_incident r clock duration (with_pipeline service c) (some req) st)) [
              | none ↦ goes (refuse refl) stays
              | some p ↦ elim (Parsed-cases (from_proto_investigation (some req))) [
                | inl (e, bad) ↦
                    rw (investigate_incident, bad) (goes (refuse (rw (refusal, bad) refl)) stays)
                | inr (domain_req, good) ↦
                    let (out, e, settles) =
                      investigate-settles runs laws clock p domain_req st.world in
                    rw (investigate_incident, good, e)
                      (conclude-Finishes (with_pipeline service (some p)) (some req)
                        (rw (refusal, good) refl) duration st out settles)
              ]
            ]
