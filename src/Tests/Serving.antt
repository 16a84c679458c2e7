-- ===== src/Tests/Serving.antt =====
-- The gRPC service on one request.
use mirador_rca.Prelude.{◌≡◌, refl, inl, inr, some, none, List, [], ◌∷◌, String}
use mirador_rca.Prelude.Int.{pos}
use mirador_rca.Runtime.{in_order, in_order-IsRuntime}
use mirador_rca.Double.Fixed.{Fixed, fixed_double, Fixed-IsDouble}
use mirador_rca.Model.{CorrelationResult}
use mirador_rca.Service.Messages.{ProtoInvestigation, to_proto_correlation}
use mirador_rca.Service.Handlers.{RcaService, ServiceState, new_latencies, investigate_incident}
use mirador_rca.Service.Accounting.{Accounted, investigate_incident-Accounted}
use mirador_rca.Service.Concurrent.Alone.{Finishes, investigate_incident-Finishes}
use mirador_rca.Service.Reading.{read_correlation, read_correlation-to_proto}
use mirador_rca.Tests.Data.{pipeline, clock, anchors, timeline}

abbrev pub incoming : ProtoInvestigation Fixed
incoming = record {
  incident_id = "inc-1";
  symptoms = "latency" ∷ [];
  time_range = some (record { start = some (pos 1); end = some (pos 100) });
  affected_services = "checkout" ∷ [];
  anomaly_threshold = some (pos 1000);
  tenant_id = "tenant";
}

abbrev pub service : RcaService (List String) Fixed
service = record { pipeline = some pipeline; history = none }

abbrev state : ServiceState (List String)
state = record {
  world = [];
  latencies = new_latencies;
  metrics = record { successes = 3; errors = 1; durations = [] };
}

abbrev pub result : CorrelationResult Fixed
result = record {
  correlation_id = "corr-1";
  incident_id = "inc-1";
  root_cause = "checkout: logs:error anomaly";
  confidence = some (pos 500);
  affected_services = "checkout" ∷ [];
  red_anchors = anchors;
  timeline = timeline;
  recommendations = "Roll back" ∷ [];
  created_at = pos 9;
}

investigate_incident-Accounted_example :
    Accounted {F = Fixed}
      (pos 250)
      state
      (investigate_incident in_order clock (pos 250) service (some incoming) state)
investigate_incident-Accounted_example =
    investigate_incident-Accounted in_order-IsRuntime Fixed-IsDouble clock (pos 250) service
      (some incoming) state

investigate_incident-Finishes_example :
    Finishes service
      (some incoming)
      state
      (investigate_incident in_order clock (pos 250) service (some incoming) state)
investigate_incident-Finishes_example =
    investigate_incident-Finishes in_order-IsRuntime Fixed-IsDouble clock (pos 250) service
      (some incoming) state

read_correlation-to_proto_example : read_correlation (to_proto_correlation result) ≡ result
read_correlation-to_proto_example = read_correlation-to_proto result (
  (inr (inl refl), tt),
  ((inr (inr (inl refl)), inr (inr refl)), ((inr (inr (inl refl)), inr (inr refl)), tt)),
)
