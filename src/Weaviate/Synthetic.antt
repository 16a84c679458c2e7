-- ===== src/Weaviate/Synthetic.antt =====
-- internal/repo/weaviate_repo.go: what the repository answers when it has no store to ask.
use mirador_rca.Prelude.{ℕ, zero, suc, ◌+◌, String, List, [], ◌∷◌, ◌++◌, str_eq, if◌then◌else◌}
use mirador_rca.Prelude.Int.{ℤ, pos, pos_part, leb_ℤ, ◌-ℤ◌, ◌*ℤ◌}
use mirador_rca.Prelude.Text.{◌<>◌, format_int}
use mirador_rca.Double.{Double}
use mirador_rca.Model.{
  Time, Duration, second, data_type_metrics, severity_high, FailurePattern, CorrelationResult,
  ListCorrelationsRequest, ListCorrelationsResponse,
}

abbrev minute : Duration
minute = pos 60 *ℤ second

abbrev hour : Duration
hour = pos 60 *ℤ minute

abbrev pub or_synthetic : String → String
or_synthetic service = if str_eq service "" then "synthetic-service" else service

-- Three, where no limit is asked for.
abbrev pub synthetic_limit : ℤ → ℕ
synthetic_limit limit = if leb_ℤ limit (pos 0) then 3 else pos_part limit

module _ {F : Type 0} ⦃d : Double F⦄ (now : Time) where
  unfoldable pub synthetic_incident : ℕ → CorrelationResult F
  synthetic_incident i = record {
    correlation_id = "synthetic-" <> format_int (pos (i + 1));
    incident_id = "incident-" <> format_int (pos (i + 1));
    root_cause = "synthetic-service";
    confidence = d.add (d.lit 55 2) (d.mul (d.of_int (pos i)) (d.lit 5 2));
    affected_services = "synthetic-service" ∷ [];
    red_anchors = [];
    timeline = [];
    recommendations = "Check downstream dependencies" ∷ "Review recent deploy" ∷ [];
    created_at = now -ℤ pos i *ℤ hour;
  }

  -- The `n` incidents from the `i`th on.
  unfoldable pub incidents_from : ℕ → ℕ → List (CorrelationResult F)
  incidents_from i zero = []
  incidents_from i (suc n) = synthetic_incident i ∷ incidents_from (suc i) n

  -- The first symptom is a hint in the first incident; there is one, since no limit is below 1.
  unfoldable pub with_hint : List String → List (CorrelationResult F) → List (CorrelationResult F)
  with_hint (symptom ∷ symptoms) (first ∷ rest) =
      record first { recommendations = first.recommendations ++ ("Symptom hint: " <> symptom) ∷ [] }
      ∷ rest
  with_hint symptoms results = results

  unfoldable pub synthetic_similar_incidents : List String → ℤ → List (CorrelationResult F)
  synthetic_similar_incidents symptoms limit =
      with_hint symptoms (incidents_from 0 (synthetic_limit limit))

  unfoldable pub synthetic_patterns : String → List (FailurePattern F)
  synthetic_patterns service =
      let svc = or_synthetic service in
      record {
        id = "pattern-1";
        name = "CPU saturation";
        description = "Sudden CPU saturation followed by error spikes";
        services = svc ∷ [];
        anchor_templates =
            record {
              service = svc;
              signal_type = "metrics";
              selector = "cpu_usage";
              typical_lag = d.lit 1 0;
              threshold = d.lit 8 1;
            }
            ∷ record {
              service = svc;
              signal_type = "logs";
              selector = "error";
              typical_lag = d.lit 2 0;
              threshold = d.lit 10 0;
            }
            ∷ [];
        prevalence = d.lit 32 2;
        last_seen = now -ℤ pos 24 *ℤ hour;
        precision = d.lit 68 2;
        recall = d.lit 44 2;
      }
      ∷ []

  unfoldable pub synthetic_correlation_list : ListCorrelationsRequest → ListCorrelationsResponse F
  synthetic_correlation_list req =
      let service = or_synthetic req.service in
      record {
        correlations =
            record {
              correlation_id = "synthetic-corr-1";
              incident_id = "synthetic-incident-1";
              root_cause = service <> ": cpu usage anomaly";
              confidence = d.lit 65 2;
              affected_services = service ∷ [];
              recommendations = "Scale service" ∷ "Review upstream errors" ∷ [];
              created_at = now -ℤ hour;
              red_anchors =
                  record {
                    service = service;
                    selector = "metrics:cpu_usage";
                    data_type = data_type_metrics;
                    timestamp = now -ℤ pos 70 *ℤ minute;
                    anomaly_score = d.lit 32 1;
                    threshold = d.lit 20 1;
                  }
                  ∷ [];
              timeline =
                  record {
                    time = now -ℤ pos 75 *ℤ minute;
                    event = "Metric anomaly detected";
                    service = service;
                    severity = severity_high;
                    anomaly_score = d.lit 32 1;
                    data_source = data_type_metrics;
                  }
                  ∷ [];
            }
            ∷ [];
        next_page_token = "";
      }
