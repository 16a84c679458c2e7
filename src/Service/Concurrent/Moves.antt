-- ===== src/Service/Concurrent/Moves.antt =====
-- internal/services/rca_service.go, `InvestigateIncident` in many goroutines: what one step of a handler
-- does to the counters.
use mathlib.Core.Path.{subst}
use mathlib.Core.List.{append-nil}
use mirador_rca.Prelude.{
  ℕ, ◌+◌, ◌≡◌, refl, sym, Option, none, some, String, List, [], ◌∷◌, ◌++◌, length, if◌then◌else◌,
  arith,
}
use mirador_rca.Prelude.Int.{pos, ltb_ℤ}
use mirador_rca.Model.{Duration}
use mirador_rca.Latency.Window.{observe_all}
use mirador_rca.Service.Messages.{ProtoInvestigation, parsed, invalid, from_proto_investigation}
use mirador_rca.Service.Metrics.{observe_investigation}
use mirador_rca.Service.Handlers.{
  Code, invalid_argument, failed_precondition, internal, served, rejected, RcaService,
}
use mirador_rca.Service.Concurrent.{
  Phase, called, answered, broke, observed, counted, logging, over, Shared, refusal, Move, refuse,
  pipeline_answers, pipeline_fails, count_error, observe_latency, count_success, is_twentieth,
  respond, log_latency,
}

-- What the histogram keeps of a duration.
abbrev pub or_zero : Duration → Duration
or_zero duration = if ltb_ℤ duration (pos 0) then pos 0 else duration

module _ {F : Type 0} where
  -- Whether a handler has observed its latency, counted its success, or counted its failure.
  abbrev pub has_observed : Phase F → ℕ
  has_observed (observed d result) = 1
  has_observed (counted result) = 1
  has_observed (logging result) = 1
  has_observed (over (served a)) = 1
  has_observed _ = 0

  abbrev pub has_succeeded : Phase F → ℕ
  has_succeeded (counted result) = 1
  has_succeeded (logging result) = 1
  has_succeeded (over (served a)) = 1
  has_succeeded _ = 0

  abbrev pub has_failed : Phase F → ℕ
  has_failed (over (rejected internal message)) = 1
  has_failed _ = 0

  -- The latency that a handler observes in its next step, and the duration that it counts in it.
  abbrev pub observes : Phase F → List Duration
  observes (answered duration result) = duration ∷ []
  observes _ = []

  abbrev pub counts : Phase F → List Duration
  counts (broke duration e) = or_zero duration ∷ []
  counts (observed duration result) = or_zero duration ∷ []
  counts _ = []

  abbrev pub total : (Phase F → ℕ) → List (Phase F) → ℕ
  total w [] = 0
  total w (p ∷ ps) = w p + total w ps

  pub total-middle :
      (w : Phase F → ℕ) (before after : List (Phase F)) (p : Phase F)
      → total w (before ++ p ∷ after) ≡ total w before + w p + total w after
  total-middle w [] after p = omega arith
  total-middle w (q ∷ before) after p = omega (arith, total-middle w before after p)

module _ {W F : Type 0} (service : RcaService W F) where
  -- A refusal is no failure of the pipeline.
  abbrev IsRefusal : Option (Code × String) → Type 0
  IsRefusal none = Unit
  IsRefusal (some (code, message)) = has_failed {F = F} (over (rejected code message)) ≡ 0

  refusal-IsRefusal : (req : Option (ProtoInvestigation F)) → IsRefusal (refusal service req)
  unfolding refusal
  refusal-IsRefusal none = refl
  refusal-IsRefusal (some req) =
      elim service.pipeline
        as (λ c. IsRefusal (elim c as (λ _. Option (Code × String)) [
          | none ↦ some (failed_precondition, "pipeline not configured")
          | some pipeline ↦
              elim (from_proto_investigation (some req)) as (λ _. Option (Code × String)) [
                | invalid e ↦ some (invalid_argument, e)
                | parsed domain_req ↦ none
              ]
        ])) [
          | none ↦ refl
          | some pipeline ↦
              elim (from_proto_investigation (some req))
                as (λ x. IsRefusal (elim x as (λ _. Option (Code × String)) [
                  | invalid e ↦ some (invalid_argument, e)
                  | parsed domain_req ↦ none
                ])) [ invalid e ↦ refl | parsed domain_req ↦ tt ]
        ]

  -- How a step of a handler changes the counters.
  pub record IsCounted (p : Phase F) (m : Shared) (p' : Phase F) (m' : Shared) : Type 0 where
    pub latencies : m'.latencies ≡ observe_all m.latencies (observes p)
    pub seen : has_observed p' ≡ has_observed p + length (observes p)
    pub successes : m'.metrics.successes + has_succeeded p ≡ m.metrics.successes + has_succeeded p'
    pub errors : m'.metrics.errors + has_failed p ≡ m.metrics.errors + has_failed p'
    pub durations : m'.metrics.durations ≡ m.metrics.durations ++ counts p
    pub grown :
        has_succeeded p' + has_failed p' ≡ has_succeeded p + has_failed p + length (counts p)

  -- A step that only moves its handler on.
  IsCounted-same :
      (p p' : Phase F) (m : Shared)
      → observes p ≡ []
      → counts p ≡ []
      → has_observed p' ≡ has_observed p
      → has_succeeded p' ≡ has_succeeded p
      → has_failed p' ≡ has_failed p
      → IsCounted p m p' m
  unfolding observe_all
  IsCounted-same p p' m none_seen none_counted o s f = record {
    latencies = rw none_seen refl;
    seen = rw none_seen (omega (arith, o));
    successes = omega arith;
    errors = omega arith;
    durations = rw none_counted (sym (append-nil _));
    grown = rw none_counted (omega (arith, s, f));
  }

  pub Move-IsCounted :
      {p p' : Phase F} {m m' : Shared} → Move service p m p' m' → IsCounted p m p' m'
  unfolding observe_investigation observe_all
  Move-IsCounted (refuse {req} {m} {code} {message} refused) =
      IsCounted-same (called req) (over (rejected code message)) m refl refl refl refl
        (subst IsRefusal refused (refusal-IsRefusal req))
  Move-IsCounted (pipeline_answers {req} {m} {duration} {result} asked) =
      IsCounted-same (called req) (answered duration result) m refl refl refl refl refl
  Move-IsCounted (pipeline_fails {req} {m} {duration} {e} asked) =
      IsCounted-same (called req) (broke duration e) m refl refl refl refl refl
  Move-IsCounted (count_error {m}) = record {
    latencies = refl;
    seen = refl;
    successes = omega arith;
    errors = omega arith;
    durations = refl;
    grown = refl;
  }
  Move-IsCounted (observe_latency {duration}) = record {
    latencies = refl;
    seen = refl;
    successes = omega arith;
    errors = omega arith;
    durations = sym (append-nil _);
    grown = refl;
  }
  Move-IsCounted (count_success {m}) = record {
    latencies = refl;
    seen = refl;
    successes = omega arith;
    errors = omega arith;
    durations = refl;
    grown = refl;
  }
  Move-IsCounted (is_twentieth {m} {result} due) =
      IsCounted-same (counted result) (logging result) m refl refl refl refl refl
  Move-IsCounted (respond {m} {result} due) =
      IsCounted-same (counted result) (over (served _)) m refl refl refl refl refl
  Move-IsCounted (log_latency {m} {result}) =
      IsCounted-same (logging result) (over (served _)) m refl refl refl refl refl
