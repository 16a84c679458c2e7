-- ===== src/Tests/Together.antt =====
-- Three handlers that take turns: two investigations, and a request that is nil.
use mathlib.Core.List.{Perm}
use mirador_rca.Prelude.{◌+◌, ◌++◌, ◌≡◌, refl, min, some, none, List, [], ◌∷◌, length}
use mirador_rca.Prelude.Int.{pos}
use mirador_rca.Double.Fixed.{Fixed, fixed_double}
use mirador_rca.Model.{Duration}
use mirador_rca.Latency.{count, observe}
use mirador_rca.Latency.Window.{last_n}
use mirador_rca.Service.Metrics.{observe_investigation, outcome_success, outcome_error}
use mirador_rca.Service.Messages.{from_proto_investigation, window_of}
use mirador_rca.Service.Handlers.{new_latencies, tracker_size, invalid_argument, rejected, internal}
use mirador_rca.Service.Concurrent.{
  Phase, observed, counted, over, Shared, fresh, refusal, refuse, pipeline_answers, pipeline_fails,
  count_error, observe_latency, count_success, arrives, moves, Reach, start, later,
}
use mirador_rca.Service.Concurrent.Counting.{Reach-Accounted}
use mirador_rca.Service.Concurrent.Durations.{all_pending}
use mirador_rca.Tests.Serving.{incoming, service, result}

accepted : refusal service (some incoming) ≡ none
unfolding refusal from_proto_investigation window_of
accepted = refl

-- Both investigations are over before the latency of the second is observed.
abbrev phases : List (Phase Fixed)
phases =
    over (rejected invalid_argument "request cannot be nil")
    ∷ observed (pos 7) result
    ∷ counted result
    ∷ over (rejected internal "investigation failed: fetch logs: down")
    ∷ []

abbrev shared : Shared
shared = record {
  latencies = observe (observe new_latencies (pos 5)) (pos 7);
  metrics =
      observe_investigation (pos 5) outcome_success
        (observe_investigation (pos 9) outcome_error fresh.metrics);
}

run_together : Reach service phases shared
unfolding refusal
run_together =
    later
      (later
        (later
          (later
            (later
              (later
                (later
                  (later
                    (later
                      (later
                        (later (later start (arrives {req = some incoming})) (
                          moves [] []
                            (pipeline_fails {duration = pos 9} {e = "fetch logs: down"} accepted)))
                        (arrives {req = some incoming}))
                      (moves [] (_ ∷ [])
                        (pipeline_answers {duration = pos 5} {result = result} accepted)))
                    (moves (_ ∷ []) [] count_error))
                  (arrives {req = some incoming}))
                (moves (_ ∷ []) (_ ∷ []) observe_latency))
              (moves [] (_ ∷ _ ∷ [])
                (pipeline_answers {duration = pos 7} {result = result} accepted)))
            (moves [] (_ ∷ _ ∷ []) observe_latency))
          (moves (_ ∷ []) (_ ∷ []) count_success))
        (arrives {req = none}))
      (moves [] (_ ∷ _ ∷ _ ∷ []) (refuse refl))

Reach-Accounted_example :
    (shared.metrics.successes ≡ 1)
    × (shared.metrics.errors ≡ 1)
    × (shared.metrics.durations ≡ pos 9 ∷ pos 5 ∷ [])
    × (length {A = Duration} (pos 9 ∷ pos 5 ∷ []) ≡ 1 + 1)
    × Perm (pos 7 ∷ pos 5 ∷ pos 9 ∷ []) (pos 9 ∷ pos 5 ∷ [] ++ all_pending phases)
    × (shared.latencies.samples ≡ last_n tracker_size (pos 5 ∷ pos 7 ∷ []))
    × (length {A = Duration} (pos 5 ∷ pos 7 ∷ []) ≡ 2)
    × (count shared.latencies ≡ min tracker_size 2)
unfolding run_together
Reach-Accounted_example = Reach-Accounted service run_together
