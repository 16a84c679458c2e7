-- ===== src/Service/Concurrent/Counting.antt =====
-- internal/services/rca_service.go, `InvestigateIncident` in many goroutines: nothing is lost.
use mathlib.Core.List.{Perm}
use mathlib.Core.List.Perm
use mirador_rca.Prelude.{
  ◌+◌, ◌≡◌, refl, sym, ap, ◌∙◌, min, List, [], ◌∷◌, ◌++◌, length, length-append, arith,
}
use mirador_rca.Model.{Duration}
use mirador_rca.Prelude.Int.{pos}
use mirador_rca.Latency.{count, new_latency_tracker}
use mirador_rca.Latency.Window.{
  last_n, observe_all, observe_all-append, new_latency_tracker-window, length-last_n-min,
}
use mirador_rca.Service.Handlers.{RcaService, new_latencies, tracker_size}
use mirador_rca.Service.Concurrent.{Phase, Shared, arrives, moves, Reach, start, later}
use mirador_rca.Service.Concurrent.Durations.{answers, all_pending, moves-pending}
use mirador_rca.Service.Concurrent.Moves.{
  has_observed, has_succeeded, has_failed, observes, counts, total, total-middle, IsCounted,
  Move-IsCounted,
}

module _ {W F : Type 0} (service : RcaService W F) where
  -- The latencies that the handlers of a run have observed, in the order of their steps, and the durations
  -- that they have counted.
  abbrev pub observed_by : {ps : List (Phase F)} {m : Shared} → Reach service ps m → List Duration
  observed_by start = []
  observed_by (later run arrives) = observed_by run
  observed_by (later run (moves before after {p} move)) = observed_by run ++ observes p

  abbrev pub counted_by : {ps : List (Phase F)} {m : Shared} → Reach service ps m → List Duration
  counted_by start = []
  counted_by (later run arrives) = counted_by run
  counted_by (later run (moves before after {p} move)) = counted_by run ++ counts p

  -- The durations with which the pipeline has ended an investigation.
  abbrev pub ended_by : {ps : List (Phase F)} {m : Shared} → Reach service ps m → List Duration
  ended_by start = []
  ended_by (later run arrives) = ended_by run
  ended_by (later run (moves before after {p} {p'} move)) = answers p p' ++ ended_by run

  -- What the handlers together have done to what they share.
  record Inv (ps : List (Phase F)) (m : Shared) (seen counted : List Duration) : Type 0 where
    latencies : m.latencies ≡ observe_all new_latencies seen
    seen_all : length seen ≡ total has_observed ps
    succeeded : m.metrics.successes ≡ total has_succeeded ps
    failed : m.metrics.errors ≡ total has_failed ps
    durations : m.metrics.durations ≡ counted
    counted_all : length counted ≡ total has_succeeded ps + total has_failed ps

  moves-Inv :
      (before after : List (Phase F)) {p p' : Phase F} {m m' : Shared}
      (seen counted : List Duration)
      → IsCounted service p m p' m'
      → Inv (before ++ p ∷ after) m seen counted
      → Inv (before ++ p' ∷ after) m' (seen ++ observes p) (counted ++ counts p)
  moves-Inv before after {p} {p'} seen counted counting inv =
      let observed = total-middle has_observed before after p in
      let observed' = total-middle has_observed before after p' in
      let succeeded = total-middle has_succeeded before after p in
      let succeeded' = total-middle has_succeeded before after p' in
      let failed = total-middle has_failed before after p in
      let failed' = total-middle has_failed before after p' in
      let longer = length-append seen (observes p) in
      let more = length-append counted (counts p) in
      record {
        latencies =
            counting.latencies
            ∙ ap (λ t. observe_all t (observes p)) inv.latencies
            ∙ sym (observe_all-append new_latencies seen (observes p));
        seen_all = omega (arith, observed, observed', inv.seen_all, counting.seen, longer);
        succeeded = omega (arith, succeeded, succeeded', inv.succeeded, counting.successes);
        failed = omega (arith, failed, failed', inv.failed, counting.errors);
        durations = counting.durations ∙ ap (λ l. l ++ counts p) inv.durations;
        counted_all =
            omega (
              arith, succeeded, succeeded', failed, failed', inv.counted_all, counting.grown, more,
            );
      }

  Reach-Inv :
      {ps : List (Phase F)} {m : Shared} (run : Reach service ps m)
      → Inv ps m (observed_by run) (counted_by run)
  unfolding observe_all
  Reach-Inv start = record {
    latencies = refl;
    seen_all = refl;
    succeeded = refl;
    failed = refl;
    durations = refl;
    counted_all = refl;
  }
  Reach-Inv (later run arrives) =
      let inv = Reach-Inv run in
      record {
        latencies = inv.latencies;
        seen_all = omega (arith, inv.seen_all);
        succeeded = omega (arith, inv.succeeded);
        failed = omega (arith, inv.failed);
        durations = inv.durations;
        counted_all = omega (arith, inv.counted_all);
      }
  Reach-Inv (later run (moves before after move)) =
      moves-Inv before after (observed_by run) (counted_by run) (Move-IsCounted service move)
        (Reach-Inv run)

  ended_by-pending :
      {ps : List (Phase F)} {m : Shared} (run : Reach service ps m)
      → Perm (ended_by run) (counted_by run ++ all_pending ps)
  ended_by-pending start = Perm.refl []
  ended_by-pending (later run arrives) = ended_by-pending run
  ended_by-pending (later run (moves before after move)) =
      moves-pending service before after (ended_by run) (counted_by run) move (ended_by-pending run)

  -- However the handlers take turns, nothing is lost: at every moment the counters of successes and of
  -- errors are the numbers of handlers that have counted theirs, and the histogram holds their durations
  -- in the order in which they were counted, one for each of these and zero for a negative one. These are
  -- the durations with which the pipeline has ended an investigation, each once, but for those that a
  -- handler has yet to count. The tracker holds the last 1,024 of the latencies of the answered
  -- investigations in the order in which they were observed, one for each handler that has observed its
  -- own. A refused request leaves no mark.
  pub Reach-Accounted :
      {ps : List (Phase F)} {m : Shared} (run : Reach service ps m)
      → (m.metrics.successes ≡ total has_succeeded ps)
        × (m.metrics.errors ≡ total has_failed ps)
        × (m.metrics.durations ≡ counted_by run)
        × (length (counted_by run) ≡ total has_succeeded ps + total has_failed ps)
        × Perm (ended_by run) (counted_by run ++ all_pending ps)
        × (m.latencies.samples ≡ last_n tracker_size (observed_by run))
        × (length (observed_by run) ≡ total has_observed ps)
        × (count m.latencies ≡ min tracker_size (total has_observed ps))
  unfolding count new_latencies new_latency_tracker
  Reach-Accounted run =
      let inv = Reach-Inv run in
      let seen = observed_by run in
      let window =
        ap (λ t. t.samples) inv.latencies ∙ new_latency_tracker-window (pos tracker_size) seen in
      (
        inv.succeeded,
        inv.failed,
        inv.durations,
        inv.counted_all,
        ended_by-pending run,
        window,
        inv.seen_all,
        ap length window ∙ length-last_n-min tracker_size seen ∙ ap (min tracker_size) inv.seen_all,
      )
