-- ===== src/Entry/Ending/Alone.antt =====
-- cmd/rca-engine/main.go: the program can end whatever its clients do.
use mirador_rca.Prelude.{◌≡◌, refl, inl, inr, Bool, true, false, some, List, [], ◌∷◌, arith}
use mirador_rca.Server.{
  Server, Actor, program, timer, Ending, cut_off, ShutdownPhase, begun, selecting, returned, Grpc,
  select_reached, Goroutine, timed_out, done_first,
}
use mirador_rca.Entry.Serving.{
  Phase, waiting, shutting, ended, metrics_closed, shutdown_called, shutdown_goes_on, metrics_shut,
  here, later,
}
use mirador_rca.Entry.Ending.{Ends, WaitsOrEnds, IsAsked, FromStart, Run-IsAsked}

module _ {W G L : Type 0} (grpc : Grpc W G) (close_metrics : W → W) (s : Server G L) (server : G)
    (serving : s.grpc_server ≡ some server) where
  Ends-returned : (e : Ending) (w : W) → Ends grpc close_metrics s 1 (shutting (returned e)) w
  Ends-returned e w = (
    program ∷ [],
    e,
    metrics_closed close_metrics s w,
    later here metrics_shut,
    refl,
    omega arith,
  )

  Ends-timed_out :
      (r : Goroutine) (w : W) → Ends grpc close_metrics s 2 (shutting (selecting r true)) w
  Ends-timed_out r w = (
    program ∷ program ∷ [],
    cut_off,
    metrics_closed close_metrics s (grpc.stop server w),
    later (later here (shutdown_goes_on (done_first serving))) metrics_shut,
    refl,
    omega arith,
  )

  Ends-selecting :
      (r : Goroutine) (t : Bool) (w : W) → Ends grpc close_metrics s 3 (shutting (selecting r t)) w
  Ends-selecting r true w =
      let (actors, e, w', run, a, n) = Ends-timed_out r w in
      (actors, e, w', run, a, omega (arith, n))
  Ends-selecting r false w = (
    program ∷ program ∷ timer ∷ [],
    cut_off,
    metrics_closed close_metrics s (grpc.stop server w),
    later (later (later here (shutdown_goes_on timed_out)) (shutdown_goes_on (done_first serving)))
        metrics_shut,
    refl,
    omega arith,
  )

  Ends-shutting : (p : ShutdownPhase) (w : W) → Ends grpc close_metrics s 4 (shutting p) w
  Ends-shutting begun w = (
    program ∷ program ∷ timer ∷ program ∷ [],
    cut_off,
    metrics_closed close_metrics s (grpc.stop server w),
    later
        (later
          (later (later here (shutdown_goes_on (select_reached serving)))
            (shutdown_goes_on timed_out))
          (shutdown_goes_on (done_first serving)))
        metrics_shut,
    refl,
    omega arith,
  )
  Ends-shutting (selecting r t) w =
      let (actors, e, w', run, a, n) = Ends-selecting r t w in
      (actors, e, w', run, a, omega (arith, n))
  Ends-shutting (returned e) w =
      let (actors, e', w', run, a, n) = Ends-returned e w in
      (actors, e', w', run, a, omega (arith, n))

  Ends-waiting : (w : W) → Ends grpc close_metrics s 5 (waiting true) w
  Ends-waiting w = (
    program ∷ program ∷ timer ∷ program ∷ program ∷ [],
    cut_off,
    metrics_closed close_metrics s (grpc.stop server w),
    later
        (later
          (later (later (later here shutdown_called) (shutdown_goes_on (select_reached serving)))
            (shutdown_goes_on timed_out))
          (shutdown_goes_on (done_first serving)))
        metrics_shut,
    refl,
    omega arith,
  )

  waits_or_ends :
      (p : Phase) (w : W) (actors : List Actor)
      → IsAsked p actors
      → WaitsOrEnds grpc close_metrics s p w actors
  waits_or_ends (waiting true) w actors h = inr (h, Ends-waiting w)
  waits_or_ends (waiting false) w actors h = inl (h, refl)
  waits_or_ends (shutting p) w actors h =
      let (actors', e, w', run, a, n) = Ends-shutting p w in
      inr (h, (actors', e, w', run, a, omega (arith, n)))
  waits_or_ends (ended e) w actors h = inr (h, ([], e, w, here, refl, omega arith))

  -- Wherever a run has come, the program waits at its start as long as nobody has asked for its end; as
  -- soon as a signal came or a server exited, it can end in at most five steps of its own and its timer,
  -- whatever calls are still open and though no client does anything.
  pub Run-Ends :
      {w0 w : W} {p : Phase} {actors : List Actor}
      → FromStart grpc close_metrics s w0 actors p w
      → WaitsOrEnds grpc close_metrics s p w actors
  Run-Ends {w} {p} {actors} run = waits_or_ends p w actors (Run-IsAsked grpc close_metrics s run)
