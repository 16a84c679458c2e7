-- ===== src/Entry/Ending/Logged.antt =====
-- cmd/rca-engine/main.go and internal/api/server.go: the calls by which the program ends its servers.
use mathlib.Core.List.{append-nil}
use mirador_rca.Prelude.{
  ◌≡◌, ◌⊎◌, refl, sym, ap, inl, inr, true, false, some, List, [], ◌∷◌, ◌++◌, if◌then◌else◌, arith,
}
use mirador_rca.Server.{
  Server, Actor, Ending, not_serving, drained, cut_off, ShutdownPhase, begun, selecting, returned,
  Goroutine, not_called, called, closed, Grpc, ShutdownStep, no_server, graceful_stop_called,
  select_reached, graceful_stop_returned, timed_out, stopped_first, done_first,
}
use mirador_rca.Entry.Serving.{
  Phase, waiting, shutting, ended, has_metrics, metrics_closed, Step, moves, signalled, grpc_exited,
  metrics_exited, shutdown_called, shutdown_goes_on, metrics_shut, here, later,
}
use mirador_rca.Entry.Ending.{FromStart}

-- A call that ends a server: of the library's server, or of the server of metrics.
pub data Call (G : Type 0) : Type 0 where
  graceful_stop_of stop_of : G → Call G
  metrics_shutdown : Call G

module _ {W G : Type 0} where
  -- The library's server and the one of metrics, with a record of the calls.
  abbrev pub logged : Grpc W G → Grpc (W × List (Call G)) G
  logged grpc = record {
    Moves = λ w w'. grpc.Moves w.0 w'.0 × (w'.1 ≡ w.1);
    graceful_stop =
        λ server w. (grpc.graceful_stop server w.0, w.1 ++ graceful_stop_of server ∷ []);
    Drained = λ server w. grpc.Drained server w.0;
    stop = λ server w. (grpc.stop server w.0, w.1 ++ stop_of server ∷ []);
  }

  abbrev pub logged_close : (W → W) → W × List (Call G) → W × List (Call G)
  logged_close close_metrics (w, log) = (close_metrics w, log ++ metrics_shutdown ∷ [])

module _ {G : Type 0} (server : G) where
  -- The calls of a shutdown with this ending.
  abbrev pub ShutdownCalls : Ending → List (Call G) → Type 0
  ShutdownCalls not_serving log = ⊥
  ShutdownCalls drained log = log ≡ graceful_stop_of server ∷ []
  ShutdownCalls cut_off log =
      (log ≡ stop_of server ∷ []) ⊎ (log ≡ graceful_stop_of server ∷ stop_of server ∷ [])

  abbrev GoroutineCalls : Goroutine → List (Call G) → Type 0
  GoroutineCalls not_called log = log ≡ []
  GoroutineCalls called log = log ≡ graceful_stop_of server ∷ []
  GoroutineCalls closed log = log ≡ graceful_stop_of server ∷ []

  stopped_too :
      (r : Goroutine) (log : List (Call G))
      → GoroutineCalls r log
      → ShutdownCalls cut_off (log ++ stop_of server ∷ [])
  stopped_too not_called log h = inl (ap (λ l. l ++ stop_of server ∷ []) h)
  stopped_too called log h = inr (ap (λ l. l ++ stop_of server ∷ []) h)
  stopped_too closed log h = inr (ap (λ l. l ++ stop_of server ∷ []) h)

module _ {W G L : Type 0} (grpc : Grpc W G) (close_metrics : W → W) (s : Server G L) (server : G)
    (serving : s.grpc_server ≡ some server) where
  -- The calls of a program that has ended: last the server of metrics is shut down, where there is one.
  abbrev pub EndCalls : Ending → List (Call G) → Type 0
  EndCalls e log =
      (before : List (Call G)) × ShutdownCalls server e before
      × (log ≡ before ++ (if has_metrics s then metrics_shutdown ∷ [] else []))

  abbrev Calls : Phase → List (Call G) → Type 0
  Calls (waiting b) log = log ≡ []
  Calls (shutting begun) log = log ≡ []
  Calls (shutting (selecting r t)) log = GoroutineCalls server r log
  Calls (shutting (returned e)) log = ShutdownCalls server e log
  Calls (ended e) log = EndCalls e log

  same_server : {other : G} → s.grpc_server ≡ some other → other ≡ server
  same_server there = grind (arith, serving, there)

  ShutdownStep-Calls :
      {a : Actor} {p p' : ShutdownPhase} {w w' : W × List (Call G)}
      → ShutdownStep (logged grpc) s a p w p' w'
      → Calls (shutting p) w.1
      → Calls (shutting p') w'.1
  ShutdownStep-Calls (no_server none_there) h = absurd (grind (arith, serving, none_there))
  ShutdownStep-Calls (select_reached there) h = h
  ShutdownStep-Calls (graceful_stop_called {server = other} there) h =
      rw (h, same_server there) refl
  ShutdownStep-Calls (graceful_stop_returned there done) h = h
  ShutdownStep-Calls timed_out h = h
  ShutdownStep-Calls stopped_first h = h
  ShutdownStep-Calls (done_first {w} {server = other} {r} there) h =
      rw (same_server there) (stopped_too server r w.1 h)

  metrics_closed-log :
      (w : W × List (Call G))
      → (metrics_closed (logged_close close_metrics) s w).1
        ≡ w.1 ++ (if has_metrics s then metrics_shutdown ∷ [] else [])
  unfolding metrics_closed
  metrics_closed-log w =
      elim (has_metrics s)
        as (λ b.
          (if b then logged_close close_metrics w else w).1
          ≡ w.1 ++ (if b then metrics_shutdown ∷ [] else [])) [
            | true ↦ refl
            | false ↦ sym (append-nil w.1)
          ]

  Step-Calls :
      {a : Actor} {p p' : Phase} {w w' : W × List (Call G)}
      → Step (logged grpc) (logged_close close_metrics) s a p w p' w'
      → Calls p w.1
      → Calls p' w'.1
  Step-Calls (moves {p} {w} {w'} m) h = rw (m.1) h
  Step-Calls signalled h = h
  Step-Calls (grpc_exited serve e failed) h = h
  Step-Calls (metrics_exited e there failed) h = h
  Step-Calls shutdown_called h = h
  Step-Calls (shutdown_goes_on step) h = ShutdownStep-Calls step h
  Step-Calls (metrics_shut {e} {w}) h = (w.1, h, metrics_closed-log w)

  Run-Calls :
      {w0 : W} {w : W × List (Call G)} {actors : List Actor} {p : Phase}
      → FromStart (logged grpc) (logged_close close_metrics) s (w0, []) actors p w
      → Calls p w.1
  Run-Calls here = refl
  Run-Calls (later run step) = Step-Calls step (Run-Calls run)

  -- A program with a server of gRPC that has come to its end has made these calls on its servers, each
  -- once and in this order, and no other: `GracefulStop` alone, where the ending is `drained`; `Stop`
  -- alone, or `GracefulStop` and then `Stop`, where it is `cut_off`, and there is no other ending; and
  -- last, where metrics are served, the shutdown of their server. What the goroutine of `Shutdown` calls
  -- after that has returned is left out.
  pub Run-EndCalls :
      (w0 : W) (w : W × List (Call G)) (actors : List Actor) (e : Ending)
      → FromStart (logged grpc) (logged_close close_metrics) s (w0, []) actors (ended e) w
      → EndCalls e w.1
  Run-EndCalls w0 w actors e run = Run-Calls run
