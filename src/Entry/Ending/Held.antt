-- ===== src/Entry/Ending/Held.antt =====
-- cmd/rca-engine/main.go and internal/api/server.go: what holds of the shutdown in every reachable state.
use mathlib.Core.Path.{subst}
use mirador_rca.Prelude.{
  ◌≡◌, refl, sym, Bool, true, false, none, some, List, ◌∷◌, if◌then◌else◌, arith,
}
use mirador_rca.Server.{
  Server, Actor, clients, program, Ending, not_serving, drained, cut_off, ShutdownPhase, begun,
  selecting, returned, Grpc, ShutdownStep, no_server, graceful_stop_called, select_reached,
  Goroutine, not_called, called, closed, graceful_stop_returned, timed_out, stopped_first,
  done_first,
}
use mirador_rca.Entry.Serving.{
  Phase, waiting, shutting, ended, has_metrics, metrics_closed, Step, moves, signalled, grpc_exited,
  metrics_exited, shutdown_called, shutdown_goes_on, metrics_shut, here, later,
}
use mirador_rca.Entry.Ending.{ran_out, Closing, FromStart}

module _ {W G L : Type 0} (grpc : Grpc W G) (close_metrics : W → W) (s : Server G L) (server : G)
    (closing : Closing grpc close_metrics server) (serving : s.grpc_server ≡ some server) where
  same_server : {other : G} → s.grpc_server ≡ some other → server ≡ other
  same_server e = grind arith

  abbrev pub Settled : Ending → List Actor → W → Type 0
  Settled not_serving actors w = s.grpc_server ≡ none
  Settled drained actors w = grpc.Drained server w
  Settled cut_off actors w = closing.Closed w × (ran_out actors ≡ true)

  abbrev HasDrained : Goroutine → W → Type 0
  HasDrained not_called w = Unit
  HasDrained called w = Unit
  HasDrained closed w = grpc.Drained server w

  abbrev IsOut : Bool → List Actor → Type 0
  IsOut true actors = ran_out actors ≡ true
  IsOut false actors = Unit

  -- What holds of the shutdown wherever it is.
  abbrev Held : ShutdownPhase → List Actor → W → Type 0
  Held begun actors w = Unit
  Held (selecting r t) actors w = HasDrained r w × IsOut t actors
  Held (returned e) actors w = Settled e actors w

  -- What holds in every phase that can be reached.
  abbrev pub Inv : Phase → List Actor → W → Type 0
  Inv (waiting b) actors w = Unit
  Inv (shutting p) actors w = Held p actors w
  Inv (ended e) actors w = Settled e actors w

  Settled-Moves :
      (e : Ending) (actors : List Actor) {w w' : W}
      → grpc.Moves w w'
      → Settled e actors w
      → Settled e (clients ∷ actors) w'
  Settled-Moves not_serving actors m h = h
  Settled-Moves drained actors m h = closing.moves-drained m h
  Settled-Moves cut_off actors m h = (closing.moves-closed m h.0, h.1)

  HasDrained-Moves : (r : Goroutine) {w w' : W} → grpc.Moves w w' → HasDrained r w → HasDrained r w'
  HasDrained-Moves not_called m h = tt
  HasDrained-Moves called m h = tt
  HasDrained-Moves closed m h = closing.moves-drained m h

  Held-Moves :
      (p : ShutdownPhase) (actors : List Actor) {w w' : W}
      → grpc.Moves w w'
      → Held p actors w
      → Held p (clients ∷ actors) w'
  Held-Moves begun actors m h = tt
  Held-Moves (selecting r true) actors m h = (HasDrained-Moves r m h.0, h.1)
  Held-Moves (selecting r false) actors m h = (HasDrained-Moves r m h.0, tt)
  Held-Moves (returned e) actors m h = Settled-Moves e actors m h

  Inv-Moves :
      (p : Phase) (actors : List Actor) {w w' : W}
      → grpc.Moves w w'
      → Inv p actors w
      → Inv p (clients ∷ actors) w'
  Inv-Moves (waiting b) actors m h = h
  Inv-Moves (shutting p) actors m h = Held-Moves p actors m h
  Inv-Moves (ended e) actors m h = Settled-Moves e actors m h

  drained-if :
      (b : Bool) (w : W)
      → grpc.Drained server w
      → grpc.Drained server (if b then close_metrics w else w)
  drained-if true w h = closing.metrics-drained h
  drained-if false w h = h

  closed-if :
      (b : Bool) (w : W) → closing.Closed w → closing.Closed (if b then close_metrics w else w)
  closed-if true w h = closing.metrics-closed h
  closed-if false w h = h

  Settled-metrics :
      (e : Ending) (actors : List Actor) (w : W)
      → Settled e actors w
      → Settled e (program ∷ actors) (metrics_closed close_metrics s w)
  unfolding metrics_closed
  Settled-metrics not_serving actors w h = h
  Settled-metrics drained actors w h = drained-if (has_metrics s) w h
  Settled-metrics cut_off actors w h = (closed-if (has_metrics s) w h.0, h.1)

  IsOut-program : (t : Bool) (actors : List Actor) → IsOut t actors → IsOut t (program ∷ actors)
  IsOut-program true actors h = h
  IsOut-program false actors h = h

  ShutdownStep-Held :
      {a : Actor} {p p' : ShutdownPhase} {w w' : W}
      → ShutdownStep grpc s a p w p' w'
      → (actors : List Actor) → Held p actors w
      → Held p' (a ∷ actors) w'
  ShutdownStep-Held (no_server none_there) actors h = none_there
  ShutdownStep-Held (select_reached there) actors h = (tt, tt)
  ShutdownStep-Held (graceful_stop_called {t} there) actors h = (tt, IsOut-program t actors h.1)
  ShutdownStep-Held (graceful_stop_returned {w} {t} there done) actors h =
      (subst (λ g. grpc.Drained g w) (sym (same_server there)) done, IsOut-program t actors h.1)
  ShutdownStep-Held timed_out actors h = (h.0, refl)
  ShutdownStep-Held stopped_first actors h = h.0
  ShutdownStep-Held (done_first {w} there) actors h =
      (subst (λ g. closing.Closed (grpc.stop g w)) (same_server there) (closing.stop-closed w), h.1)

  Step-Inv :
      {a : Actor} {p p' : Phase} {w w' : W}
      → Step grpc close_metrics s a p w p' w'
      → (actors : List Actor) → Inv p actors w
      → Inv p' (a ∷ actors) w'
  Step-Inv (moves {p} m) actors h = Inv-Moves p actors m h
  Step-Inv signalled actors h = tt
  Step-Inv (grpc_exited serve e failed) actors h = tt
  Step-Inv (metrics_exited e there failed) actors h = tt
  Step-Inv shutdown_called actors h = tt
  Step-Inv (shutdown_goes_on step) actors h = ShutdownStep-Held step actors h
  Step-Inv (metrics_shut {e} {w}) actors h = Settled-metrics e actors w h

  pub Run-Inv :
      {w0 : W} {p : Phase} {w : W} {actors : List Actor}
      → FromStart grpc close_metrics s w0 actors p w
      → Inv p actors w
  Run-Inv here = tt
  Run-Inv (later {actors} run step) = Step-Inv step actors (Run-Inv run)
