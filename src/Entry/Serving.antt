-- ===== src/Entry/Serving.antt =====
-- cmd/rca-engine/main.go, from the server that serves to the end of the program: the goroutines of the
-- two servers, the signal, and the shutdown in its order.
use mirador_rca.Prelude.{◌≡◌, ◌≢◌, Bool, true, not, String, List, [], ◌∷◌, str_eq, if◌then◌else◌}
use mirador_rca.Prelude.Outcome.{Reply, failure}
use mirador_rca.Server.{
  Server, start, Actor, clients, stopper, program, Ending, ShutdownPhase, begun, returned, Grpc,
  ShutdownStep,
}

-- Where `main` is: it waits for its context, with whether that is done, it shuts down, or it has ended.
pub data Phase : Type 0 where
  waiting : Bool → Phase
  shutting : ShutdownPhase → Phase
  ended : Ending → Phase

module _ {G L : Type 0} where
  -- Whether there is a server of metrics.
  unfoldable pub has_metrics : Server G L → Bool
  has_metrics s = not (str_eq s.cfg.metrics_address "")

-- `http.ErrServerClosed`
abbrev pub err_server_closed : String
err_server_closed = "http: Server closed"

module _ {W G L : Type 0} (close_metrics : W → W) (s : Server G L) where
  -- The server of metrics is shut down where there is one; `main` goes on whatever that comes to.
  unfoldable pub metrics_closed : W → W
  metrics_closed w = if has_metrics s then close_metrics w else w

module _ {W G L : Type 0} (grpc : Grpc W G) (close_metrics : W → W) (s : Server G L) where
  -- A server that exits later than this has nothing left to stop.
  pub data Step : Actor → Phase → W → Phase → W → Type 0 where
    moves : {p : Phase} {w w' : W} → grpc.Moves w w' → Step clients p w p w'
    signalled : {b : Bool} {w : W} → Step stopper (waiting b) w (waiting true) w
    grpc_exited :
        {b : Bool} {w : W} (serve : G → L → Reply (Unit {0})) (e : String)
        → start s serve ≡ failure e
        → Step stopper (waiting b) w (waiting true) w
    metrics_exited :
        {b : Bool} {w : W} (e : String)
        → has_metrics s ≡ true
        → e ≢ err_server_closed
        → Step stopper (waiting b) w (waiting true) w
    shutdown_called : {w : W} → Step program (waiting true) w (shutting begun) w
    shutdown_goes_on :
        {a : Actor} {p p' : ShutdownPhase} {w w' : W}
        → ShutdownStep grpc s a p w p' w'
        → Step a (shutting p) w (shutting p') w'
    metrics_shut :
        {e : Ending} {w : W}
        → Step program (shutting (returned e)) w (ended e) (metrics_closed close_metrics s w)

  -- A run, with who took its steps, the last one first.
  pub data Run (p0 : Phase) (w0 : W) : List Actor → Phase → W → Type 0 where
    here : Run p0 w0 [] p0 w0
    later :
        {actors : List Actor} {a : Actor} {p p' : Phase} {w w' : W}
        → Run p0 w0 actors p w
        → Step a p w p' w'
        → Run p0 w0 (a ∷ actors) p' w'
