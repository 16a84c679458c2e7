-- ===== src/Server.antt =====
-- internal/api/server.go: the server of gRPC. The library's server and the listener are parameters; the
-- interceptors, the health service and reflection are registered with it when it is made.
use mirador_rca.Prelude.{◌≡◌, Bool, true, false, Option, none, some, String}
use mirador_rca.Prelude.Text.{◌<>◌}
use mirador_rca.Prelude.Outcome.{Reply, reply, failure}
use mirador_rca.Model.{Duration}
use mirador_rca.Config.{ServerConfig}

pub record Server (G L : Type 0) : Type 0 where
  pub cfg : ServerConfig
  pub grpc_server : Option G
  pub listener : Option L

module _ {G L : Type 0} where
  -- `NewServer`, from the listener and the library's server for this service.
  unfoldable pub bound : {W : Type 0} → ServerConfig → G → Reply L × W → Reply (Server G L) × W
  bound cfg server (reply listener, w) =
      (reply (record { cfg = cfg; grpc_server = some server; listener = some listener }), w)
  bound cfg server (failure e, w) = (failure ("listen on " <> (cfg.address <> (": " <> e))), w)

  unfoldable pub new_server :
      {W : Type 0} → (String → W → Reply L × W) → ServerConfig → G → W → Reply (Server G L) × W
  new_server listen cfg server w = bound cfg server (listen cfg.address w)

  -- `Start`, from what `Serve` comes to.
  unfoldable pub start : Server G L → (G → L → Reply (Unit {0})) → Reply (Unit {0})
  start s serve = elim s.grpc_server [
    | none ↦ failure "server not initialised"
    | some server ↦ elim s.listener [
      | none ↦ failure "server not initialised"
      | some listener ↦ serve server listener
    ]
  ]

  -- `Address`
  unfoldable pub address : (L → String) → Server G L → String
  address text_of s = elim s.listener [ none ↦ "" | some listener ↦ text_of listener ]

  -- `GracefulTimeout`
  unfoldable pub graceful_timeout : Server G L → Duration
  graceful_timeout s = s.cfg.graceful_timeout

-- Who takes a step: the clients with their calls, who asks for the end, the program, or its timer.
pub data Actor : Type 0 where
  clients stopper program timer : Actor

-- What the shutdown came to: there was no server, every call had ended, or the server was stopped.
pub data Ending : Type 0 where
  not_serving drained cut_off : Ending

-- Where the goroutine is that `Shutdown` starts: it has not called `GracefulStop`, waits for it, or has
-- closed its channel.
pub data Goroutine : Type 0 where
  not_called called closed : Goroutine

-- Where `Shutdown` is: at its start, in the select, with its goroutine and whether the context is done, or
-- at its end. What the goroutine does after that is left out: the server has stopped.
pub data ShutdownPhase : Type 0 where
  begun : ShutdownPhase
  selecting : Goroutine → Bool → ShutdownPhase
  returned : Ending → ShutdownPhase

-- What the library's server does: what goes on while the program waits, the call of `GracefulStop`, when
-- that call returns, and `Stop`.
pub record Grpc (W G : Type 0) : Type 1 where
  pub Moves : W → W → Type 0
  pub graceful_stop : G → W → W
  pub Drained : G → W → Type 0
  pub stop : G → W → W

module _ {W G L : Type 0} (grpc : Grpc W G) (s : Server G L) where
  -- `Shutdown`, with the goroutine that it starts. A select with two ready cases takes either.
  pub data ShutdownStep : Actor → ShutdownPhase → W → ShutdownPhase → W → Type 0 where
    no_server :
        {w : W} → s.grpc_server ≡ none → ShutdownStep program begun w (returned not_serving) w
    select_reached :
        {w : W} {server : G}
        → s.grpc_server ≡ some server
        → ShutdownStep program begun w (selecting not_called false) w
    graceful_stop_called :
        {w : W} {server : G} {t : Bool}
        → s.grpc_server ≡ some server
        → ShutdownStep program
            (selecting not_called t)
            w
            (selecting called t)
            (grpc.graceful_stop server w)
    graceful_stop_returned :
        {w : W} {server : G} {t : Bool}
        → s.grpc_server ≡ some server
        → grpc.Drained server w
        → ShutdownStep program (selecting called t) w (selecting closed t) w
    timed_out :
        {w : W} {r : Goroutine} → ShutdownStep timer (selecting r false) w (selecting r true) w
    stopped_first :
        {w : W} {t : Bool} → ShutdownStep program (selecting closed t) w (returned drained) w
    done_first :
        {w : W} {server : G} {r : Goroutine}
        → s.grpc_server ≡ some server
        → ShutdownStep program (selecting r true) w (returned cut_off) (grpc.stop server w)
