-- ===== src/Entry/Program.antt =====
-- cmd/rca-engine/main.go: the program from its start to its end.
use mirador_rca.Prelude.{◌≡◌, ◌⊎◌, true, some, String, List}
use mirador_rca.Prelude.Outcome.{Reply}
use mirador_rca.Double.{Double}
use mirador_rca.Files.{FileRead}
use mirador_rca.Config.{Config}
use mirador_rca.Cache.Provider.{Provider}
use mirador_rca.Cache.Valkey.{ValkeyConfig}
use mirador_rca.Core.Http.{HttpCore}
use mirador_rca.Engine.Rules.{Rule}
use mirador_rca.Service.Handlers.{RcaService}
use mirador_rca.Server.{Server, Actor, Ending, drained, cut_off, Grpc}
use mirador_rca.Weaviate.{Outside}
use mirador_rca.Entry.{serves, start_service}
use mirador_rca.Entry.Startup.{built}
use mirador_rca.Entry.Serving.{Phase, ended}
use mirador_rca.Entry.Ending.{asked, ran_out, Closing, FromStart, WaitsOrEnds}
use mirador_rca.Entry.Ending.Closed.{Run-closed}
use mirador_rca.Entry.Ending.Alone.{Run-Ends}

module _ {W D F B G L : Type 0} ⦃d : Double F⦄ (h : HttpCore W D F) (x : Outside W D F)
    (new_valkey : ValkeyConfig → W → Reply (Provider W D) × W) (decode : B → Reply (List Rule))
    (read_file : String → FileRead B) (register : W → Reply (Unit {0}) × W)
    (listen : String → W → Reply L × W) (grpc_server : RcaService W F → G) (cfg : Config)
    (grpc : Grpc W G) (close_metrics : W → W) (w w0 : W) (service : RcaService W F)
    (server : Server G L)
    (started : start_service h x new_valkey decode read_file register listen grpc_server cfg w
      ≡ (serves (service, server), w0)) where
  serving : server.grpc_server ≡ some (grpc_server service)
  serving =
      let (cache, rules, _, same) =
        built h x new_valkey decode read_file register listen grpc_server cfg w w0 service server
          started in
      same

  -- A program that was started ends only after its end was asked for, by a signal or by a server that
  -- exited, and then the server of its service accepts no call; either every call had ended, or the timer
  -- of the shutdown had run out before the server was stopped. This holds where the library's server
  -- accepts no call once it has drained or was stopped, whatever clients do then.
  pub start_service-closed :
      (closing : Closing grpc close_metrics (grpc_server service)) (v : W) (actors : List Actor)
      (e : Ending)
      → FromStart grpc close_metrics server w0 actors (ended e) v
      → (asked actors ≡ true)
        × closing.Closed v
        × ((e ≡ drained) × grpc.Drained (grpc_server service) v
            ⊎ (e ≡ cut_off) × (ran_out actors ≡ true))
  start_service-closed closing v actors e run =
      Run-closed grpc close_metrics server (grpc_server service) closing serving run

  -- Wherever the run of a program that was started has come, it waits at its start as long as nobody has
  -- asked for its end; as soon as a signal came or a server exited, it can end in at most five steps of
  -- its own and its timer, whatever calls are still open and though no client does anything.
  pub start_service-ends :
      (v : W) (p : Phase) (actors : List Actor)
      → FromStart grpc close_metrics server w0 actors p v
      → WaitsOrEnds grpc close_metrics server p v actors
  start_service-ends v p actors run =
      Run-Ends grpc close_metrics server (grpc_server service) serving run
