-- ===== src/Entry/Ending/Closed.antt =====
-- cmd/rca-engine/main.go: what the end of the program leaves behind.
use mirador_rca.Prelude.{◌≡◌, ◌⊎◌, refl, inl, inr, true, some, List, arith}
use mirador_rca.Server.{Server, Actor, Ending, not_serving, drained, cut_off, Grpc}
use mirador_rca.Entry.Serving.{ended}
use mirador_rca.Entry.Ending.{asked, ran_out, Closing, FromStart, Run-IsAsked}
use mirador_rca.Entry.Ending.Held.{Settled, Run-Inv}

module _ {W G L : Type 0} (grpc : Grpc W G) (close_metrics : W → W) (s : Server G L) (server : G)
    (closing : Closing grpc close_metrics server) (serving : s.grpc_server ≡ some server) where
  Settled-ending :
      (e : Ending) (actors : List Actor) (w : W)
      → Settled grpc close_metrics s server closing serving e actors w
      → closing.Closed w
        × ((e ≡ drained) × grpc.Drained server w ⊎ (e ≡ cut_off) × (ran_out actors ≡ true))
  Settled-ending not_serving actors w h = grind arith
  Settled-ending drained actors w h = (closing.drained-closed h, inl (refl, h))
  Settled-ending cut_off actors w h = (h.0, inr (refl, h.1))

  -- The program ends only after its end was asked for, by a signal or by a server that exited, and then
  -- the server of gRPC accepts no call; either every call had ended, or the timer of the shutdown had run
  -- out before the server was stopped.
  pub Run-closed :
      {w0 w : W} {actors : List Actor} {e : Ending}
      → FromStart grpc close_metrics s w0 actors (ended e) w
      → (asked actors ≡ true)
        × closing.Closed w
        × ((e ≡ drained) × grpc.Drained server w ⊎ (e ≡ cut_off) × (ran_out actors ≡ true))
  Run-closed {w} {actors} {e} run =
      let held = Run-Inv grpc close_metrics s server closing serving run in
      let (closed, how) = Settled-ending e actors w held in
      (Run-IsAsked grpc close_metrics s run, closed, how)
