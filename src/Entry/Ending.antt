-- ===== src/Entry/Ending.antt =====
-- cmd/rca-engine/main.go and internal/api/server.go: who took the steps of a run, and what they ask for.
pub mod Logged
pub mod Held
pub mod Closed
pub mod Alone
use mathlib.Core.Path.{subst}
use mirador_rca.Prelude.{
  length, ◌≤◌, ◌⊎◌, ℕ, ◌+◌, ◌≤◌, ◌≡◌, ◌⊎◌, refl, sym, inl, inr, Bool, true, false, Option, none,
  some, List, [], ◌∷◌, length, if◌then◌else◌, arith,
}
use mirador_rca.Server.{
  Server, Actor, clients, stopper, program, timer, Ending, not_serving, drained, cut_off,
  ShutdownPhase, begun, selecting, returned, Grpc, ShutdownStep, no_server, graceful_stop_called,
  select_reached, graceful_stop_returned, timed_out, stopped_first, done_first,
}
use mirador_rca.Entry.Serving.{
  Phase, waiting, shutting, ended, has_metrics, metrics_closed, Step, moves, signalled, grpc_exited,
  metrics_exited, shutdown_called, shutdown_goes_on, metrics_shut, Run, here, later,
}

-- Whether the end was asked for, whether the timer ran out, and whether the program ran alone.
abbrev pub asked : List Actor → Bool
asked [] = false
asked (clients ∷ actors) = asked actors
asked (stopper ∷ actors) = true
asked (program ∷ actors) = asked actors
asked (timer ∷ actors) = asked actors

abbrev pub ran_out : List Actor → Bool
ran_out [] = false
ran_out (clients ∷ actors) = ran_out actors
ran_out (stopper ∷ actors) = ran_out actors
ran_out (program ∷ actors) = ran_out actors
ran_out (timer ∷ actors) = true

abbrev pub alone : List Actor → Bool
alone [] = true
alone (clients ∷ actors) = false
alone (stopper ∷ actors) = false
alone (program ∷ actors) = alone actors
alone (timer ∷ actors) = alone actors

-- What the library says of its server: one that has drained, or was stopped, accepts no call, and neither
-- clients nor the end of the other server change that.
pub record Closing {W G : Type 0} (grpc : Grpc W G) (close_metrics : W → W) (server : G)
    : Type 1 where
  pub Closed : W → Type 0
  pub drained-closed : {w : W} → grpc.Drained server w → Closed w
  pub stop-closed : (w : W) → Closed (grpc.stop server w)
  pub moves-closed : {w w' : W} → grpc.Moves w w' → Closed w → Closed w'
  pub moves-drained : {w w' : W} → grpc.Moves w w' → grpc.Drained server w → grpc.Drained server w'
  pub metrics-closed : {w : W} → Closed w → Closed (close_metrics w)
  pub metrics-drained : {w : W} → grpc.Drained server w → grpc.Drained server (close_metrics w)

-- Whether the end was asked for where the phase says so.
abbrev pub IsAsked : Phase → List Actor → Type 0
IsAsked (waiting b) actors = asked actors ≡ b
IsAsked (shutting p) actors = asked actors ≡ true
IsAsked (ended e) actors = asked actors ≡ true

module _ {W G L : Type 0} (grpc : Grpc W G) (close_metrics : W → W) (s : Server G L) where
  IsAsked-moves :
      (p : Phase) (actors : List Actor) → IsAsked p actors → IsAsked p (clients ∷ actors)
  IsAsked-moves (waiting b) actors h = h
  IsAsked-moves (shutting p) actors h = h
  IsAsked-moves (ended e) actors h = h

  asked-shutdown :
      {a : Actor} {p p' : ShutdownPhase} {w w' : W}
      → ShutdownStep grpc s a p w p' w'
      → (actors : List Actor) → asked actors ≡ true
      → asked (a ∷ actors) ≡ true
  asked-shutdown (no_server none_there) actors h = h
  asked-shutdown (select_reached there) actors h = h
  asked-shutdown (graceful_stop_called there) actors h = h
  asked-shutdown (graceful_stop_returned there done) actors h = h
  asked-shutdown timed_out actors h = h
  asked-shutdown stopped_first actors h = h
  asked-shutdown (done_first there) actors h = h

  Step-IsAsked :
      {a : Actor} {p p' : Phase} {w w' : W}
      → Step grpc close_metrics s a p w p' w'
      → (actors : List Actor) → IsAsked p actors
      → IsAsked p' (a ∷ actors)
  Step-IsAsked (moves {p} m) actors h = IsAsked-moves p actors h
  Step-IsAsked signalled actors h = refl
  Step-IsAsked (grpc_exited serve e failed) actors h = refl
  Step-IsAsked (metrics_exited e there failed) actors h = refl
  Step-IsAsked shutdown_called actors h = h
  Step-IsAsked (shutdown_goes_on step) actors h = asked-shutdown step actors h
  Step-IsAsked metrics_shut actors h = h

  abbrev pub FromStart : W → List Actor → Phase → W → Type 0
  FromStart w0 = Run grpc close_metrics s (waiting false) w0

  pub Run-IsAsked :
      {w0 : W} {p : Phase} {w : W} {actors : List Actor}
      → FromStart w0 actors p w
      → IsAsked p actors
  Run-IsAsked here = refl
  Run-IsAsked (later {actors} run step) = Step-IsAsked step actors (Run-IsAsked run)

  -- A run of at most so many steps that the program takes alone, and that ends.
  abbrev pub Ends : ℕ → Phase → W → Type 0
  Ends n p w =
      (actors : List Actor) × (e : Ending) × (w' : W) × Run grpc close_metrics s p w actors
        (ended e) w'
      × (alone actors ≡ true)
      × (length actors ≤ n)

  -- The program waits, or its end was asked for and it can end alone.
  abbrev pub WaitsOrEnds : Phase → W → List Actor → Type 0
  WaitsOrEnds p w actors =
      (asked actors ≡ false) × (p ≡ waiting false) ⊎ (asked actors ≡ true) × Ends 5 p w
