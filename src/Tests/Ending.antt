-- ===== src/Tests/Ending.antt =====
-- A program that is started, takes a call, and is told to end while the call is open.
use mirador_rca.Prelude.{ℕ, ◌+◌, ◌≡◌, ◌⊎◌, refl, Bool, true, false, List, [], ◌∷◌, ◌++◌, arith}
use mirador_rca.Double.Fixed.{Fixed, fixed_double}
use mirador_rca.Config.{default_config}
use mirador_rca.Service.Handlers.{RcaService}
use mirador_rca.Server.{
  Actor, clients, stopper, program, timer, drained, cut_off, Grpc, graceful_stop_called,
  select_reached, timed_out, done_first,
}
use mirador_rca.Entry.Serving.{
  waiting, ended, metrics_closed, moves, signalled, shutdown_called, shutdown_goes_on, metrics_shut,
  here, later,
}
use mirador_rca.Entry.Ending.{asked, ran_out, Closing, FromStart, WaitsOrEnds}
use mirador_rca.Entry.Ending.Logged.{
  graceful_stop_of, stop_of, Call, logged, logged_close, EndCalls, Run-EndCalls,
}
use mirador_rca.Entry.Program.{start_service-closed, start_service-ends}
use mirador_rca.Tests.Startup.{
  offline, outside, refused, no_rules, empty_file, registered, listening, served, server,
  starts_lem,
}

-- The calls that are open, and whether calls are accepted.
abbrev World : Type 0
World = ℕ × Bool

data Moves : World → World → Type 0 where
  call_begins : {n : ℕ} → Moves (n, true) (n + 1, true)
  call_ends : {n : ℕ} {b : Bool} → Moves (n + 1, b) (n, b)

abbrev Gone : World → Type 0
Gone w = (w.0 ≡ 0) × (w.1 ≡ false)

abbrev grpc : Grpc World (RcaService World Fixed)
grpc = record {
  Moves = Moves;
  graceful_stop = λ service w. (w.0, false);
  Drained = λ service w. Gone w;
  stop = λ service w. (0, false);
}

Moves-closed : {w w' : World} → Moves w w' → w.1 ≡ false → w'.1 ≡ false
Moves-closed call_begins h = h
Moves-closed call_ends h = h

Moves-Gone : {w w' : World} → Moves w w' → Gone w → Gone w'
Moves-Gone call_begins h = grind arith
Moves-Gone (call_ends {n}) h = (omega (arith, h.0), h.1)

abbrev closing : Closing grpc (λ w. w) served
closing = record {
  Closed = λ w. w.1 ≡ false;
  drained-closed = λ h. h.1;
  stop-closed = λ w. refl;
  moves-closed = Moves-closed;
  moves-drained = Moves-Gone;
  metrics-closed = λ h. h;
  metrics-drained = λ h. h;
}

abbrev told : List Actor
told = stopper ∷ clients ∷ []

run_told : FromStart grpc (λ w. w) server (0, true) told (waiting true) (1, true)
run_told = later (later here (moves call_begins)) signalled

abbrev over : List Actor
over = program ∷ program ∷ timer ∷ program ∷ program ∷ program ∷ told

abbrev last_world : World
last_world = metrics_closed (λ w. w) (server {W = World}) (0, false)

run_over : FromStart grpc (λ w. w) server (0, true) over (ended cut_off) last_world
run_over =
    later
      (later
        (later
          (later (later (later run_told shutdown_called) (shutdown_goes_on (select_reached refl)))
            (shutdown_goes_on (graceful_stop_called refl)))
          (shutdown_goes_on timed_out))
        (shutdown_goes_on (done_first refl)))
      metrics_shut

start_service-closed_example :
    (asked over ≡ true)
    × (last_world.1 ≡ false)
    × ((cut_off ≡ drained) × Gone last_world ⊎ (cut_off ≡ cut_off) × (ran_out over ≡ true))
start_service-closed_example =
    start_service-closed offline outside refused no_rules empty_file registered listening
      (λ service. service) default_config grpc (λ w. w) (0, true) (0, true) served server
      (starts_lem (0, true)) closing last_world over cut_off run_over

start_service-ends_example : WaitsOrEnds grpc (λ w. w) server (waiting true) (1, true) told
start_service-ends_example =
    start_service-ends offline outside refused no_rules empty_file registered listening
      (λ service. service) default_config grpc (λ w. w) (0, true) (0, true) served server
      (starts_lem (0, true)) (1, true) (waiting true) told run_told

abbrev logged_world : World × List (Call (RcaService World Fixed))
logged_world =
    metrics_closed (logged_close (λ w. w)) (server {W = World})
      ((0, false), [] ++ graceful_stop_of served ∷ [] ++ stop_of served ∷ [])

run_logged :
    FromStart
      (logged grpc)
      (logged_close (λ w. w))
      server
      ((0, true), [])
      over
      (ended cut_off)
      logged_world
run_logged =
    later
      (later
        (later
          (later
            (later
              (later (later (later here (moves (call_begins, refl))) signalled) shutdown_called)
              (shutdown_goes_on (select_reached refl)))
            (shutdown_goes_on (graceful_stop_called refl)))
          (shutdown_goes_on timed_out))
        (shutdown_goes_on (done_first refl)))
      metrics_shut

Run-EndCalls_example : EndCalls grpc (λ w. w) server served refl cut_off logged_world.1
Run-EndCalls_example =
    Run-EndCalls grpc (λ w. w) server served refl (0, true) logged_world over cut_off run_logged
