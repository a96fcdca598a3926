-- ===== src/Reconnect/Tests.antt =====
-- Runs of the reconnection (src/utils/cache-reconnect-manager.ts) on given events.
use authentication_v.Base.{ℕ, ◌≡◌, refl, false, List, [], ◌∷◌}
use authentication_v.Reconnect.Manager.{
  Manager, default_reconnect_config, new, execute_reconnect, reset,
}
use authentication_v.Reconnect.Limits.{
  Event, called, ended, was_reset, was_forced, run, IsSingleFlight, has_no_reset,
  run-IsSingleFlight,
}

abbrev fresh : Manager
fresh = new default_reconnect_config

-- Two calls at once, a failure, and another call.
abbrev events : List Event
events = called 10 10 ∷ called 11 11 ∷ ended 20 10 false ∷ was_forced ∷ called 30 31 ∷ []

abbrev tired : Manager
tired = record fresh { reconnect_attempts = 5; last_attempt_time = 1000; total_failures = 5 }

abbrev once_failed : Manager
once_failed = record fresh { reconnect_attempts = 1; last_attempt_time = 1000; total_failures = 1 }

-- After a reset while an attempt runs, a second one runs beside it.
two_running : (run (called 10 10 ∷ was_reset ∷ called 20 20 ∷ []) fresh).running ≡ 2
unfolding run execute_reconnect reset
two_running = refl

run-IsSingleFlight_example : IsSingleFlight (run events fresh)
unfolding has_no_reset
run-IsSingleFlight_example = run-IsSingleFlight events fresh refl refl

abbrev rounds : List (ℕ × ℕ × ℕ)
rounds = (10, 10, 15) ∷ (20, 20, 25) ∷ (30, 30, 35) ∷ []
