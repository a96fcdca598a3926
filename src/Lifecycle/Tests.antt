-- ===== src/Lifecycle/Tests.antt =====
-- Runs of the lifecycle classes (src/lifecycle/) on given calls.
use authentication_v.Base.{
  ℕ, ◌+◌, ◌*◌, ◌≤◌, ◌<◌, ◌≡◌, refl, ◌↔◌, ◌⊎◌, Bool, true, false, Option, none, some, String, List,
  [], ◌∷◌, ◌++◌, arith, length, is_some, if◌then◌else◌,
}
use authentication_v.Base.Int.{pos}
use authentication_v.Base.Dict.{get, set, delete, size}
use authentication_v.Lifecycle.Machine.{
  LifecycleState, initializing, starting, ready, draining, stopping, stopped, error, Machine,
  can_accept_requests, same,
}
use authentication_v.Lifecycle.Machine
use authentication_v.Lifecycle.Course.{run, HasCourse, run-refuses, run-HasCourse}
use authentication_v.Lifecycle.Inflight.{
  RequestMetadata, Tracker, Event, started, completed, failed, DrainConfig, DrainResult, Round,
  default_drain_config, handle, handle_all, poll, drain_result, wait_for_completion, start,
  complete,
}
use authentication_v.Lifecycle.Inflight
use authentication_v.Lifecycle.Inflight.{get_active_count}
use authentication_v.Lifecycle.Middleware
use authentication_v.Lifecycle.Middleware.{
  Arrival, bypassed, problem, bypasses, lifecycle_middleware,
}
use authentication_v.Lifecycle.Admission.{drain-shrinks}
use authentication_v.Lifecycle.Accounting.{restarted, handle_all-accounts}
use authentication_v.Lifecycle.Drain.{wait_for_completion-total, wait_for_completion_sound}
use authentication_v.Lifecycle.Coordinator.{
  Component, Coordinator, Race, finished, rejected, timed_out, ShutdownConfig, shutdown_all,
  prepare_all, handle_state_change, default_shutdown_config,
}
use authentication_v.Lifecycle.Coordinator
use authentication_v.Lifecycle.Order.{Request, add, remove, serve, IsOrdered, serve-IsOrdered}
use authentication_v.Lifecycle.Shutdown.{
  component_names, result_names, failing_names, shutdown_all-continues, shutdown_all-stops,
}

abbrev attempts : List (ℕ × LifecycleState)
attempts = (1, starting) ∷ (2, draining) ∷ (3, ready) ∷ (4, draining) ∷ []

abbrev drained_machine : Machine
drained_machine = record {
  state = draining;
  listeners = [];
  transition_timestamps = (initializing, 0) ∷ (starting, 1) ∷ (ready, 2) ∷ (draining, 3) ∷ [];
  start_time = 0;
}

run-refuses_example :
    can_accept_requests (run ((5, ready) ∷ (6, stopping) ∷ []) drained_machine) ≡ false
run-refuses_example = run-refuses ((5, ready) ∷ (6, stopping) ∷ []) drained_machine tt

run-HasCourse_example :
    HasCourse (run attempts (Machine.new 0)).state (run attempts (Machine.new 0))
run-HasCourse_example = run-HasCourse 0 attempts

abbrev token_request : RequestMetadata
token_request = record {
  endpoint = "/tokens";
  start_time = 10;
  method = some "GET";
  request_id = none;
}

abbrev quick : DrainConfig
quick = record { timeout_ms = 200; check_interval_ms = 100 }

-- Two requests are active.
abbrev busy : Tracker
busy = record {
  active_requests = ("a", token_request) ∷ ("b", token_request) ∷ [];
  completed_count = 0;
  failed_count = 0;
  total_count = 2;
}

abbrev rounds : List Round
rounds =
    record { events = completed "a" ∷ []; wake = 1100 }
    ∷ record { events = failed "b" ∷ completed "b" ∷ []; wake = 1200 }
    ∷ []

abbrev settled : Tracker
settled = record { active_requests = []; completed_count = 1; failed_count = 1; total_count = 2 }

abbrev report : DrainResult
report = record { drained = true; completed_count = pos 2; remaining = 0; duration_ms = 200 }

drain_runs : wait_for_completion quick 1000 rounds busy ≡ some (settled, report)
unfolding wait_for_completion handle complete Inflight.fail get delete
drain_runs = refl

handle_all-accounts_example :
    let t =
      handle_all
        (started "a" token_request ∷ started "a" token_request ∷ completed "a" ∷ [])
        Inflight.new in
    size t.active_requests
      + t.completed_count
      + t.failed_count
      + restarted
          (started "a" token_request ∷ started "a" token_request ∷ completed "a" ∷ [])
          Inflight.new
    ≡ t.total_count
handle_all-accounts_example =
    handle_all-accounts (started "a" token_request ∷ started "a" token_request ∷ completed "a" ∷ [])

wait_for_completion-total_example : is_some (wait_for_completion quick 1000 rounds busy) ≡ true
wait_for_completion-total_example =
    wait_for_completion-total quick 1000 rounds busy (omega arith, (omega arith, tt)) (omega arith)

wait_for_completion_sound_example :
    (report.remaining ≡ size settled.active_requests)
    × ((report.drained ≡ true) ↔ (size settled.active_requests ≡ 0))
    × (0 < size settled.active_requests → quick.timeout_ms ≤ report.duration_ms)
wait_for_completion_sound_example =
    wait_for_completion_sound quick 1000 rounds busy {t' = settled} {r = report} drain_runs

busy_unique : authentication_v.Base.Dict.HasDistinctKeys busy.active_requests
unfolding get
busy_unique = (refl, (refl, tt))

abbrev component : String → ℕ → Race → Component
component name priority race = record {
  name = name;
  priority = priority;
  prepares = true;
  race = race;
  health = none;
}

abbrev requests : List Request
requests =
    add (component "cache" 10 (finished 5))
    ∷ add (component "server" 90 (finished 3))
    ∷ add (component "cache" 50 (finished 5))
    ∷ remove "telemetry"
    ∷ []

serve-IsOrdered_example : IsOrdered (serve requests Coordinator.new)
serve-IsOrdered_example = serve-IsOrdered requests

-- The second of three components fails.
abbrev three : Coordinator
three = record {
  components =
      component "server" 90 (finished 3)
      ∷ component "cache" 50 (rejected 7 "no connection")
      ∷ component "telemetry" 10 (finished 2)
      ∷ [];
  prepared = false;
  shutting_down = false;
}

abbrev stops_early : ShutdownConfig
stops_early = record { component_timeout_ms = 3000; continue_on_error = false }

shutdown_all-continues_example :
    let r = (shutdown_all default_shutdown_config 12 three).1 in
    (result_names r.components ≡ "server" ∷ "cache" ∷ "telemetry" ∷ [])
    × (r.failed_components ≡ "cache" ∷ [])
    × ((r.success ≡ true) ↔ (failing_names three.components ≡ []))
shutdown_all-continues_example = shutdown_all-continues default_shutdown_config 12 three refl refl

shutdown_all-stops_example :
    let r = (shutdown_all stops_early 12 three).1 in
    (rest : List Component) × (result_names r.components ++ component_names rest
      ≡ component_names three.components)
    × ((r.failed_components ≡ []) × (rest ≡ [])
        ⊎ ((name : String) × (r.failed_components ≡ name ∷ [])))
shutdown_all-stops_example = shutdown_all-stops stops_early 12 three refl refl

abbrev arrival : Arrival
arrival = record { path = "/tokens"; method = "GET"; request_id = "req_9"; now = 60 }

abbrev late_events : List Middleware.Event
late_events =
    Middleware.arrives arrival
    ∷ Middleware.attempts 61 stopping
    ∷ Middleware.responds (some "req_1")
    ∷ []

drain-shrinks_example :
    (get_active_count (Middleware.handle_all late_events (drained_machine, Inflight.new)).1
      ≤ get_active_count Inflight.new)
    × (lifecycle_middleware arrival
          (Middleware.handle_all late_events (drained_machine, Inflight.new)).0
          (Middleware.handle_all late_events (drained_machine, Inflight.new)).1
        ≡ (
          (Middleware.handle_all late_events (drained_machine, Inflight.new)).1,
          if bypasses "/tokens"
              then bypassed
              else problem 503 (
                  if same
                    (Middleware.handle_all late_events (drained_machine, Inflight.new)).0.state
                    draining
                  then 5
                  else 10),
        ))
drain-shrinks_example = drain-shrinks late_events arrival drained_machine Inflight.new tt
