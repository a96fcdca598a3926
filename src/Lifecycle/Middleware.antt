-- ===== src/Lifecycle/Middleware.antt =====
-- The middleware of src/middleware/lifecycle-middleware.ts over the state machine and the tracker of
-- requests. The id of a request, which is made from the clock and a random number, is part of its arrival.
use authentication_v.Base.{
  ℕ, Bool, false, ◌||◌, Option, none, some, String, List, [], ◌∷◌, str_eq, if◌then◌else◌,
}
use authentication_v.Lifecycle.Machine.{
  LifecycleState, draining, Machine, same, can_accept_requests, transition_to,
}
use authentication_v.Lifecycle.Inflight.{Tracker, start, complete}

-- `BYPASS_PATHS`
abbrev pub bypass_paths : List String
bypass_paths =
    "/health" ∷ "/health/ready" ∷ "/health/live" ∷ "/health/telemetry" ∷ "/health/metrics"
    ∷ "/metrics" ∷ []

abbrev includes : String → List String → Bool
includes path [] = false
includes path (p ∷ ps) = str_eq p path || includes path ps

unfoldable pub bypasses : String → Bool
bypasses path = includes path bypass_paths

pub record Arrival : Type 0 where
  pub path : String
  pub method : String
  pub request_id : String
  pub now : ℕ

-- What the middleware answers: nothing to do, a problem response with its status and the seconds of its
-- header Retry-After, or the id under which the request is tracked.
pub data Admission : Type 0 where
  bypassed : Admission
  problem : ℕ → ℕ → Admission
  tracked : String → Admission

unfoldable pub lifecycle_middleware : Arrival → Machine → Tracker → Tracker × Admission
unfolding bypasses can_accept_requests start
lifecycle_middleware a m t =
    if bypasses a.path
    then (t, bypassed)
    else if can_accept_requests m
    then (
      start a.request_id
          (record {
            endpoint = a.path;
            start_time = a.now;
            method = some a.method;
            request_id = some a.request_id;
          })
          t,
      tracked a.request_id,
    )
    else (t, problem 503 (if same m.state draining then 5 else 10))

-- `lifecycleOnAfterResponse`, with the id in the store.
unfoldable pub lifecycle_on_after_response : Option String → Tracker → Tracker
unfolding complete
lifecycle_on_after_response none t = t
lifecycle_on_after_response (some id) t = if str_eq id "" then t else complete id t

-- What happens to the service, of what the machine and the tracker see.
pub data Event : Type 0 where
  attempts : ℕ → LifecycleState → Event
  arrives : Arrival → Event
  responds : Option String → Event

unfoldable pub handle : Event → Machine × Tracker → Machine × Tracker
unfolding transition_to lifecycle_middleware lifecycle_on_after_response
handle (attempts now s) (m, t) = ((transition_to now s m).0, t)
handle (arrives a) (m, t) = (m, (lifecycle_middleware a m t).0)
handle (responds id) (m, t) = (m, lifecycle_on_after_response id t)

unfoldable pub handle_all : List Event → Machine × Tracker → Machine × Tracker
unfolding handle
handle_all [] s = s
handle_all (e ∷ es) s = handle_all es (handle e s)
