-- ===== src/Lifecycle/Inflight.antt =====
-- `InflightRequestTracker` of src/lifecycle/inflight-request-tracker.ts, without its log lines. Each
-- method that reads the clock is given the instant, except where it only logs the duration.
use authentication_v.Base.{
  ℕ, ◌+◌, ◌-◌, Bool, Option, none, some, String, List, [], ◌∷◌, ltb, ◌==◌, if◌then◌else◌,
}
use authentication_v.Base.Int.{ℤ, pos, sub_ℕ}
use authentication_v.Base.Dict.{Dict, get, set, delete, size}

-- `RequestMetadata`
pub record RequestMetadata : Type 0 where
  pub endpoint : String
  pub start_time : ℕ
  pub method : Option String
  pub request_id : Option String

-- `DrainResult`
pub record DrainResult : Type 0 where
  pub drained : Bool
  pub completed_count : ℤ
  pub remaining : ℕ
  pub duration_ms : ℕ

-- `DrainConfig`
pub record DrainConfig : Type 0 where
  pub timeout_ms : ℕ
  pub check_interval_ms : ℕ

-- `DEFAULT_DRAIN_CONFIG`
abbrev pub default_drain_config : DrainConfig
default_drain_config = record { timeout_ms = 5000; check_interval_ms = 100 }

pub record Tracker : Type 0 where
  pub active_requests : Dict RequestMetadata
  pub completed_count : ℕ
  pub failed_count : ℕ
  pub total_count : ℕ

unfoldable pub new : Tracker
new = record { active_requests = []; completed_count = 0; failed_count = 0; total_count = 0 }

unfoldable pub start : String → RequestMetadata → Tracker → Tracker
start id metadata t = record t {
  active_requests = set id (record metadata { request_id = some id }) t.active_requests;
  total_count = t.total_count + 1;
}

complete_found : Option RequestMetadata → String → Tracker → Tracker
complete_found none id t = t
complete_found (some metadata) id t = record t {
  active_requests = delete id t.active_requests;
  completed_count = t.completed_count + 1;
}

unfoldable pub complete : String → Tracker → Tracker
unfolding complete_found
complete id t = complete_found (get id t.active_requests) id t

fail_found : Option RequestMetadata → String → Tracker → Tracker
fail_found none id t = t
fail_found (some metadata) id t = record t {
  active_requests = delete id t.active_requests;
  failed_count = t.failed_count + 1;
}

unfoldable pub fail : String → Tracker → Tracker
unfolding fail_found
fail id t = fail_found (get id t.active_requests) id t

unfoldable pub get_active_count : Tracker → ℕ
get_active_count t = size t.active_requests

-- What the handlers do with the tracker.
pub data Event : Type 0 where
  started : String → RequestMetadata → Event
  completed : String → Event
  failed : String → Event

unfoldable pub handle : Event → Tracker → Tracker
unfolding start complete fail
handle (started id metadata) t = start id metadata t
handle (completed id) t = complete id t
handle (failed id) t = fail id t

unfoldable pub handle_all : List Event → Tracker → Tracker
handle_all [] t = t
handle_all (e ∷ es) t = handle_all es (handle e t)

-- One round of the polling loop: what the handlers do while the loop sleeps, and the instant at
-- which it wakes.
pub record Round : Type 0 where
  pub events : List Event
  pub wake : ℕ

-- The polling loop, over the rounds that the event loop will run. It ends with the tracker and the
-- instant at which its test failed, or with nothing where it still waits when the rounds are over.
unfoldable pub poll : ℕ → ℕ → List Round → Tracker → Option (Tracker × ℕ)
unfolding handle_all
poll deadline now [] t =
    if ltb 0 (size t.active_requests)
    then if ltb now deadline then none else some (t, now)
    else some (t, now)
poll deadline now (r ∷ rs) t =
    let rest = poll deadline r.wake rs (handle_all r.events t) in
    if ltb 0 (size t.active_requests)
    then if ltb now deadline then rest else some (t, now)
    else some (t, now)

-- The result built after the loop; the duration is for a clock that has not gone back.
unfoldable pub drain_result : ℕ → ℕ → Tracker × ℕ → DrainResult
drain_result start_time initial_count (t, now) = record {
  drained = size t.active_requests == 0;
  completed_count = sub_ℕ initial_count (size t.active_requests);
  remaining = size t.active_requests;
  duration_ms = now - start_time;
}

abbrev map_result : ℕ → ℕ → Option (Tracker × ℕ) → Option (Tracker × DrainResult)
map_result start_time initial_count none = none
map_result start_time initial_count (some (t, now)) =
    some (t, drain_result start_time initial_count (t, now))

unfoldable pub wait_for_completion :
    DrainConfig → ℕ → List Round → Tracker → Option (Tracker × DrainResult)
unfolding poll drain_result
wait_for_completion config now rounds t =
    if size t.active_requests == 0
    then some
        (t, record { drained = Bool.true; completed_count = pos 0; remaining = 0; duration_ms = 0 })
    else map_result now (size t.active_requests) (poll (now + config.timeout_ms) now rounds t)

-- The greatest age among the active requests, of a clock that has not gone back past a start.
oldest_age : ℕ → Option ℕ → Dict RequestMetadata → Option ℕ
oldest_age now best [] = best
oldest_age now none ((id, metadata) ∷ m) = oldest_age now (some (now - metadata.start_time)) m
oldest_age now (some best) ((id, metadata) ∷ m) =
    oldest_age now
      (some (if ltb best (now - metadata.start_time) then now - metadata.start_time else best)) m

pub record Stats : Type 0 where
  pub active_count : ℕ
  pub total : ℕ
  pub completed : ℕ
  pub failed : ℕ
  pub oldest_request_age : Option ℕ

unfoldable pub get_stats : ℕ → Tracker → Stats
unfolding oldest_age
get_stats now t = record {
  active_count = size t.active_requests;
  total = t.total_count;
  completed = t.completed_count;
  failed = t.failed_count;
  oldest_request_age = oldest_age now none t.active_requests;
}

unfoldable pub reset : Tracker → Tracker
reset t = record t { active_requests = []; completed_count = 0; failed_count = 0; total_count = 0 }
