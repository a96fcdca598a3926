-- ===== src/Redis/Tests.antt =====
-- Runs of the shared cache (src/services/cache/shared-redis-cache.ts) and of its parts on given calls.
use authentication_v.Base.{
  ℕ, zero, suc, ◌+◌, ◌≡◌, ◌⊎◌, ◌↔◌, inl, inr, refl, Bool, true, false, none, some, String, List, [],
  ◌∷◌, arith,
}
use authentication_v.Base.Dict.{get as lookup, set as insert, delete as remove}
use authentication_v.Breaker.Cache
use authentication_v.Reconnect.Manager
use authentication_v.Kong.{ConsumerSecret}
use authentication_v.Redis.Timeout.{
  Settled, done, failed, fulfilled, with_operation_timeout, default_operation_timeouts,
}
use authentication_v.Redis.Monitor.{Monitor, default_monitor_config}
use authentication_v.Redis.Cache.{CacheConfig, RedisCache, Moment, ask_breaker, connect_commands}
use authentication_v.Redis.Operations.{get, get_stale, set, set_stale, delete}
use authentication_v.Redis.Reference.{Texts, reference_server, reference_codec, put, take}
use authentication_v.Redis.Shared.{RedisHolds}
use authentication_v.Redis.Detector.{
  is_connection_error, is_recoverable_error, detect_cache_error, first_match, matches, occurs_any,
  occurs, matches_here, strip,
}
use authentication_v.Redis.Broken.{IsBroken, is_connection_error-IsBroken}
use authentication_v.Redis.Health.{Event, checked, reconnected, handle_all, IsSound, course-IsSound}
use authentication_v.Redis.Monitor
use authentication_v.Redis.Tracker
use authentication_v.Redis.Pending.{Balances, course-Balances}
use authentication_v.Redis.Connection.{disconnect, HasLeft, disconnect-HasLeft}
use authentication_v.Redis.Scan.{ScanResult, default_scan_config}
use authentication_v.Redis.Walk.{Completes, IsWalk, collect_all_iff}
use authentication_v.Redis.Scan
use authentication_v.Redis.Failures.{shutdown_untouched}
use authentication_v.Redis.Outage.{IsCutOff, IsClosed, Counts, get-Counts_twice}
use authentication_v.Redis.History.{Call, reads, writes, IsWritten, run_all, get-IsWritten}

abbrev config : CacheConfig
config = record {
  db = 0;
  ttl_seconds = 300;
  stale_data_tolerance_minutes = some 120;
  circuit_breaker = Cache.default_config;
  health_monitor = default_monitor_config;
  operation_timeouts = default_operation_timeouts;
}

abbrev moment : ℕ → Moment
moment now = record {
  asked = now;
  checked = now;
  attempted = now;
  settled = now;
  ended = now;
  took = 1;
  shutting_down = false;
  connect_late = false;
  ping_late = false;
  command_late = false;
  joined = fulfilled done;
}

abbrev cache : Bool → RedisCache Texts
cache is_up = record {
  client = true;
  is_connected = true;
  hits = 0;
  misses = 0;
  total_latency = 0;
  operations = 0;
  circuit_breaker = Cache.new 0;
  reconnect_manager = Manager.new Manager.default_reconnect_config;
  health_monitor = none;
  server = record { texts = []; is_up = is_up };
}

abbrev secret : ConsumerSecret
secret = record { id = "s1"; key = "k1"; secret = "x"; consumer = some (some "c1") }

abbrev calls : List Call
calls =
    writes (moment 1) "consumer_secret:c1" secret none
    ∷ writes (moment 2) "consumer_secret:c2" secret none
    ∷ reads (moment 3) "consumer_secret:c2"
    ∷ []

get-IsWritten_example :
    IsWritten "consumer_secret:c1" secret calls
    ⊎ RedisHolds reference_server reference_codec config "consumer_secret:c1" secret (cache true)
unfolding get run_all set lookup insert remove Cache.new with_operation_timeout put take
get-IsWritten_example =
    get-IsWritten reference_server reference_codec config "consumer_secret:c1" secret (moment 4)
      calls (cache true) refl

abbrev closing : Moment
closing = record (moment 7) { shutting_down = true }

shutdown_untouched_example :
    ((get reference_server reference_codec config closing "k" (cache true)).1 ≡ none)
    × ((get reference_server reference_codec config closing "k" (cache true)).0.server
        ≡ (cache true).server)
    × ((get_stale reference_server reference_codec config closing "k" (cache true)).1 ≡ none)
    × ((get_stale reference_server reference_codec config closing "k" (cache true)).0.server
        ≡ (cache true).server)
    × (set reference_server reference_codec config closing "k" secret none (cache true)
        ≡ (ask_breaker config 7 (cache true)).0)
    × (set_stale reference_server reference_codec config closing "k" secret (cache true)
        ≡ (ask_breaker config 7 (cache true)).0)
    × (delete reference_server reference_codec config closing "k" (cache true)
        ≡ (ask_breaker config 7 (cache true)).0)
shutdown_untouched_example =
    shutdown_untouched reference_server reference_codec config closing "k" secret none (cache true)
      refl

-- A cache that has lost its connection to a server that is down.
abbrev lost : RedisCache Texts
lost = record (cache false) { is_connected = false }

abbrev refusal : String
refusal = "connect ECONNREFUSED 127.0.0.1:6379"

refusal_reconnects : is_connection_error refusal ≡ true
unfolding is_connection_error detect_cache_error first_match matches occurs_any occurs matches_here
    strip
refusal_reconnects = refl

lost-IsCutOff : IsCutOff reference_server reference_codec config (moment 5) refusal lost
unfolding connect_commands Manager.execute_reconnect with_operation_timeout
lost-IsCutOff = record {
  running = refl;
  client = refl;
  is_connected = refl;
  manager = (Manager.execute_reconnect 5 5 lost.reconnect_manager).0;
  delay = 0;
  starts = refl;
  fails = refl;
}

lost-IsClosed : IsClosed config.circuit_breaker lost.circuit_breaker
unfolding Cache.new
lost-IsClosed = record { enabled = refl; state = refl }

get-Counts_twice_example :
    Counts reference_server reference_codec config 2 2
      (get reference_server reference_codec config (moment 5) "k" lost).0.circuit_breaker
      lost.circuit_breaker
get-Counts_twice_example =
    get-Counts_twice reference_server reference_codec config (moment 5) refusal "k" lost
      lost-IsCutOff lost-IsClosed refusal_reconnects

is_connection_error-IsBroken_example :
    ((is_connection_error "write EPIPE" ≡ true) ↔ IsBroken "write EPIPE")
    × (IsBroken "write EPIPE" → is_recoverable_error "write EPIPE" ≡ true)
is_connection_error-IsBroken_example = is_connection_error-IsBroken "write EPIPE"

abbrev events : List Event
events =
    checked 1 3 none
    ∷ checked 10 510 (some "Cache PING operation timed out after 500ms")
    ∷ reconnected 600
    ∷ []

course-IsSound_example :
    IsSound default_monitor_config
      (handle_all default_monitor_config Cache.default_config events (Monitor.new 0, Cache.new 0)).0
course-IsSound_example =
    course-IsSound default_monitor_config (omega arith) (omega arith) Cache.default_config 0
      (Cache.new 0) events

abbrev tracked : List Tracker.Event
tracked =
    Tracker.started false (record { operation_type = "GET"; start_time = 1 })
    ∷ Tracker.started false (record { operation_type = "SET"; start_time = 2 })
    ∷ Tracker.completed 1
    ∷ Tracker.completed 1
    ∷ Tracker.stopped
    ∷ Tracker.started false (record { operation_type = "GET"; start_time = 3 })
    ∷ []

course-Balances_example : Balances (Tracker.handle_all tracked Tracker.new)
course-Balances_example = course-Balances tracked

abbrev busy : Tracker.Tracker
busy = record Tracker.new {
  pending_operations = (1, record { operation_type = "GET"; start_time = 1 }) ∷ [];
  operation_counter = 1;
}

abbrev rounds : List (List Tracker.Event × ℕ)
rounds = ([], 50) ∷ (Tracker.failed 1 ∷ [], 3001) ∷ []

disconnect-HasLeft_example :
    (r : RedisCache Texts × Tracker.Tracker) × (disconnect 1 rounds (cache true, busy) ≡ some r)
    × HasLeft (cache true) r.0
disconnect-HasLeft_example =
    disconnect-HasLeft 1 rounds (cache true) busy refl (inr (inl (omega arith)))

abbrev page : ℕ → List String → ScanResult
page next found = record { cursor = next; keys = found }

-- The server with two pages, of which the first fails once; the state counts the calls.
abbrev two_pages : ℕ → String → ℕ → ℕ × Settled ScanResult
two_pages zero pattern zero = (1, failed "timeout")
two_pages zero pattern (suc calls) = (calls + 2, fulfilled (page 7 ("a" ∷ "b" ∷ [])))
two_pages (suc cursor) pattern calls = (calls + 1, fulfilled (page 0 ("c" ∷ [])))

collect_all_iff_example :
    Completes two_pages default_scan_config "auth:*"
      (Scan.collect_all two_pages default_scan_config "auth:*" 0)
      ("a" ∷ "b" ∷ "c" ∷ [])
      3
    ↔ IsWalk two_pages default_scan_config "auth:*" 10000 0 0 ("a" ∷ "b" ∷ "c" ∷ []) 3
collect_all_iff_example =
    collect_all_iff two_pages default_scan_config "auth:*" 0 ("a" ∷ "b" ∷ "c" ∷ []) 3

-- The walk of that server, and so a completed collection of its keys.
collected_two_pages :
    Completes two_pages default_scan_config "auth:*"
      (Scan.collect_all two_pages default_scan_config "auth:*" 0)
      ("a" ∷ "b" ∷ "c" ∷ [])
      3
unfolding IsWalk Scan.scan_with_retry
collected_two_pages =
    (collect_all_iff two_pages default_scan_config "auth:*" 0 ("a" ∷ "b" ∷ "c" ∷ []) 3).1 (
      2,
      page 7 ("a" ∷ "b" ∷ []),
      refl,
      inr (
        "c" ∷ [],
        (λ e. absurd (cc e)),
        refl,
        (3, page 0 ("c" ∷ []), refl, inl (refl, refl, refl)),
      ),
    )
