-- ===== src/Lib.antt =====
-- Verification of the authentication service: a service in front of Kong that issues JWTs for the
-- consumers that Kong knows, and that goes on working while Kong, Redis or the telemetry collector
-- do not answer.
--
-- Parts and files. Paths of the source are from the repository's root.
--   Base          shared helpers: Boolean tests on ℕ, lists, ℤ, JavaScript maps with text keys (Dict),
--                 and the eviction of the oldest entries of a map (Evict), which both caches write.
--   Breaker       Telemetry: src/telemetry/telemetry-circuit-breaker.ts; Cache:
--                 src/services/cache/cache-circuit-breaker.ts; State: the states that they share
--                 (src/types/circuit-breaker.types.ts). Threshold, CacheThreshold and Agreement hold
--                 the theorems.
--   Lifecycle     Machine: src/lifecycle/lifecycle-state-machine.ts; Inflight:
--                 src/lifecycle/inflight-request-tracker.ts; Coordinator:
--                 src/lifecycle/lifecycle-coordinator.ts. The coordinator listens to the machine and
--                 prepares its components when the service drains. Middleware:
--                 src/middleware/lifecycle-middleware.ts, which admits requests by the machine and puts
--                 them into the tracker. Course, Admission, Accounting, Drain, Order
--                 and Shutdown hold the theorems.
--   Memory        Store: src/services/cache/local-memory-cache.ts. Capacity, Reads and Stats hold the
--                 theorems.
--   Kong          Types, Service, Fallback, Operations and Upkeep: src/services/circuit-breaker.service.ts;
--                 Adapter and Calls: src/adapters/kong.adapter.ts with src/adapters/kong-utils.ts. The
--                 adapter runs its actions through the service and reads and writes a cache; Calls
--                 states what it relies on of the cache as a record of operations and laws (KongCache),
--                 which Local fills with the store of Memory. Isolation, Stale, Bounds, Course,
--                 Creation and Lookup hold the theorems.
--   Tokens        Errors: src/errors/error-codes.ts; Request and Validation: src/handlers/tokens.ts, over
--                 the adapter's getConsumerSecret. Issue and Verify hold the theorems.
--   Reconnect     Manager: src/utils/cache-reconnect-manager.ts. Limits holds the theorems.
--   Redis         Detector: src/utils/cache-error-detector.ts; Timeout:
--                 src/services/cache/cache-operation-timeout.ts; Monitor:
--                 src/services/cache/cache-health-monitor.ts; Tracker:
--                 src/services/cache/redis-operation-tracker.ts; Cache, Operations and Connection:
--                 src/services/cache/shared-redis-cache.ts, made of the breaker, the reconnect manager,
--                 the monitor and the tracker, and Clearing, its clear and clearStale over Scan
--                 (src/services/cache/cache-scan-iterator.ts). Server states what it relies on of the Redis server and
--                 of the codec of the values; Shared fills the adapter's KongCache with it, as
--                 Kong.Local does with the store of Memory; Reference has a server and a codec for the
--                 tests. Messages, Health, Pending, Contents, Keys, History, Failures, Outage, Walk,
--                 Matching and Broken hold the theorems.
--   Jwt           Text and Service: src/services/jwt.service.ts, over a Runtime that stands for Buffer, atob,
--                 TextEncoder, crypto.subtle and JSON; Signed puts it under the handler of Tokens.
--                 Base64, Validity, RoundTrip and Signed hold the theorems.
--   Telemetry     Guard: src/telemetry/cardinality-guard.ts; Volume: src/telemetry/consumer-volume.ts, with
--                 a theorem; Export: src/telemetry/export-stats-tracker.ts. Labels holds the theorems on
--                 the guard, Recent those on the export statistics.
--   Health        Cache: src/services/cache-health.service.ts; Status: src/handlers/health-status.ts, and how
--                 src/handlers/health.ts calls both. Recent holds the theorems. A request is one step.
--   Profiling     Service: src/services/profiling.service.ts. Sessions holds the theorems.
--   Each Tests module holds runs at concrete data.
--
-- How the code is read. An object is a record of its fields, a method a function from the object
-- to the new object and its result, named as in the source in snake case. A method that reads the
-- clock is given the instant in milliseconds, a natural number; theorems hold for any instants, also
-- ones that go back, unless they say otherwise. A difference of instants that is compared is written
-- with the sum on one side; one that is reported is the difference of ℕ, which is that of the source
-- for a clock that has not gone back. Numbers are natural numbers: the counters and times of the
-- program stay far below 2 ^ 53, where JavaScript's numbers are exact. Log lines, spans and metrics
-- are left out. A Map is an association list in insertion order (Base.Dict); sorting is insertion
-- sort, which like Array.sort is stable.
--   What code outside the model does is a parameter: how the library opossum settles an action
-- (Fire), how the stale tier in Redis answers (RedisAnswer), the responses of Kong, how the race
-- of a component's shutdown ends (Race), and what the JWT service makes
-- and finds in Tokens (create_token, validate_token), the encodings and HMAC of the runtime (Runtime), and what
-- the Redis server does (Server), including errors after a command that had its effect. An operation
-- of the shared cache is one step, given what it meets at its awaits (Moment): the readings of the
-- clock, the time limits that are passed, and the end of a reconnection of another caller that it joins;
-- the changes that other callers make in between are steps of their own.
--
-- Loops and fuel. The loops over time are the drains (Lifecycle.Inflight.poll, Redis.Tracker.poll). Their rounds, with what
-- the handlers do meanwhile and when the loop wakes, are a list; since a round takes the
-- check interval at least, as many rounds as cover the timeout are enough. The retries of the adapter's
-- creation are structural in the attempts left. The decimals in a message take a digit for each unit of
-- fuel, of which there are more than the number; the padding of base64 takes three rounds at most. A scan has the limit of pages
-- that the source gives it. All other loops are over lists.
--
-- Not modelled: the initialisation of the adapter's cache and its healthCheck and clearCache; getStats
-- of the breaker service with its cached statistics; the formatted rates in the statistics of the
-- caches; getStats and getServerType of the shared cache and its scan loop without an iterator; the
-- connection state and the selection of a cache, the rest of the health handlers, router,
-- the other telemetry guards and configuration, which are other parts of the program.
pub mod Base
pub mod Breaker
pub mod Lifecycle
pub mod Memory
pub mod Kong
pub mod Tokens
pub mod Reconnect
pub mod Redis
pub mod Health
pub mod Jwt
pub mod Telemetry
pub mod Profiling
