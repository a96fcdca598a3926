-- ===== src/Lifecycle/Coordinator.antt =====
-- `LifecycleCoordinator` of src/lifecycle/lifecycle-coordinator.ts, without its log lines. What a
-- component's own methods do in a run is part of the component: how long they take, and how the race
-- of `shutdown` against the timeout ends.
use authentication_v.Base.{
  ℕ, Bool, true, false, ◌&&◌, not, Option, none, some, String, str_eq, List, [], ◌∷◌, leb, any,
  push, length, map, ◌==◌, if◌then◌else◌,
}
use Prim.Native.String.{◌++◌ as str_append}
use authentication_v.Lifecycle.Machine.{LifecycleState, draining, same}

-- How `Promise.race([component.shutdown(), timeoutPromise])` ends, and after how many milliseconds.
pub data Race : Type 0 where
  finished : ℕ → Race
  rejected : ℕ → String → Race
  timed_out : ℕ → Race

-- `LifecycleAwareComponent`; `health` is what `getHealthStatus` answers, where there is one, and
-- `prepares` whether `prepareForShutdown` resolves.
pub record Component : Type 0 where
  pub name : String
  pub priority : ℕ
  pub prepares : Bool
  pub race : Race
  pub health : Option Bool

-- `ComponentShutdownResult`
pub record ComponentResult : Type 0 where
  pub name : String
  pub priority : ℕ
  pub success : Bool
  pub duration_ms : ℕ
  pub error : Option String

-- `ShutdownResult`
pub record ShutdownResult : Type 0 where
  pub success : Bool
  pub total_duration_ms : ℕ
  pub components : List ComponentResult
  pub failed_components : List String

-- `ShutdownConfig`
pub record ShutdownConfig : Type 0 where
  pub component_timeout_ms : ℕ
  pub continue_on_error : Bool

-- `DEFAULT_SHUTDOWN_CONFIG`
abbrev pub default_shutdown_config : ShutdownConfig
default_shutdown_config = record { component_timeout_ms = 3000; continue_on_error = true }

pub record Coordinator : Type 0 where
  pub components : List Component
  pub prepared : Bool
  pub shutting_down : Bool

unfoldable pub new : Coordinator
new = record { components = []; prepared = false; shutting_down = false }

-- One insertion of the stable sort by descending priority.
unfoldable pub insert_by_priority : Component → List Component → List Component
insert_by_priority c [] = c ∷ []
insert_by_priority c (d ∷ ds) =
    if leb d.priority c.priority then c ∷ d ∷ ds else d ∷ insert_by_priority c ds

unfoldable pub sort_by_priority : List Component → List Component
unfolding insert_by_priority
sort_by_priority [] = []
sort_by_priority (c ∷ cs) = insert_by_priority c (sort_by_priority cs)

unfoldable pub is_named : String → List Component → Bool
is_named name cs = any (λ c. str_eq c.name name) cs

unfoldable pub register : Component → Coordinator → Coordinator
unfolding is_named
register component c =
    if is_named component.name c.components
    then c
    else record c { components = sort_by_priority (push c.components component) }

-- The list without the first component of the name, as `findIndex` and `splice` leave it.
unfoldable pub remove_named : String → List Component → List Component
remove_named name [] = []
remove_named name (c ∷ cs) = if str_eq c.name name then cs else c ∷ remove_named name cs

unfoldable pub unregister : String → Coordinator → Coordinator × Bool
unfolding is_named
unregister name c =
    if is_named name c.components
    then (record c { components = remove_named name c.components }, true)
    else (c, false)

names_of : List Component → List String
names_of [] = []
names_of (c ∷ cs) = c.name ∷ names_of cs

-- The new object, and the components whose `prepareForShutdown` is called, in order. One that throws
-- is caught, and the next is prepared.
unfoldable pub prepare_all : Coordinator → Coordinator × List String
unfolding names_of
prepare_all c =
    if c.prepared then (c, []) else (record c { prepared = true }, names_of c.components)

-- The listener that the constructor registers with the state machine.
unfoldable pub handle_state_change :
    LifecycleState → LifecycleState → Coordinator → Coordinator × List String
unfolding same
handle_state_change from to c =
    if same to draining && not c.prepared then prepare_all c else (c, [])

-- The result recorded for a component.
unfoldable pub result_of : Component → Race → ComponentResult
result_of c (finished d) = record {
  name = c.name;
  priority = c.priority;
  success = true;
  duration_ms = d;
  error = none;
}
result_of c (rejected d message) = record {
  name = c.name;
  priority = c.priority;
  success = false;
  duration_ms = d;
  error = some message;
}
result_of c (timed_out d) = record {
  name = c.name;
  priority = c.priority;
  success = false;
  duration_ms = d;
  error = some (str_append "Component shutdown timeout: " c.name);
}

-- The loop: the results in order, up to the first failure where the configuration stops there.
unfoldable pub shutdown_loop : ShutdownConfig → List Component → List ComponentResult
unfolding result_of
shutdown_loop config [] = []
shutdown_loop config (c ∷ cs) =
    let rest = shutdown_loop config cs in
    let r = result_of c c.race in
    if not r.success && not config.continue_on_error then r ∷ [] else r ∷ rest

-- The names pushed on `failedComponents` along the loop.
unfoldable pub failed_names : List ComponentResult → List String
failed_names [] = []
failed_names (r ∷ rs) = if r.success then failed_names rs else r.name ∷ failed_names rs

-- `elapsed` is the clock's measure of the whole sequence.
unfoldable pub shutdown_all : ShutdownConfig → ℕ → Coordinator → Coordinator × ShutdownResult
shutdown_all config elapsed c =
    if c.shutting_down
    then (
      c,
      record {
        success = false;
        total_duration_ms = 0;
        components = [];
        failed_components = "Shutdown already in progress" ∷ [];
      },
    )
    else let results = shutdown_loop config c.components in
      (
        record c { shutting_down = true },
        record {
          success = length (failed_names results) == 0;
          total_duration_ms = elapsed;
          components = results;
          failed_components = failed_names results;
        },
      )

unfoldable pub get_components : Coordinator → List (String × ℕ)
get_components c = map (λ d. (d.name, d.priority)) c.components

-- The loop of `getAggregatedHealth`: a component with no health check counts as healthy.
health_of : Option Bool → Bool
health_of none = true
health_of (some healthy) = healthy

all_healthy : List Component → Bool
unfolding health_of
all_healthy [] = true
all_healthy (c ∷ cs) = health_of c.health && all_healthy cs

unfoldable pub get_aggregated_health : Coordinator → Bool × List (String × Bool)
unfolding all_healthy health_of
get_aggregated_health c =
    (all_healthy c.components, map (λ d. (d.name, health_of d.health)) c.components)

unfoldable pub reset : Coordinator → Coordinator
reset c = record { components = []; prepared = false; shutting_down = false }
