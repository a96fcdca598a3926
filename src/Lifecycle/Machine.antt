-- ===== src/Lifecycle/Machine.antt =====
-- `LifecycleStateMachine` of src/lifecycle/lifecycle-state-machine.ts. A listener is a number that
-- stands for the callback; `transition_to` returns the listeners that it calls, in order, and a
-- listener that throws is caught, so it changes nothing. Log lines are left out.
use authentication_v.Base.{
  ℕ, ◌-◌, ◌≡◌, ◌↔◌, arith, ==_refl, Bool, true, false, Option, none, some, List, [], ◌∷◌, leb, ◌==◌,
  any, push, if◌then◌else◌,
}

pub data LifecycleState : Type 0 where
  initializing starting ready draining stopping stopped error : LifecycleState

-- `===` on the enumeration, by the place of each state in it.
abbrev place : LifecycleState → ℕ
place initializing = 0
place starting = 1
place ready = 2
place draining = 3
place stopping = 4
place stopped = 5
place error = 6

unfoldable pub same : LifecycleState → LifecycleState → Bool
same a b = place a == place b

pub same_iff : (a b : LifecycleState) → (same a b ≡ true) ↔ (a ≡ b)
unfolding same
same_iff a b = (λ h. ground arith, λ h. rw h (==_refl (place b)))

-- `VALID_TRANSITIONS`
abbrev pub valid_transitions : LifecycleState → List LifecycleState
valid_transitions initializing = starting ∷ error ∷ []
valid_transitions starting = ready ∷ error ∷ []
valid_transitions ready = draining ∷ error ∷ []
valid_transitions draining = stopping ∷ error ∷ []
valid_transitions stopping = stopped ∷ error ∷ []
valid_transitions stopped = []
valid_transitions error = stopped ∷ []

unfoldable pub includes : List LifecycleState → LifecycleState → Bool
unfolding same
includes targets s = any (same s) targets

-- A `Map<LifecycleState, number>`, in insertion order.
abbrev pub Timestamps : Type 0
Timestamps = List (LifecycleState × ℕ)

unfoldable pub time_of : LifecycleState → Timestamps → Option ℕ
time_of s [] = none
time_of s ((r, t) ∷ m) = if same r s then some t else time_of s m

unfoldable pub set_time : LifecycleState → ℕ → Timestamps → Timestamps
set_time s t [] = (s, t) ∷ []
set_time s t ((r, u) ∷ m) = if same r s then (s, t) ∷ m else (r, u) ∷ set_time s t m

pub record Machine : Type 0 where
  pub state : LifecycleState
  pub listeners : List ℕ
  pub transition_timestamps : Timestamps
  pub start_time : ℕ

unfoldable pub new : ℕ → Machine
new now = record {
  state = initializing;
  listeners = [];
  transition_timestamps = (initializing, now) ∷ [];
  start_time = now;
}

-- `ACCEPTING_STATES`
abbrev accepting_states : List LifecycleState
accepting_states = ready ∷ []

-- `SHUTDOWN_STATES`
abbrev shutdown_states : List LifecycleState
shutdown_states = draining ∷ stopping ∷ stopped ∷ []

unfoldable pub can_accept_requests : Machine → Bool
unfolding includes
can_accept_requests m = includes accepting_states m.state

unfoldable pub is_shutting_down : Machine → Bool
unfolding includes
is_shutting_down m = includes shutdown_states m.state

-- The new machine, whether the transition was made, and the listeners called with it.
unfoldable pub transition_to : ℕ → LifecycleState → Machine → Machine × Bool × List ℕ
unfolding includes
transition_to now new_state m =
    if includes (valid_transitions m.state) new_state
    then (
      record m {
        state = new_state;
        transition_timestamps = set_time new_state now m.transition_timestamps;
      },
      true,
      m.listeners,
    )
    else (m, false, [])

unfoldable pub on_state_change : ℕ → Machine → Machine
on_state_change listener m = record m { listeners = push m.listeners listener }

-- The list without the first occurrence, as `indexOf` and `splice` leave it.
unfoldable pub remove_first : ℕ → List ℕ → List ℕ
remove_first listener [] = []
remove_first listener (l ∷ ls) = if l == listener then ls else l ∷ remove_first listener ls

-- What the function that `onStateChange` returned does when it is called.
unfoldable pub unsubscribe : ℕ → Machine → Machine
unfolding remove_first
unsubscribe listener m = record m { listeners = remove_first listener m.listeners }

unfoldable pub get_state_entry_time : LifecycleState → Machine → Option ℕ
unfolding time_of
get_state_entry_time s m = time_of s m.transition_timestamps

-- Insertion of an entry behind those that were entered no later, as a stable sort places it.
insert_by_time : LifecycleState × ℕ → Timestamps → Timestamps
insert_by_time (s, t) [] = (s, t) ∷ []
insert_by_time (s, t) ((r, u) ∷ m) =
    if leb t u then (s, t) ∷ (r, u) ∷ m else (r, u) ∷ insert_by_time (s, t) m

sort_by_time : Timestamps → Timestamps
sort_by_time [] = []
sort_by_time (e ∷ m) = insert_by_time e (sort_by_time m)

-- The result of `getStats`; the up time is for a clock that has not gone back past the start.
pub record Stats : Type 0 where
  pub current_state : LifecycleState
  pub uptime_ms : ℕ
  pub can_accept : Bool
  pub shutting_down : Bool
  pub transition_history : Timestamps

unfoldable pub get_stats : ℕ → Machine → Stats
unfolding insert_by_time sort_by_time can_accept_requests is_shutting_down
get_stats now m = record {
  current_state = m.state;
  uptime_ms = now - m.start_time;
  can_accept = can_accept_requests m;
  shutting_down = is_shutting_down m;
  transition_history = sort_by_time m.transition_timestamps;
}

unfoldable pub reset : ℕ → Machine → Machine
reset now m = record m {
  state = initializing;
  listeners = [];
  transition_timestamps = (initializing, now) ∷ [];
}
