-- ===== src/Redis/Tracker.antt =====
-- `RedisOperationTracker` of src/services/cache/redis-operation-tracker.ts, without its log lines and the
-- key that is only logged. An operation is named by its number, which its id ends in.
use authentication_v.Base.{
  ℕ, ◌+◌, Bool, true, false, ◌&&◌, not, Option, none, some, String, List, [], ◌∷◌, ltb, ◌==◌,
  if◌then◌else◌,
}

-- `OperationMetadata`
pub record Metadata : Type 0 where
  pub operation_type : String
  pub start_time : ℕ

-- The fields of the class.
pub record Tracker : Type 0 where
  pub pending_operations : List (ℕ × Metadata)
  pub operation_counter : ℕ
  pub accepting_operations : Bool
  pub completed_count : ℕ
  pub failed_count : ℕ

unfoldable pub new : Tracker
new = record {
  pending_operations = [];
  operation_counter = 0;
  accepting_operations = true;
  completed_count = 0;
  failed_count = 0;
}

abbrev pub size : List (ℕ × Metadata) → ℕ
size [] = 0
size (x ∷ xs) = size xs + 1

abbrev pub is_pending : ℕ → List (ℕ × Metadata) → Bool
is_pending id [] = false
is_pending id ((other, metadata) ∷ m) = if other == id then true else is_pending id m

abbrev pub set_entry : ℕ → Metadata → List (ℕ × Metadata) → List (ℕ × Metadata)
set_entry id v [] = (id, v) ∷ []
set_entry id v ((other, w) ∷ m) =
    let rest = set_entry id v m in if other == id then (id, v) ∷ m else (other, w) ∷ rest

abbrev pub delete_entry : ℕ → List (ℕ × Metadata) → List (ℕ × Metadata)
delete_entry id [] = []
delete_entry id ((other, w) ∷ m) =
    let rest = delete_entry id m in if other == id then m else (other, w) ∷ rest

-- `shutting_down` is the answer of the state machine of the life cycle.
unfoldable pub can_accept_operations : Bool → Tracker → Bool
can_accept_operations shutting_down t = t.accepting_operations && not shutting_down

-- With the number of the operation, or nothing where the call throws.
unfoldable pub start_operation : Bool → Metadata → Tracker → Tracker × Option ℕ
unfolding can_accept_operations
start_operation shutting_down metadata t =
    if can_accept_operations shutting_down t
    then (
      record t {
        operation_counter = t.operation_counter + 1;
        pending_operations = set_entry (t.operation_counter + 1) metadata t.pending_operations;
      },
      some (t.operation_counter + 1),
    )
    else (t, none)

unfoldable pub complete_operation : ℕ → Tracker → Tracker
complete_operation id t =
    if is_pending id t.pending_operations
    then record t {
      pending_operations = delete_entry id t.pending_operations;
      completed_count = t.completed_count + 1;
    }
    else t

unfoldable pub fail_operation : ℕ → Tracker → Tracker
fail_operation id t =
    if is_pending id t.pending_operations
    then record t {
      pending_operations = delete_entry id t.pending_operations;
      failed_count = t.failed_count + 1;
    }
    else t

unfoldable pub get_pending_count : Tracker → ℕ
get_pending_count t = size t.pending_operations

unfoldable pub stop_accepting_operations : Tracker → Tracker
stop_accepting_operations t = record t { accepting_operations = false }

unfoldable pub reset : Tracker → Tracker
reset t = record t {
  pending_operations = [];
  operation_counter = 0;
  accepting_operations = true;
  completed_count = 0;
  failed_count = 0;
}

-- What the callers do with the tracker.
pub data Event : Type 0 where
  started : Bool → Metadata → Event
  completed : ℕ → Event
  failed : ℕ → Event
  stopped : Event

unfoldable pub handle : Event → Tracker → Tracker
unfolding start_operation complete_operation fail_operation stop_accepting_operations
handle (started shutting_down metadata) t = (start_operation shutting_down metadata t).0
handle (completed id) t = complete_operation id t
handle (failed id) t = fail_operation id t
handle stopped t = stop_accepting_operations t

unfoldable pub handle_all : List Event → Tracker → Tracker
unfolding handle
handle_all [] t = t
handle_all (e ∷ es) t = handle_all es (handle e t)

-- The polling loop, over its rounds: what the callers do while it sleeps, and when it wakes. It ends with
-- the tracker at which its test failed, or with nothing where it still waits after the rounds.
unfoldable pub poll : ℕ → ℕ → List (List Event × ℕ) → Tracker → Option Tracker
unfolding handle_all
poll deadline now [] t =
    if ltb 0 (size t.pending_operations) && ltb now deadline then none else some t
poll deadline now ((es, wake) ∷ rounds) t =
    let rest = poll deadline wake rounds (handle_all es t) in
    if ltb 0 (size t.pending_operations) && ltb now deadline then rest else some t

abbrev with_answer : Option Tracker → Option (Tracker × Bool)
with_answer none = none
with_answer (some t) = some (t, size t.pending_operations == 0)

unfoldable pub wait_for_completion :
    ℕ → ℕ → List (List Event × ℕ) → Tracker → Option (Tracker × Bool)
unfolding poll
wait_for_completion timeout_ms now rounds t =
    if size t.pending_operations == 0
    then some (t, true)
    else with_answer (poll (now + timeout_ms) now rounds t)
