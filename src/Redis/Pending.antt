-- ===== src/Redis/Pending.antt =====
-- The books of the tracker of operations (src/services/cache/redis-operation-tracker.ts).
use authentication_v.Base.{
  ℕ, ◌+◌, ◌≤◌, ◌≡◌, refl, inl, inr, Bool, true, List, [], ◌∷◌, arith, Bool-cases, ◌==◌,
}
use authentication_v.Redis.Tracker.{
  Metadata, Tracker, new, size, is_pending, set_entry, delete_entry, start_operation,
  complete_operation, fail_operation, Event, started, completed, failed, stopped, handle,
  handle_all, can_accept_operations, stop_accepting_operations,
}

-- Each number of a pending operation has been given out.
abbrev All : ℕ → List (ℕ × Metadata) → Type 0
All n [] = Unit
All n ((id, m) ∷ rest) = (id ≤ n) × All n rest

All-weaken : (n : ℕ) (l : List (ℕ × Metadata)) → All n l → All (n + 1) l
All-weaken n [] h = tt
All-weaken n ((id, m) ∷ l) h = (omega (arith, h.0), All-weaken n l h.1)

All-delete : (n id : ℕ) (l : List (ℕ × Metadata)) → All n l → All n (delete_entry id l)
All-delete n id [] h = tt
All-delete n id ((other, m) ∷ l) h = elim (Bool-cases (other == id)) [
  | inl e ↦ rw e h.1
  | inr e ↦ rw e (h.0, All-delete n id l h.1)
]

All-set :
    (n : ℕ) (v : Metadata) (l : List (ℕ × Metadata)) → All n l → All (n + 1) (set_entry (n + 1) v l)
All-set n v [] h = (omega arith, tt)
All-set n v ((other, m) ∷ l) h = elim (Bool-cases (other == n + 1)) [
  | inl e ↦ rw e (omega arith, All-weaken n l h.1)
  | inr e ↦ rw e (omega (arith, h.0), All-set n v l h.1)
]

size-set :
    (n : ℕ) (v : Metadata) (l : List (ℕ × Metadata))
    → All n l
    → size (set_entry (n + 1) v l) ≡ size l + 1
size-set n v [] h = refl
size-set n v ((other, m) ∷ l) h = ground (arith, h.0, size-set n v l h.1)

size-delete :
    (id : ℕ) (l : List (ℕ × Metadata))
    → is_pending id l ≡ true
    → size (delete_entry id l) + 1 ≡ size l
size-delete id [] h = absurd (cc h)
size-delete id ((other, m) ∷ l) h = ground (arith, h, size-delete id l)

-- The numbers given out are those of the operations that are pending, completed or failed.
pub record Balances (t : Tracker) : Type 0 where
  pub given : All t.operation_counter t.pending_operations
  pub counted : size t.pending_operations + t.completed_count + t.failed_count ≡ t.operation_counter

start-Balances :
    (shutting_down : Bool) (m : Metadata) (t : Tracker)
    → Balances t
    → Balances (start_operation shutting_down m t).0
unfolding start_operation
start-Balances shutting_down m t h = elim (Bool-cases (can_accept_operations shutting_down t)) [
  | inl e ↦ rw e (record {
    given = All-set t.operation_counter m t.pending_operations h.given;
    counted = omega (arith, h.counted, size-set t.operation_counter m t.pending_operations h.given);
  })
  | inr e ↦ rw e h
]

complete-Balances : (id : ℕ) (t : Tracker) → Balances t → Balances (complete_operation id t)
unfolding complete_operation
complete-Balances id t h = elim (Bool-cases (is_pending id t.pending_operations)) [
  | inl e ↦ rw e (record {
    given = All-delete t.operation_counter id t.pending_operations h.given;
    counted = omega (arith, h.counted, size-delete id t.pending_operations e);
  })
  | inr e ↦ rw e h
]

fail-Balances : (id : ℕ) (t : Tracker) → Balances t → Balances (fail_operation id t)
unfolding fail_operation
fail-Balances id t h = elim (Bool-cases (is_pending id t.pending_operations)) [
  | inl e ↦ rw e (record {
    given = All-delete t.operation_counter id t.pending_operations h.given;
    counted = omega (arith, h.counted, size-delete id t.pending_operations e);
  })
  | inr e ↦ rw e h
]

handle-Balances : (e : Event) (t : Tracker) → Balances t → Balances (handle e t)
unfolding handle stop_accepting_operations
handle-Balances (started shutting_down m) t h = start-Balances shutting_down m t h
handle-Balances (completed id) t h = complete-Balances id t h
handle-Balances (failed id) t h = fail-Balances id t h
handle-Balances stopped t h = record { given = h.given; counted = h.counted }

handle_all-Balances : (es : List Event) (t : Tracker) → Balances t → Balances (handle_all es t)
unfolding handle_all
handle_all-Balances [] t h = h
handle_all-Balances (e ∷ es) t h = handle_all-Balances es (handle e t) (handle-Balances e t h)

-- After any course of calls on a new tracker, also ones that name operations that are over or were never
-- started, each operation that was started is exactly one of pending, completed and failed.
pub course-Balances : (es : List Event) → Balances (handle_all es new)
unfolding new
course-Balances es = handle_all-Balances es new (record { given = tt; counted = refl })
