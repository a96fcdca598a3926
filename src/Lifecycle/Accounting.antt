-- ===== src/Lifecycle/Accounting.antt =====
-- The tracker's books.
use authentication_v.Base.{
  ℕ, ◌+◌, ◌≡◌, Bool, false, some, List, [], ◌∷◌, arith, if◌then◌else◌, Option-cases, inl, inr,
}
use authentication_v.Base.Dict.{
  HasDistinctKeys, get, has, size, set-HasDistinctKeys, delete-HasDistinctKeys, size-set,
  size-delete,
}
use authentication_v.Lifecycle.Inflight.{
  Tracker, Event, started, completed, failed, new, handle, handle_all, complete, fail,
}

abbrev pub HasUniqueIds : Tracker → Type 0
HasUniqueIds t = HasDistinctKeys t.active_requests

-- Whether the event starts a request under an id that is still active.
abbrev pub restarts : Event → Tracker → Bool
restarts (started id metadata) t = has id t.active_requests
restarts _ t = false

unfoldable pub restarted : List Event → Tracker → ℕ
restarted [] t = 0
restarted (e ∷ es) t = (if restarts e t then 1 else 0) + restarted es (handle e t)

-- The requests that the tracker knows the fate of.
abbrev pub accounted : Tracker → ℕ
accounted t = size t.active_requests + t.completed_count + t.failed_count

pub handle_books :
    (e : Event) (t : Tracker)
    → HasUniqueIds t
    → HasUniqueIds (handle e t)
      × (accounted (handle e t) + (if restarts e t then 1 else 0) + t.total_count
          ≡ accounted t + (handle e t).total_count)
unfolding handle
handle_books (started id metadata) t u = (
  set-HasDistinctKeys id _ t.active_requests u,
  ground (arith, size-set id (record metadata { request_id = some id }) t.active_requests),
)
handle_books (completed id) t u = elim (Option-cases (get id t.active_requests)) [
  | inl gone ↦ rw (gone, complete) (u, omega arith)
  | inr (metadata, found) ↦
      rw (found, complete)
        (
          delete-HasDistinctKeys id t.active_requests u,
          ground (arith, size-delete id t.active_requests u),
        )
]
handle_books (failed id) t u = elim (Option-cases (get id t.active_requests)) [
  | inl gone ↦ rw (gone, fail) (u, omega arith)
  | inr (metadata, found) ↦
      rw (found, fail)
        (
          delete-HasDistinctKeys id t.active_requests u,
          ground (arith, size-delete id t.active_requests u),
        )
]

handle_all_books :
    (es : List Event) (t : Tracker)
    → HasUniqueIds t
    → HasUniqueIds (handle_all es t)
      × (accounted (handle_all es t) + restarted es t + t.total_count
          ≡ accounted t + (handle_all es t).total_count)
unfolding handle_all restarted
handle_all_books [] t u = (u, omega arith)
handle_all_books (e ∷ es) t u =
    let (kept, here) = handle_books e t u in
    let (rest, later) = handle_all_books es (handle e t) kept in (rest, omega arith)

-- Whatever the handlers report to a new tracker, the requests started are exactly the active, the
-- completed and the failed ones, with those whose id was started again while it was active.
pub handle_all-accounts :
    (es : List Event)
    → let t = handle_all es new in
      size t.active_requests + t.completed_count + t.failed_count + restarted es new ≡ t.total_count
unfolding new
handle_all-accounts es = omega (arith, (handle_all_books es new tt).1)
