-- ===== src/Lifecycle/Admission.antt =====
-- Which requests the middleware (src/middleware/lifecycle-middleware.ts) admits once the service drains.
use authentication_v.Base.{
  ◌≤◌, ◌≡◌, Option, none, some, String, List, [], ◌∷◌, arith, str_eq, if◌then◌else◌, if_both,
  Option-cases, inl, inr,
}
use authentication_v.Base.Dict.{size, size-delete-le, get}
use authentication_v.Lifecycle.Machine.{draining, Machine, same}
use authentication_v.Lifecycle.Inflight.{Tracker, complete, get_active_count}
use authentication_v.Lifecycle.Course.{IsPastService, IsPastService-step, past_service_refuses}
use authentication_v.Lifecycle.Middleware.{
  Arrival, bypassed, problem, bypasses, lifecycle_middleware, lifecycle_on_after_response, Event,
  attempts, arrives, responds, handle, handle_all,
}

complete-le :
    (id : String) (t : Tracker) → size (complete id t).active_requests ≤ size t.active_requests
unfolding complete
complete-le id t = elim (Option-cases (get id t.active_requests)) [
  | inl gone ↦ rw gone (omega arith)
  | inr (metadata, found) ↦ rw found (size-delete-le id t.active_requests)
]

after_response-le :
    (id : Option String) (t : Tracker)
    → size (lifecycle_on_after_response id t).active_requests ≤ size t.active_requests
unfolding lifecycle_on_after_response
after_response-le none t = omega arith
after_response-le (some id) t =
    if_both (λ (t' : Tracker). size t'.active_requests ≤ size t.active_requests) (str_eq id "")
      (omega arith) (complete-le id t)

-- An arrival at a machine past service.
middleware_refuses :
    (a : Arrival) (m : Machine) (t : Tracker)
    → IsPastService m.state
    → lifecycle_middleware a m t ≡ (
      t,
      if bypasses a.path then bypassed else problem 503 (if same m.state draining then 5 else 10),
    )
unfolding lifecycle_middleware
middleware_refuses a m t h = ground (arith, past_service_refuses m h)

handle-shrinks :
    (e : Event) (s : Machine × Tracker)
    → IsPastService s.0.state
    → IsPastService (handle e s).0.state
      × (size (handle e s).1.active_requests ≤ size s.1.active_requests)
unfolding handle
handle-shrinks (attempts now state) (m, t) h = (IsPastService-step now state m h, omega arith)
handle-shrinks (arrives a) (m, t) h = (h, rw (middleware_refuses a m t h) (omega arith))
handle-shrinks (responds id) (m, t) h = (h, after_response-le id t)

handle_all-shrinks :
    (es : List Event) (s : Machine × Tracker)
    → IsPastService s.0.state
    → IsPastService (handle_all es s).0.state
      × (size (handle_all es s).1.active_requests ≤ size s.1.active_requests)
unfolding handle_all
handle_all-shrinks [] s h = (h, omega arith)
handle_all-shrinks (e ∷ es) s h =
    let one = handle-shrinks e s h in
    let rest = handle_all-shrinks es (handle e s) one.0 in (rest.0, omega (arith, one.1, rest.1))

-- Once the service drains, stops or has failed, the number of requests in flight never grows again,
-- whatever transitions are attempted and whatever arrives and is answered; and an arrival after that is
-- left alone where its path is one of the health paths, and else refused with status 503 and a hint to
-- retry after 5 seconds while it drains, after 10 otherwise, without being tracked.
pub drain-shrinks :
    (es : List Event) (a : Arrival) (m : Machine) (t : Tracker)
    → IsPastService m.state
    → (get_active_count (handle_all es (m, t)).1 ≤ get_active_count t)
      × (lifecycle_middleware a (handle_all es (m, t)).0 (handle_all es (m, t)).1 ≡ (
        (handle_all es (m, t)).1,
        if bypasses a.path
            then bypassed
            else problem 503 (if same (handle_all es (m, t)).0.state draining then 5 else 10),
      ))
unfolding get_active_count
drain-shrinks es a m t h =
    let course = handle_all-shrinks es (m, t) h in
    (course.1, middleware_refuses a (handle_all es (m, t)).0 (handle_all es (m, t)).1 course.0)
