-- ===== src/Lifecycle/Drain.antt =====
-- The wait for the requests in flight: its end, its deadline and its counts.
use authentication_v.Base.{
  ℕ, ◌+◌, ◌-◌, ◌*◌, ◌≤◌, ◌<◌, ◌≡◌, refl, ◌↔◌, true, some, String, List, [], ◌∷◌, arith, length,
  ◌==◌, is_some, Bool-cases, Option-cases, ◌⊎◌, inl, inr,
}
use authentication_v.Base.Int.{pos}
use authentication_v.Base.Dict.{size, size-delete-le}
use authentication_v.Lifecycle.Inflight.{
  Tracker, Event, Round, DrainConfig, DrainResult, started, completed, failed, handle, handle_all,
  poll, drain_result, wait_for_completion,
}
use authentication_v.Lifecycle.Accounting.{HasUniqueIds, accounted, handle_books}

-- Every round sleeps for the interval at least, as a timer does.
abbrev pub IsSpaced : ℕ → ℕ → List Round → Type 0
IsSpaced interval now [] = Unit
IsSpaced interval now (r ∷ rs) = (now + interval ≤ r.wake) × IsSpaced interval r.wake rs

poll_total :
    (interval deadline now : ℕ) (rs : List Round) (t : Tracker)
    → IsSpaced interval now rs
    → deadline ≤ now + length rs * interval
    → is_some (poll deadline now rs t) ≡ true
unfolding poll
poll_total interval deadline now [] t s h = ground arith
poll_total interval deadline now (r ∷ rs) t s h =
    let enough : deadline ≤ r.wake + length rs * interval = grind arith in
    ground (arith, poll_total interval deadline r.wake rs (handle_all r.events t) s.1 enough)

-- The drain ends: with rounds that sleep for the check interval at least, and as many of them as
-- cover the timeout, it returns a result, whatever the handlers do in the meantime.
pub wait_for_completion-total :
    (config : DrainConfig) (now : ℕ) (rs : List Round) (t : Tracker)
    → IsSpaced config.check_interval_ms now rs
    → config.timeout_ms ≤ length rs * config.check_interval_ms
    → is_some (wait_for_completion config now rs t) ≡ true
unfolding wait_for_completion
wait_for_completion-total config now rs t s h =
    ground (
      arith,
      poll_total config.check_interval_ms (now + config.timeout_ms) now rs t s (omega arith),
    )

poll_ends :
    (deadline now : ℕ) (rs : List Round) (t t' : Tracker) (now' : ℕ)
    → poll deadline now rs t ≡ some (t', now')
    → 0 < size t'.active_requests
    → deadline ≤ now'
unfolding poll
poll_ends deadline now [] t t' now' e busy = ground arith
poll_ends deadline now (r ∷ rs) t t' now' e busy =
    ground (arith, poll_ends deadline r.wake rs (handle_all r.events t) t' now')

wait_cases :
    (config : DrainConfig) (now : ℕ) (rs : List Round) (t t' : Tracker) (r : DrainResult)
    → wait_for_completion config now rs t ≡ some (t', r)
    → (t' ≡ t)
        × (size t'.active_requests ≡ 0)
        × (r.remaining ≡ 0)
        × (r.drained ≡ true)
        × (r.completed_count ≡ pos 0)
      ⊎ ((now' : ℕ) × (poll (now + config.timeout_ms) now rs t ≡ some (t', now'))
          × (r ≡ drain_result now (size t.active_requests) (t', now')))
unfolding wait_for_completion
wait_cases config now rs t t' r e = elim (Bool-cases (size t.active_requests == 0)) [
  | inl idle ↦ inl (ground arith)
  | inr busy ↦ elim (Option-cases (poll (now + config.timeout_ms) now rs t)) [
    | inl waits ↦ absurd (ground arith)
    | inr ((t1, now1), ends) ↦ inr (now1, ground arith, ground arith)
  ]
]

-- The drain never gives up early, and reports what it leaves: if it returns a result, the result
-- counts the requests that are still active, says `drained` exactly where there are none, and where
-- there are some the timeout has passed.
pub wait_for_completion_sound :
    (config : DrainConfig) (now : ℕ) (rs : List Round) (t : Tracker) {t' : Tracker}
    {r : DrainResult}
    → wait_for_completion config now rs t ≡ some (t', r)
    → (r.remaining ≡ size t'.active_requests)
      × ((r.drained ≡ true) ↔ (size t'.active_requests ≡ 0))
      × (0 < size t'.active_requests → config.timeout_ms ≤ r.duration_ms)
unfolding drain_result
wait_for_completion_sound config now rs t {t'} {r} e = elim (wait_cases config now rs t t' r e) [
  | inl (_, idle, none_left, drained, _) ↦
      (omega arith, (λ _. idle, λ _. drained), λ busy. absurd (omega arith))
  | inr (now', ends, result) ↦ rw result (
    refl,
    (λ h. ground arith, λ h. ground arith),
    λ busy. omega (arith, poll_ends _ now rs t t' now' ends busy),
  )
]

-- No request is started: the server has stopped accepting.
abbrev pub HasNoStart : List Event → Type 0
HasNoStart [] = Unit
HasNoStart (started id metadata ∷ es) = ⊥
HasNoStart (_ ∷ es) = HasNoStart es

abbrev pub IsQuiet : List Round → Type 0
IsQuiet [] = Unit
IsQuiet (r ∷ rs) = HasNoStart r.events × IsQuiet rs

handle_finish :
    (id : String) (t : Tracker)
    → ((handle (completed id) t).total_count ≡ t.total_count)
      × ((handle (failed id) t).total_count ≡ t.total_count)
      × (size (handle (completed id) t).active_requests ≤ size t.active_requests)
      × (size (handle (failed id) t).active_requests ≤ size t.active_requests)
unfolding handle
handle_finish id t =
    let fewer = size-delete-le id t.active_requests in
    (ground arith, ground arith, ground arith, ground arith)

-- The requests that a tracker has finished, and that are left of those before.
abbrev Continues : Tracker → Tracker → Type 0
Continues t t' = (accounted t' ≡ accounted t) × (size t'.active_requests ≤ size t.active_requests)

handle_all_quiet :
    (es : List Event) (t : Tracker)
    → HasNoStart es
    → HasUniqueIds t
    → HasUniqueIds (handle_all es t) × Continues t (handle_all es t)
unfolding handle_all
handle_all_quiet [] t q u = (u, (refl, omega arith))
handle_all_quiet (started id metadata ∷ es) t q u = absurd q
handle_all_quiet (completed id ∷ es) t q u =
    let (kept, books) = handle_books (completed id) t u in
    let (rest, same) = handle_all_quiet es (handle (completed id) t) q kept in
    (rest, omega (arith, handle_finish id t))
handle_all_quiet (failed id ∷ es) t q u =
    let (kept, books) = handle_books (failed id) t u in
    let (rest, same) = handle_all_quiet es (handle (failed id) t) q kept in
    (rest, omega (arith, handle_finish id t))

poll_quiet :
    (deadline now : ℕ) (rs : List Round) (t t' : Tracker) (now' : ℕ)
    → IsQuiet rs
    → HasUniqueIds t
    → poll deadline now rs t ≡ some (t', now')
    → Continues t t'
unfolding poll
poll_quiet deadline now [] t t' now' q u e = ground arith
poll_quiet deadline now (r ∷ rs) t t' now' q u e =
    let (kept, same) = handle_all_quiet r.events t q.0 u in
    ground (arith, poll_quiet deadline r.wake rs (handle_all r.events t) t' now' q.1 kept)

-- While no request is started, the drain's count is the number of requests that were completed or
-- failed in the meantime.
pub wait_for_completion_counts :
    (config : DrainConfig) (now : ℕ) (rs : List Round) (t : Tracker) {t' : Tracker}
    {r : DrainResult}
    → IsQuiet rs
    → HasUniqueIds t
    → wait_for_completion config now rs t ≡ some (t', r)
    → (n : ℕ) × (r.completed_count ≡ pos n)
      × (t'.completed_count + t'.failed_count ≡ t.completed_count + t.failed_count + n)
unfolding drain_result
wait_for_completion_counts config now rs t {t'} {r} q u e =
    elim (wait_cases config now rs t t' r e) [
      | inl (same, _, _, _, zero_count) ↦ (0, zero_count, rw same (omega arith))
      | inr (now', ends, result) ↦
          let books = poll_quiet _ now rs t t' now' q u ends in
          (size t.active_requests - size t'.active_requests, rw result (ground arith), omega arith)
    ]
