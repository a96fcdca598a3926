-- ===== src/Lifecycle/Course.antt =====
-- The course that a machine can take: which states follow which, for every list of attempts.
use authentication_v.Base.{
  ℕ, ◌+◌, ◌≤◌, ◌≡◌, refl, sym, subst, inl, inr, length, ◌≢◌, ◌⊎◌, true, false, some, List, [], ◌∷◌,
  arith, is_some, if◌then◌else◌,
}
use authentication_v.Lifecycle.Machine.{
  LifecycleState, initializing, starting, ready, draining, stopping, stopped, error, Machine, new,
  can_accept_requests, transition_to, get_state_entry_time, same, same_iff, time_of, set_time,
  Timestamps,
}

-- Attempts at transitions, each at its instant.
unfoldable pub run : List (ℕ × LifecycleState) → Machine → Machine
run [] m = m
run ((now, s) ∷ cs) m = run cs (transition_to now s m).0

-- How many of the attempts were accepted.
unfoldable pub accepted : List (ℕ × LifecycleState) → Machine → ℕ
accepted [] m = 0
accepted ((now, s) ∷ cs) m =
    (if (transition_to now s m).1 then 1 else 0) + accepted cs (transition_to now s m).0

-- The machine has left service, or failed before it.
abbrev pub IsPastService : LifecycleState → Type 0
IsPastService draining = Unit
IsPastService stopping = Unit
IsPastService stopped = Unit
IsPastService error = Unit
IsPastService _ = ⊥

pub IsPastService-step :
    (now : ℕ) (s : LifecycleState) (m : Machine)
    → IsPastService m.state
    → IsPastService (transition_to now s m).0.state
unfolding transition_to
IsPastService-step now s m h = ground arith

IsPastService-run :
    (cs : List (ℕ × LifecycleState)) (m : Machine)
    → IsPastService m.state
    → IsPastService (run cs m).state
unfolding run
IsPastService-run [] m h = h
IsPastService-run ((now, s) ∷ cs) m h = IsPastService-run cs _ (IsPastService-step now s m h)

pub past_service_refuses : (m : Machine) → IsPastService m.state → can_accept_requests m ≡ false
unfolding can_accept_requests
past_service_refuses m h = ground arith

-- Once the service drains, stops or has failed, it accepts no request again, whatever transitions
-- are attempted afterwards.
pub run-refuses :
    (cs : List (ℕ × LifecycleState)) (m : Machine)
    → IsPastService m.state
    → can_accept_requests (run cs m) ≡ false
run-refuses cs m h = past_service_refuses (run cs m) (IsPastService-run cs m h)

-- How far a state is along the way to `stopped`.
abbrev rank : LifecycleState → ℕ
rank initializing = 0
rank starting = 1
rank ready = 2
rank draining = 3
rank stopping = 4
rank error = 5
rank stopped = 6

rank-step :
    (now : ℕ) (s : LifecycleState) (m : Machine)
    → rank m.state + (if (transition_to now s m).1 then 1 else 0)
      ≤ rank (transition_to now s m).0.state
unfolding transition_to
rank-step now s m = ground arith

accepted_bounded :
    (cs : List (ℕ × LifecycleState)) (m : Machine)
    → rank m.state + accepted cs m ≤ rank (run cs m).state
unfolding accepted run
accepted_bounded [] m = omega arith
accepted_bounded ((now, s) ∷ cs) m =
    omega (arith, rank-step now s m, accepted_bounded cs (transition_to now s m).0)

rank_max : (s : LifecycleState) → rank s ≤ 6
rank_max s = ground arith

-- Of any attempts on a new machine at most six are accepted: the state machine never cycles.
pub accepted-le-six : (start : ℕ) (cs : List (ℕ × LifecycleState)) → accepted cs (new start) ≤ 6
unfolding new
accepted-le-six start cs =
    omega (arith, accepted_bounded cs (new start), rank_max (run cs (new start)).state)

time_of-set_time :
    (s r : LifecycleState) (t : ℕ) (m : Timestamps)
    → time_of r (set_time s t m) ≡ (if same s r then some t else time_of r m)
unfolding time_of set_time
time_of-set_time s r t [] = refl
time_of-set_time s r t ((q, u) ∷ m) =
    ground (arith, same_iff s r, same_iff q s, same_iff q r, time_of-set_time s r t m)

-- The states that a machine must have entered before the given one.
abbrev pub Entered : Machine → LifecycleState → Type 0
Entered m s = is_some (get_state_entry_time s m) ≡ true

abbrev pub HasCourse : LifecycleState → Machine → Type 0
HasCourse initializing m = Entered m initializing
HasCourse starting m = Entered m initializing × Entered m starting
HasCourse ready m = Entered m initializing × Entered m starting × Entered m ready
HasCourse draining m =
    Entered m initializing × Entered m starting × Entered m ready × Entered m draining
HasCourse stopping m =
    Entered m initializing
    × Entered m starting
    × Entered m ready
    × Entered m draining
    × Entered m stopping
HasCourse error m = Entered m initializing × Entered m error
HasCourse stopped m =
    Entered m initializing × Entered m stopped × (Entered m stopping ⊎ Entered m error)

entered-step :
    (now : ℕ) (s r : LifecycleState) (m : Machine)
    → Entered m r
    → Entered (transition_to now s m).0 r
unfolding transition_to get_state_entry_time
entered-step now s r m h = ground (arith, time_of-set_time s r now m.transition_timestamps)

entered_new :
    (now : ℕ) (s : LifecycleState) (m : Machine)
    → (transition_to now s m).1 ≡ true
    → Entered (transition_to now s m).0 s
unfolding transition_to get_state_entry_time
entered_new now s m h =
    ground (arith, time_of-set_time s s now m.transition_timestamps, same_iff s s)

-- An accepted attempt leads along an edge of the matrix, a refused one nowhere.
abbrev From : LifecycleState → LifecycleState → Type 0
From initializing s = s ≡ initializing
From starting s = s ≡ initializing
From ready s = s ≡ starting
From draining s = s ≡ ready
From stopping s = s ≡ draining
From error s = (s ≢ stopped) × (s ≢ error)
From stopped s = (s ≡ stopping) ⊎ (s ≡ error)

edge :
    (now : ℕ) (s : LifecycleState) (m : Machine)
    → ((transition_to now s m).1 ≡ true) × ((transition_to now s m).0.state ≡ s) × From s m.state
      ⊎ ((transition_to now s m).0 ≡ m)
unfolding transition_to
edge now initializing m = ground arith
edge now starting m = ground arith
edge now ready m = ground arith
edge now draining m = ground arith
edge now stopping m = ground arith
edge now stopped m = ground arith
edge now error m = ground arith

course_started : (s : LifecycleState) (m : Machine) → HasCourse s m → Entered m initializing
course_started initializing m h = h
course_started starting m h = h.0
course_started ready m h = h.0
course_started draining m h = h.0
course_started stopping m h = h.0
course_started error m h = h.0
course_started stopped m h = h.0

module _ (now : ℕ) (s : LifecycleState) (m : Machine) (done : (transition_to now s m).1 ≡ true)
    (h : HasCourse m.state m) where
  abbrev next : Machine
  next = (transition_to now s m).0

  kept : (r : LifecycleState) → Entered m r → Entered next r
  kept r e = entered-step now s r m e

  course_at : {r : LifecycleState} → m.state ≡ r → HasCourse r m
  course_at e = subst (λ q. HasCourse q m) e h

  course_step : (t : LifecycleState) → s ≡ t → From t m.state → HasCourse t next
  course_step initializing e f = kept initializing (course_started m.state m h)
  course_step starting e f =
      let c = course_at f in (kept _ c, subst (Entered next) e (entered_new now s m done))
  course_step ready e f =
      let c = course_at f in
      (kept _ c.0, kept _ c.1, subst (Entered next) e (entered_new now s m done))
  course_step draining e f =
      let c = course_at f in
      (kept _ c.0, kept _ c.1, kept _ c.2, subst (Entered next) e (entered_new now s m done))
  course_step stopping e f =
      let c = course_at f in
      (
        kept _ c.0,
        kept _ c.1,
        kept _ c.2,
        kept _ c.3,
        subst (Entered next) e (entered_new now s m done),
      )
  course_step error e f = (
    kept initializing (course_started m.state m h),
    subst (Entered next) e (entered_new now s m done),
  )
  course_step stopped e (inl f) =
      let c = course_at f in
      (kept _ c.0, subst (Entered next) e (entered_new now s m done), inl (kept _ c.4))
  course_step stopped e (inr f) =
      let c = course_at f in
      (kept _ c.0, subst (Entered next) e (entered_new now s m done), inr (kept _ c.1))

step-HasCourse :
    (now : ℕ) (s : LifecycleState) (m : Machine)
    → HasCourse m.state m
    → HasCourse (transition_to now s m).0.state (transition_to now s m).0
step-HasCourse now s m h = elim (edge now s m) [
  | inl (done, e, f) ↦
      subst (λ q. HasCourse q (transition_to now s m).0) (sym e)
        (course_step now s m done h s refl f)
  | inr same_machine ↦ subst (λ n. HasCourse n.state n) (sym same_machine) h
]

run_from-HasCourse :
    (cs : List (ℕ × LifecycleState)) (m : Machine)
    → HasCourse m.state m
    → HasCourse (run cs m).state (run cs m)
unfolding run
run_from-HasCourse [] m h = h
run_from-HasCourse ((now, s) ∷ cs) m h = run_from-HasCourse cs _ (step-HasCourse now s m h)

-- Whatever transitions are attempted on a new machine, it has an entry time for every state on the
-- way to the one it is in: a machine that is ready has been starting, one that drains has been
-- ready, one that stops has drained, and one that has stopped has been stopping or failed.
pub run-HasCourse :
    (start : ℕ) (cs : List (ℕ × LifecycleState))
    → HasCourse (run cs (new start)).state (run cs (new start))
run-HasCourse start cs =
    run_from-HasCourse cs (new start) (unfold new get_state_entry_time same in refl)

-- From every state `stopped` can be reached by attempts of which each is accepted, at any times.
pub stopped_reachable :
    (now : ℕ) (m : Machine)
    → (targets : List (ℕ × LifecycleState)) × (accepted targets m ≡ length targets)
      × ((run targets m).state ≡ stopped)
unfolding accepted run transition_to
stopped_reachable now m = way m.state refl
  where
    way :
        (s : LifecycleState)
        → m.state ≡ s
        → (targets : List (ℕ × LifecycleState)) × (accepted targets m ≡ length targets)
          × ((run targets m).state ≡ stopped)
    way stopped e = ([], refl, e)
    way error e = ((now, stopped) ∷ [], ground arith, ground arith)
    way _ e = ((now, error) ∷ (now, stopped) ∷ [], ground arith, ground arith)
