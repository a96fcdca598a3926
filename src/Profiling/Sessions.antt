-- ===== src/Profiling/Sessions.antt =====
-- Courses of the profiling service (src/services/profiling.service.ts).
use authentication_v.Base.{
  ℕ, ◌+◌, ◌≤◌, ◌≡◌, refl, Bool, true, not, Option, none, some, String, List, [], ◌∷◌, arith, str_eq,
  if◌then◌else◌, if_both, if_split,
}
use authentication_v.Base.Dict.{Dict, get, set}
use authentication_v.Profiling.Service.{
  SessionType, Session, ProfilingService, new, is_running, running_sessions, is_empty,
  start_profiling, complete, stop_found, complete_all, stop_all, stop_named, stop_profiling,
  cleanup, shutdown, running,
}

-- How many sessions run.
abbrev pub running_count : Dict Session → ℕ
running_count [] = 0
running_count ((id, s) ∷ m) = (if is_running s then 1 else 0) + running_count m

count-set :
    (id : String) (s : Session) (m : Dict Session)
    → running_count (set id s m) ≤ (if is_running s then 1 else 0) + running_count m
unfolding set
count-set id s [] = omega arith
count-set id s ((other, w) ∷ m) = ground (arith, count-set id s m)

count-complete_all :
    (now : ℕ) (rest m : Dict Session) → running_count (complete_all now rest m) ≤ running_count m
count-complete_all now [] m = omega arith
count-complete_all now ((id, s) ∷ rest) m = omega (
  arith,
  count-complete_all now rest (set id (complete now s) m),
  count-set id (complete now s) m,
)

count-empty : (m : Dict Session) → is_empty (running_sessions m) ≡ true → running_count m ≡ 0
count-empty [] h = refl
count-empty ((id, s) ∷ m) h = ground (arith, h, count-empty m)

pub data Call : Type 0 where
  starts : String → SessionType → Call
  stops : Option String → Call
  cleans : Call
  shuts_down : Call

unfoldable pub step : ℕ × Call → ProfilingService → ProfilingService
unfolding start_profiling stop_profiling cleanup shutdown
step (now, starts id session_type) p = (start_profiling now id session_type p).0
step (now, stops id) p = (stop_profiling now id p).0
step (now, cleans) p = cleanup p
step (now, shuts_down) p = shutdown p

unfoldable pub run : List (ℕ × Call) → ProfilingService → ProfilingService
unfolding step
run [] p = p
run (c ∷ cs) p = run cs (step c p)

abbrev pub IsSingle : ProfilingService → Type 0
IsSingle p = running_count p.sessions ≤ 1

start-IsSingle :
    (now : ℕ) (id : String) (t : SessionType) (p : ProfilingService)
    → IsSingle p
    → IsSingle (start_profiling now id t p).0
unfolding start_profiling
start-IsSingle now id t p h =
    let P : ProfilingService × Option String → Type 0 = λ q. IsSingle q.0 in
    if_both P (not p.enabled) h (
      if_split P (is_empty (running_sessions p.sessions))
        (λ e. omega (
          arith,
          count-empty p.sessions e,
          count-set id
              (record { session_type = t; start_time = now; end_time = none; status = running })
              p.sessions,
        ))
        (λ _. h))

stop_all-IsSingle : (now : ℕ) (p : ProfilingService) → IsSingle p → IsSingle (stop_all now p).0
unfolding stop_all
stop_all-IsSingle now p h =
    omega (arith, h, count-complete_all now (running_sessions p.sessions) p.sessions)

stop_found-IsSingle :
    (now : ℕ) (id : String) (o : Option Session) (p : ProfilingService)
    → IsSingle p
    → IsSingle (stop_found now id o p).0
unfolding stop_found
stop_found-IsSingle now id none p h = h
stop_found-IsSingle now id (some s) p h =
    if_both (λ (q : ProfilingService × Bool). IsSingle q.0) (is_running s)
      (omega (arith, h, count-set id (complete now s) p.sessions)) h

stop_named-IsSingle :
    (now : ℕ) (id : Option String) (p : ProfilingService)
    → IsSingle p
    → IsSingle (stop_named now id p).0
unfolding stop_named
stop_named-IsSingle now none p h = stop_all-IsSingle now p h
stop_named-IsSingle now (some id) p h =
    if_both (λ (q : ProfilingService × Bool). IsSingle q.0) (str_eq id "")
      (stop_all-IsSingle now p h) (stop_found-IsSingle now id (get id p.sessions) p h)

step-IsSingle : (c : ℕ × Call) (p : ProfilingService) → IsSingle p → IsSingle (step c p)
unfolding step stop_profiling cleanup shutdown
step-IsSingle (now, starts id t) p h = start-IsSingle now id t p h
step-IsSingle (now, stops id) p h =
    if_both (λ (q : ProfilingService × Bool). IsSingle q.0) (not p.enabled) h
      (stop_named-IsSingle now id p h)
step-IsSingle (now, cleans) p h =
    if_both (λ (q : ProfilingService). IsSingle q) (not p.enabled) h (omega arith)
step-IsSingle (now, shuts_down) p h =
    if_both (λ (q : ProfilingService). IsSingle q) (not p.enabled) h (omega arith)

run-IsSingle : (cs : List (ℕ × Call)) (p : ProfilingService) → IsSingle p → IsSingle (run cs p)
unfolding run
run-IsSingle [] p h = h
run-IsSingle (c ∷ cs) p h = run-IsSingle cs (step c p) (step-IsSingle c p h)

-- Along any course of calls of a new profiling service, also one whose ids repeat, at most one session runs.
pub course-IsSingle :
    (is_production : Bool) (config : Option Bool) (cs : List (ℕ × Call))
    → IsSingle (run cs (new is_production config))
unfolding new
course-IsSingle is_production config cs = run-IsSingle cs (new is_production config) (omega arith)
