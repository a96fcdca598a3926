-- ===== src/Reconnect/Limits.antt =====
-- The courses of the manager: how many reconnections run, how many follow each other, and when.
use authentication_v.Base.{
  ℕ, ◌+◌, ◌≤◌, ◌<◌, ◌≡◌, refl, Bool, true, false, List, [], ◌∷◌, ltb, ◌==◌, if◌then◌else◌, arith,
  ◌↔◌, ◌⊎◌, inl, inr, Bool-cases, length,
}
use authentication_v.Reconnect.Manager.{
  Manager, refused, starts, execute_reconnect, settle, reset, force_reset_attempts, is_exhausted,
  get_next_delay_ms,
}

-- What happens to the manager. An attempt ends only while one is running.
pub data Event : Type 0 where
  called : ℕ → ℕ → Event
  ended : ℕ → ℕ → Bool → Event
  was_reset : Event
  was_forced : Event

-- One event.
unfoldable pub step : Event → Manager → Manager
step (called now start_time) m = (execute_reconnect now start_time m).0
step (ended now start_time ok) m = if ltb 0 m.running then (settle now start_time ok m).0 else m
step was_reset m = reset m
step was_forced m = force_reset_attempts m

unfoldable pub run : List Event → Manager → Manager
unfolding step
run [] m = m
run (e ∷ es) m = run es (step e m)

-- `reset` is not among the events.
unfoldable pub has_no_reset : List Event → Bool
has_no_reset [] = true
has_no_reset (called now start_time ∷ es) = has_no_reset es
has_no_reset (ended now start_time ok ∷ es) = has_no_reset es
has_no_reset (was_reset ∷ es) = false
has_no_reset (was_forced ∷ es) = has_no_reset es

-- The promise stands for exactly one running attempt.
abbrev pub IsSingleFlight : Manager → Type 0
IsSingleFlight m = m.running ≡ (if m.has_promise then 1 else 0)

abbrev pub IsLimited : Manager → Type 0
IsLimited m = m.reconnect_attempts ≤ m.config.max_attempts

step-IsSingleFlight :
    (e : Event) (es : List Event) (m : Manager)
    → has_no_reset (e ∷ es) ≡ true
    → IsSingleFlight m
    → IsSingleFlight (step e m) × (has_no_reset es ≡ true)
unfolding step has_no_reset execute_reconnect settle force_reset_attempts
step-IsSingleFlight (called now start_time) es m none_reset h = (ground arith, none_reset)
step-IsSingleFlight (ended now start_time true) es m none_reset h = (ground arith, none_reset)
step-IsSingleFlight (ended now start_time false) es m none_reset h = (ground arith, none_reset)
step-IsSingleFlight was_reset es m none_reset h = absurd (ground arith)
step-IsSingleFlight was_forced es m none_reset h = (h, none_reset)

-- As long as the manager is not reset, at most one reconnection runs at any time, and
-- `isReconnecting` tells whether one does, whatever the order of calls and endings.
pub run-IsSingleFlight :
    (es : List Event) (m : Manager)
    → has_no_reset es ≡ true
    → IsSingleFlight m
    → IsSingleFlight (run es m)
unfolding run
run-IsSingleFlight [] m none_reset h = h
run-IsSingleFlight (e ∷ es) m none_reset h =
    let (h', rest) = step-IsSingleFlight e es m none_reset h in
    run-IsSingleFlight es (step e m) rest h'

step-IsLimited :
    (e : Event) (m : Manager) → IsLimited m → IsLimited (step e m) × ((step e m).config ≡ m.config)
unfolding step execute_reconnect settle reset force_reset_attempts
step-IsLimited (called now start_time) m h = (ground arith, ground arith)
step-IsLimited (ended now start_time true) m h = (ground arith, ground arith)
step-IsLimited (ended now start_time false) m h = (ground arith, ground arith)
step-IsLimited was_reset m h = (omega arith, refl)
step-IsLimited was_forced m h = (omega arith, refl)

-- The attempts counted since the last success, reset or cooldown never exceed the configured
-- number, whatever happens, resets included.
pub run-IsLimited : (es : List Event) (m : Manager) → IsLimited m → IsLimited (run es m)
unfolding run
run-IsLimited [] m h = h
run-IsLimited (e ∷ es) m h = run-IsLimited es (step e m) (step-IsLimited e m h).0

when_refused :
    (now start_time : ℕ) (m : Manager)
    → 0 < m.config.max_attempts
    → (execute_reconnect now start_time m).1 ≡ refused m.reconnect_attempts
    → (m.last_attempt_time ≡ 0) ⊎ (now ≤ m.last_attempt_time + m.config.cooldown_ms)
unfolding execute_reconnect
when_refused now start_time m some_allowed e = elim (Bool-cases (ltb 0 m.last_attempt_time)) [
  | inl later ↦ inr (ground arith)
  | inr never ↦ inl (ground arith)
]

-- When a call is refused: no attempt is running, the attempts are used up and the cooldown since the
-- last one is not over (or there was none). The configuration allows at least one attempt.
pub execute_reconnect-refuses_iff :
    (now start_time : ℕ) (m : Manager)
    → 0 < m.config.max_attempts
    → ((execute_reconnect now start_time m).1 ≡ refused m.reconnect_attempts) ↔ (
        (m.has_promise ≡ false)
        × (is_exhausted m ≡ true)
        × ((m.last_attempt_time ≡ 0) ⊎ (now ≤ m.last_attempt_time + m.config.cooldown_ms)))
unfolding execute_reconnect is_exhausted
execute_reconnect-refuses_iff now start_time m some_allowed = (
  λ e. (ground arith, ground arith, when_refused now start_time m some_allowed e),
  λ (idle, full, hot). elim hot [ inl never ↦ ground arith | inr soon ↦ ground arith ],
)

-- An attempt that starts waits the delay that `getNextDelayMs` announced, except the first of a row,
-- which waits none; no wait exceeds `maxDelayMs`. No cooldown has passed since the last attempt.
pub execute_reconnect-delay :
    (now start_time : ℕ) (m : Manager) {delay : ℕ}
    → now ≤ m.last_attempt_time + m.config.cooldown_ms
    → (execute_reconnect now start_time m).1 ≡ starts delay
    → (delay ≡ (if m.reconnect_attempts == 0 then 0 else get_next_delay_ms m))
      × (delay ≤ m.config.max_delay_ms)
unfolding execute_reconnect get_next_delay_ms
execute_reconnect-delay now start_time m {delay} soon e = (ground arith, ground arith)

-- Rounds of one call and one failed attempt each: the instants of the call, the start and the end.
unfoldable pub fail_all : List (ℕ × ℕ × ℕ) → Manager → Manager
fail_all [] m = m
fail_all ((now, start_time, end) ∷ rounds) m =
    fail_all rounds (settle end start_time false (execute_reconnect now start_time m).0).0

-- No round comes after the cooldown, but for the first of a row.
abbrev pub IsRow : ℕ → ℕ → ℕ → List (ℕ × ℕ × ℕ) → Type 0
IsRow cooldown attempts last [] = Unit
IsRow cooldown attempts last ((now, start_time, end) ∷ rounds) =
    ((attempts ≡ 0) ⊎ (now ≤ last + cooldown)) × IsRow cooldown (attempts + 1) start_time rounds

one_failure :
    (now start_time end : ℕ) (m : Manager)
    → m.has_promise ≡ false
    → m.reconnect_attempts < m.config.max_attempts
    → (m.reconnect_attempts ≡ 0) ⊎ (now ≤ m.last_attempt_time + m.config.cooldown_ms)
    → let m' = (settle end start_time false (execute_reconnect now start_time m).0).0 in
      (m'.has_promise ≡ false)
      × (m'.config ≡ m.config)
      × (m'.reconnect_attempts ≡ m.reconnect_attempts + 1)
      × (m'.last_attempt_time ≡ start_time)
      × (m'.total_failures ≡ m.total_failures + 1)
unfolding execute_reconnect settle
one_failure now start_time end m idle left (inl first) =
    (refl, ground arith, ground arith, ground arith, ground arith)
one_failure now start_time end m idle left (inr soon) =
    (refl, ground arith, ground arith, ground arith, ground arith)

-- Failures in a row are all counted, up to the configured number: while they fit, each of the rounds
-- makes an attempt, and the counters of attempts and of failures grow by their number.
pub fail_all-counts :
    (rounds : List (ℕ × ℕ × ℕ)) (m : Manager)
    → m.has_promise ≡ false
    → m.reconnect_attempts + length rounds ≤ m.config.max_attempts
    → IsRow m.config.cooldown_ms m.reconnect_attempts m.last_attempt_time rounds
    → ((fail_all rounds m).reconnect_attempts ≡ m.reconnect_attempts + length rounds)
      × ((fail_all rounds m).total_failures ≡ m.total_failures + length rounds)
unfolding fail_all
fail_all-counts [] m idle room row = (omega arith, omega arith)
fail_all-counts ((now, start_time, end) ∷ rounds) m idle room row =
    let m' = (settle end start_time false (execute_reconnect now start_time m).0).0 in
    let (idle', config', attempts', last', failures') =
      one_failure now start_time end m idle (omega arith) row.0 in
    let rest =
      fail_all-counts rounds m' idle' (rw (attempts', config') (omega arith))
        (rw (attempts', config', last') row.1) in
    (omega (arith, rest.0, attempts'), omega (arith, rest.1, failures'))
