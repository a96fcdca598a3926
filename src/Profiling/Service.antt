-- ===== src/Profiling/Service.antt =====
-- `ProfilingService` of src/services/profiling.service.ts, without its log lines. The id of a session,
-- which is made from the clock and random bytes, is given; an empty id is that of no session.
use authentication_v.Base.{
  ℕ, Bool, true, false, not, Option, none, some, String, [], ◌∷◌, str_eq, if◌then◌else◌,
}
use authentication_v.Base.Dict.{Dict, get, set}

pub data SessionType : Type 0 where
  cpu heap : SessionType

pub data SessionStatus : Type 0 where
  running stopped completed failed : SessionStatus

-- `ProfilingSession`, without the process id; its `id` is its key.
pub record Session : Type 0 where
  pub session_type : SessionType
  pub start_time : ℕ
  pub end_time : Option ℕ
  pub status : SessionStatus

pub record ProfilingService : Type 0 where
  pub sessions : Dict Session
  pub enabled : Bool

-- `isProfilingEnabled`, with the value of the configuration, if any. In production a missing value is
-- handed on, which counts as false.
unfoldable pub is_profiling_enabled : Bool → Option Bool → Bool
is_profiling_enabled true none = false
is_profiling_enabled true (some enabled) = enabled
is_profiling_enabled false none = true
is_profiling_enabled false (some enabled) = enabled

unfoldable pub new : Bool → Option Bool → ProfilingService
unfolding is_profiling_enabled
new is_production config = record {
  sessions = [];
  enabled = is_profiling_enabled is_production config;
}

abbrev pub is_running : Session → Bool
is_running s = elim s.status [ running ↦ true | _ ↦ false ]

abbrev pub running_sessions : Dict Session → Dict Session
running_sessions [] = []
running_sessions ((id, s) ∷ m) =
    let rest = running_sessions m in if is_running s then (id, s) ∷ rest else rest

abbrev pub is_empty : Dict Session → Bool
is_empty [] = true
is_empty (x ∷ xs) = false

unfoldable pub start_profiling :
    ℕ → String → SessionType → ProfilingService → ProfilingService × Option String
start_profiling now id session_type p =
    if not p.enabled
    then (p, none)
    else if is_empty (running_sessions p.sessions)
    then (
      record p {
        sessions =
            set id
              (record {
                session_type = session_type;
                start_time = now;
                end_time = none;
                status = running;
              })
              p.sessions;
      },
      some id,
    )
    else (p, none)

abbrev pub complete : ℕ → Session → Session
complete now s = record s { status = completed; end_time = some now }

unfoldable pub stop_found : ℕ → String → Option Session → ProfilingService → ProfilingService × Bool
stop_found now id none p = (p, false)
stop_found now id (some s) p =
    if is_running s
    then (record p { sessions = set id (complete now s) p.sessions }, true)
    else (p, false)

-- The loop over the running sessions.
abbrev pub complete_all : ℕ → Dict Session → Dict Session → Dict Session
complete_all now [] m = m
complete_all now ((id, s) ∷ rest) m = complete_all now rest (set id (complete now s) m)

unfoldable pub stop_all : ℕ → ProfilingService → ProfilingService × Bool
stop_all now p =
    (record p { sessions = complete_all now (running_sessions p.sessions) p.sessions }, true)

unfoldable pub stop_named : ℕ → Option String → ProfilingService → ProfilingService × Bool
unfolding stop_found stop_all
stop_named now none p = stop_all now p
stop_named now (some id) p =
    if str_eq id "" then stop_all now p else stop_found now id (get id p.sessions) p

unfoldable pub stop_profiling : ℕ → Option String → ProfilingService → ProfilingService × Bool
unfolding stop_named
stop_profiling now id p = if not p.enabled then (p, false) else stop_named now id p

unfoldable pub get_session : String → ProfilingService → Option Session
get_session id p = get id p.sessions

unfoldable pub cleanup : ProfilingService → ProfilingService
cleanup p = if not p.enabled then p else record p { sessions = [] }

-- The stops of the running sessions before the map is cleared leave no trace.
unfoldable pub shutdown : ProfilingService → ProfilingService
shutdown p = if not p.enabled then p else record p { sessions = [] }
