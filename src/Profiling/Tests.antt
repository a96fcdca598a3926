-- ===== src/Profiling/Tests.antt =====
-- A run of the profiling service (src/services/profiling.service.ts) on given calls.
use authentication_v.Base.{ℕ, false, none, some, List, [], ◌∷◌}
use authentication_v.Profiling.Service.{cpu, heap, new}
use authentication_v.Profiling.Sessions.{
  Call, starts, stops, shuts_down, run, IsSingle, course-IsSingle,
}

abbrev calls : List (ℕ × Call)
calls =
    (1, starts "p1" cpu)
    ∷ (2, starts "p2" heap)
    ∷ (3, stops (some "p1"))
    ∷ (4, starts "p1" heap)
    ∷ (5, stops none)
    ∷ (6, shuts_down)
    ∷ []

course-IsSingle_example : IsSingle (run calls (new false none))
course-IsSingle_example = course-IsSingle false none calls
