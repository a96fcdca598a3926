-- ===== src/Telemetry/Tests.antt =====
-- Runs of the guards of labels and of the export statistics (src/telemetry) on given calls.
use authentication_v.Base.{
  ℕ, zero, suc, ◌≡◌, refl, none, some, List, [], ◌∷◌, String, arith, length,
}
use authentication_v.Telemetry.Guard.{new}
use authentication_v.Telemetry.Export.{Event, exported, answered, create_export_stats_tracker}
use authentication_v.Telemetry.Recent.{Holds, begun, succeeded, all_noted, sum_of, run, run-Holds}
use authentication_v.Telemetry.Export
use authentication_v.Telemetry.Labels.{IsBounded, AllInRange, ask_all, ask_all-AllInRange}

abbrev asks : List (ℕ × String)
asks = (1, "ann") ∷ (2, "") ∷ (3, "bob") ∷ (4, "ann") ∷ []

new-IsBounded : IsBounded (new 0)
unfolding new
new-IsBounded = record { distinct = tt; bounded = omega arith }

ask_all-AllInRange_example :
    IsBounded (ask_all asks (new 0)).0
    × AllInRange (ask_all asks (new 0)).0 (ask_all asks (new 0)).1
ask_all-AllInRange_example = ask_all-AllInRange asks (new 0) new-IsBounded

-- Exports that fail, after one that succeeds.
abbrev outage : ℕ → List Event
outage zero = exported ∷ answered "08:00" (record { code = 0; error = none }) ∷ []
outage (suc n) =
    exported ∷ answered "09:00" (record { code = 1; error = some "refused" }) ∷ outage n

run-Holds_example :
    Holds
      (sum_of begun (outage 12))
      (sum_of succeeded (outage 12))
      (all_noted [] (outage 12))
      (run (outage 12) create_export_stats_tracker)
run-Holds_example = run-Holds (outage 12)

errors_kept : length ((run (outage 12) create_export_stats_tracker).recent_errors) ≡ 10
unfolding run Export.handle create_export_stats_tracker
errors_kept = refl
