-- ===== src/Telemetry/Export.antt =====
-- The statistics of the exports (src/telemetry/export-stats-tracker.ts), and what the wrapped exporters note
-- in them. An instant is the text that toISOString gives for it.
use Prim.Native.String.{◌++◌ as text_append}
use authentication_v.Base.{
  ℕ, ◌+◌, Option, none, some, String, List, [], ltb, ◌==◌, length, push, shift, if◌then◌else◌,
}

-- The variables of `createExportStatsTracker`
pub record ExportStats : Type 0 where
  pub total_exports : ℕ
  pub success_count : ℕ
  pub failure_count : ℕ
  pub last_export_time : Option String
  pub last_success_time : Option String
  pub last_failure_time : Option String
  pub recent_errors : List String

abbrev pub max_recent_errors : ℕ
max_recent_errors = 10

-- `ExportResult` of OpenTelemetry: `error` is `result.error?.message`.
pub record ExportResult : Type 0 where
  pub code : ℕ
  pub error : Option String

unfoldable pub create_export_stats_tracker : ExportStats
create_export_stats_tracker = record {
  total_exports = 0;
  success_count = 0;
  failure_count = 0;
  last_export_time = none;
  last_success_time = none;
  last_failure_time = none;
  recent_errors = [];
}

unfoldable pub record_export_attempt : ExportStats → ExportStats
record_export_attempt s = record s { total_exports = s.total_exports + 1 }

unfoldable pub record_export_success : String → ExportStats → ExportStats
record_export_success time s = record s {
  success_count = s.success_count + 1;
  last_export_time = some time;
  last_success_time = some time;
}

abbrev pub entry : String → String → String
entry time error = text_append time (text_append ": " error)

unfoldable pub add_recent : String → List String → List String
add_recent e errors =
    let pushed = push errors e in
    if ltb max_recent_errors (length pushed) then shift pushed else pushed

unfoldable pub record_export_failure : String → String → ExportStats → ExportStats
unfolding add_recent
record_export_failure time error s = record s {
  failure_count = s.failure_count + 1;
  last_export_time = some time;
  last_failure_time = some time;
  recent_errors = add_recent (entry time error) s.recent_errors;
}

abbrev pub message_or : Option String → String
message_or none = "Export failed"
message_or (some message) = message

-- The callback that a wrapped exporter hands on.
unfoldable pub on_result : String → ExportResult → ExportStats → ExportStats
unfolding record_export_success record_export_failure
on_result time result s =
    if result.code == 0
    then record_export_success time s
    else record_export_failure time (message_or result.error) s

-- What a wrapped exporter does to the statistics: `export` notes the attempt, and later its callback the result.
pub data Event : Type 0 where
  exported : Event
  answered : String → ExportResult → Event

unfoldable pub handle : Event → ExportStats → ExportStats
unfolding record_export_attempt on_result
handle exported s = record_export_attempt s
handle (answered time result) s = on_result time result s
