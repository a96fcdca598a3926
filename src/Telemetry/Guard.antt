-- ===== src/Telemetry/Guard.antt =====
-- The bounded labels of consumers (src/telemetry/cardinality-guard.ts), without its log lines.
use Prim.Native.Char.{code}
use Prim.Native.Nat.{bit_xor}
use Prim.Native.String.{◌++◌ as text_append}
use authentication_v.Base.{
  ℕ, ◌+◌, ◌-◌, ◌*◌, ◌/◌, ◌%◌, ◌^◌, max, Bool, true, false, ◌&&◌, ◌||◌, not, Option, none, some,
  String, List, [], ◌∷◌, ltb, leb, str_eq, if◌then◌else◌,
}
use authentication_v.Base.Decimal.{decimal}

-- `CARDINALITY_CONFIG`
abbrev pub max_unique_consumers : ℕ
max_unique_consumers = 1000

abbrev pub hash_buckets : ℕ
hash_buckets = 256

abbrev pub warning_threshold_percent : ℕ
warning_threshold_percent = 80

-- The variables of the module; `uniques` to `warnings_emitted` are the fields of `cardinalityStats`.
pub record Guard : Type 0 where
  pub tracked_consumer_ids : List String
  pub limit_exceeded : Bool
  pub last_reset_time : ℕ
  pub uniques : ℕ
  pub buckets_used : ℕ
  pub total_requests : ℕ
  pub limit_exceeded_at : Option ℕ
  pub warnings_emitted : ℕ

unfoldable pub new : ℕ → Guard
new now = record {
  tracked_consumer_ids = [];
  limit_exceeded = false;
  last_reset_time = now;
  uniques = 0;
  buckets_used = 0;
  total_requests = 0;
  limit_exceeded_at = none;
  warnings_emitted = 0;
}

-- The units that `charCodeAt` gives, two for a character past the basic plane.
abbrev units : String → List ℕ
units String.[] = []
units (String.◌∷◌ c s) =
    let rest = units s in
    if ltb (code c) 65536
    then code c ∷ rest
    else (55296 + (code c - 65536) / 1024) ∷ (56320 + (code c - 65536) % 1024) ∷ rest

-- The loop of `hashString`: the operator `^` works on 32 bits, whose sign plays no part modulo 2 ^ 32.
hash_from : ℕ → List ℕ → ℕ
hash_from hash [] = hash
hash_from hash (u ∷ us) = hash_from (bit_xor (hash * 33 % 2 ^ 32) u) us

unfoldable pub hash_string : String → ℕ
unfolding hash_from
hash_string text = hash_from 5381 (units text)

-- `bucket_${bucket.toString().padStart(3, "0")}`
unfoldable pub bucket_label : ℕ → String
unfolding decimal
bucket_label bucket = text_append "bucket_" (
    text_append (if ltb bucket 10 then "00" else if ltb bucket 100 then "0" else "")
      (decimal bucket))

abbrev pub size : List String → ℕ
size [] = 0
size (x ∷ xs) = size xs + 1

abbrev pub has : String → List String → Bool
has id [] = false
has id (x ∷ xs) = str_eq x id || has id xs

-- `Set.add` of an id that is not there.
abbrev pub add : String → List String → List String
add id [] = id ∷ []
add id (x ∷ xs) = x ∷ add id xs

-- The first id past the limit is noted.
abbrev pub note_limit : ℕ → Guard → Guard
note_limit now g =
    if g.limit_exceeded then g else record g { limit_exceeded = true; limit_exceeded_at = some now }

unfoldable pub track : String → Guard → Guard
track id g =
    let ids = add id g.tracked_consumer_ids in
    record g {
      tracked_consumer_ids = ids;
      uniques = size ids;
      warnings_emitted =
          if leb (warning_threshold_percent * max_unique_consumers) (size ids * 100)
            && not g.limit_exceeded
          then g.warnings_emitted + 1
          else g.warnings_emitted;
    }

unfoldable pub hash_bucket : String → ℕ
unfolding hash_string
hash_bucket id = hash_string id % hash_buckets

unfoldable pub put_in_bucket : ℕ → String → Guard → Guard × String
unfolding hash_bucket bucket_label
put_in_bucket now id g =
    let noted = note_limit now g in
    (
      record noted { buckets_used = max noted.buckets_used (hash_bucket id + 1) },
      bucket_label (hash_bucket id),
    )

unfoldable pub get_bounded_consumer_id : ℕ → String → Guard → Guard × String
unfolding track put_in_bucket
get_bounded_consumer_id now id g =
    let counted = record g { total_requests = g.total_requests + 1 } in
    if str_eq id ""
    then (g, "unknown")
    else if has id g.tracked_consumer_ids
    then (counted, id)
    else if ltb (size g.tracked_consumer_ids) max_unique_consumers
    then (track id counted, id)
    else put_in_bucket now id counted

unfoldable pub get_hash_bucketed_consumer_id : String → String
unfolding hash_bucket bucket_label
get_hash_bucketed_consumer_id id =
    if str_eq id "" then "bucket_unknown" else bucket_label (hash_bucket id)

unfoldable pub is_consumer_tracked_individually : String → Guard → Bool
is_consumer_tracked_individually id g = has id g.tracked_consumer_ids

unfoldable pub reset_cardinality_tracking : ℕ → Guard → Guard
reset_cardinality_tracking now g = record g {
  tracked_consumer_ids = [];
  limit_exceeded = false;
  last_reset_time = now;
  uniques = 0;
  buckets_used = 0;
  total_requests = 0;
  limit_exceeded_at = none;
}

pub data WarningLevel : Type 0 where
  ok warning critical : WarningLevel

unfoldable pub get_cardinality_warning_level : Guard → WarningLevel
get_cardinality_warning_level g =
    let percent = size g.tracked_consumer_ids * 100 in
    if g.limit_exceeded || leb (100 * max_unique_consumers) percent
    then critical
    else if leb (warning_threshold_percent * max_unique_consumers) percent
    then warning
    else ok

unfoldable pub shutdown_cardinality_guard : Guard → Guard
shutdown_cardinality_guard g = record g { tracked_consumer_ids = [] }
