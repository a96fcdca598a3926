-- ===== src/Telemetry/Volume.antt =====
-- The volume of requests by consumer (src/telemetry/consumer-volume.ts).
use authentication_v.Base.{
  ℕ, ◌+◌, ◌≡◌, refl, arith, Bool, true, false, Option, none, some, String, [], ◌∷◌, ltb, str_eq,
  if◌then◌else◌,
}
use authentication_v.Base.Dict.{Dict, get, set, size}

pub data Bucket : Type 0 where
  high medium low : Bucket

-- `consumerRequestCounts.get(consumerId) || 0`
abbrev pub count_of : Option ℕ → ℕ
count_of none = 0
count_of (some n) = n

unfoldable pub increment_consumer_request : String → Dict ℕ → Dict ℕ
increment_consumer_request id counts =
    if str_eq id "" then counts else set id (count_of (get id counts) + 1) counts

unfoldable pub get_volume_bucket : String → Dict ℕ → Bucket
get_volume_bucket id counts =
    let count = count_of (get id counts) in
    if str_eq id ""
    then low
    else if ltb 5000 count
    then high
    else if ltb 100 count
    then medium
    else low

abbrev pub same : Bucket → Bucket → Bool
same high high = true
same medium medium = true
same low low = true
same _ _ = false

-- The loop over the keys.
count_in : Bucket → Dict ℕ → Dict ℕ → ℕ
unfolding get_volume_bucket
count_in volume counts [] = 0
count_in volume counts ((id, n) ∷ rest) =
    (if same (get_volume_bucket id counts) volume then 1 else 0) + count_in volume counts rest

unfoldable pub get_consumer_count_by_volume : Bucket → Dict ℕ → ℕ
unfolding count_in
get_consumer_count_by_volume volume counts = count_in volume counts counts

-- What the interval does every fifteen minutes, and `shutdownConsumerVolume`.
unfoldable pub clear : Dict ℕ → Dict ℕ
clear counts = []

-- The result of `getConsumerVolumeStats`.
pub record VolumeStats : Type 0 where
  pub high : ℕ
  pub medium : ℕ
  pub low : ℕ
  pub total : ℕ

unfoldable pub get_consumer_volume_stats : Dict ℕ → VolumeStats
unfolding get_consumer_count_by_volume
get_consumer_volume_stats counts = record {
  high = get_consumer_count_by_volume Bucket.high counts;
  medium = get_consumer_count_by_volume Bucket.medium counts;
  low = get_consumer_count_by_volume Bucket.low counts;
  total = size counts;
}

one_bucket :
    (b : Bucket)
    → ((if same b Bucket.high then 1 else 0) + (if same b Bucket.medium then 1 else 0))
        + (if same b Bucket.low then 1 else 0)
      ≡ 1
one_bucket high = refl
one_bucket medium = refl
one_bucket low = refl

counts_total :
    (counts rest : Dict ℕ)
    → (count_in Bucket.high counts rest + count_in Bucket.medium counts rest)
        + count_in Bucket.low counts rest
      ≡ size rest
unfolding count_in
counts_total counts [] = refl
counts_total counts ((id, n) ∷ rest) =
    omega (arith, one_bucket (get_volume_bucket id counts), counts_total counts rest)

-- Every consumer that is counted falls into exactly one of the three volumes.
pub get_consumer_volume_stats-total :
    (counts : Dict ℕ)
    → ((get_consumer_volume_stats counts).high + (get_consumer_volume_stats counts).medium)
        + (get_consumer_volume_stats counts).low
      ≡ (get_consumer_volume_stats counts).total
unfolding get_consumer_volume_stats get_consumer_count_by_volume
get_consumer_volume_stats-total counts = counts_total counts counts
