-- ===== src/Kong/Service.antt =====
-- The object `KongCircuitBreakerService`: its fields, its construction and its breakers. The
-- breakers themselves are those of the library opossum; the service keeps their options.
use authentication_v.Base.{
  ℕ, ◌*◌, Bool, true, false, Option, none, some, String, [], ◌∷◌, if◌then◌else◌,
}
use authentication_v.Base.Dict.{Dict, get, set, has}
use authentication_v.Kong.Types.{
  OperationConfig, BreakerOptions, StaleEntry, Strategy, cache, graceful_degradation, deny,
}

-- `CircuitBreakerConfig & { highAvailability?: boolean }`
pub record ServiceConfig : Type 0 where
  pub enabled : Bool
  pub timeout : ℕ
  pub error_threshold_percentage : ℕ
  pub reset_timeout : ℕ
  pub rolling_count_timeout : ℕ
  pub rolling_count_buckets : ℕ
  pub volume_threshold : ℕ
  pub operations : Dict OperationConfig
  pub high_availability : Bool

-- The fields, without the statistics that `getStats` keeps. `has_cache_service` says whether a cache
-- service was given, and `cleaning` whether the two cleanup intervals are set.
pub record Service : Type 0 where
  pub breakers : Dict BreakerOptions
  pub stale_cache : Dict StaleEntry
  pub config : ServiceConfig
  pub stale_data_tolerance_minutes : ℕ
  pub max_stale_entries : ℕ
  pub operation_configs : Dict OperationConfig
  pub last_used : Dict ℕ
  pub cleaning : Bool
  pub is_shutting_down : Bool
  pub has_cache_service : Bool

abbrev pub stale_data_tolerance_ms : Service → ℕ
stale_data_tolerance_ms s = s.stale_data_tolerance_minutes * 60 * 1000

-- `a ?? b`
abbrev pub or_else : Option ℕ → ℕ → ℕ
or_else none d = d
or_else (some n) d = n

-- A field of `{ ...existing, ...overrides }`.
abbrev pub override : {A : Type 0} → Option A → Option A → Option A
override old none = old
override old (some v) = some v

unfoldable pub merge : OperationConfig → OperationConfig → OperationConfig
merge old new = record {
  timeout = override old.timeout new.timeout;
  error_threshold_percentage =
      override old.error_threshold_percentage new.error_threshold_percentage;
  reset_timeout = override old.reset_timeout new.reset_timeout;
  rolling_count_timeout = override old.rolling_count_timeout new.rolling_count_timeout;
  rolling_count_buckets = override old.rolling_count_buckets new.rolling_count_buckets;
  volume_threshold = override old.volume_threshold new.volume_threshold;
  fallback_strategy = override old.fallback_strategy new.fallback_strategy;
}

-- `{}`
abbrev pub no_overrides : OperationConfig
no_overrides = record {
  timeout = none;
  error_threshold_percentage = none;
  reset_timeout = none;
  rolling_count_timeout = none;
  rolling_count_buckets = none;
  volume_threshold = none;
  fallback_strategy = none;
}

default_operation : ℕ → ℕ → ℕ → Strategy → OperationConfig
default_operation timeout percentage reset strategy = record no_overrides {
  timeout = some timeout;
  error_threshold_percentage = some percentage;
  reset_timeout = some reset;
  fallback_strategy = some strategy;
}

default_configs : Dict OperationConfig
unfolding default_operation
default_configs =
    ("getConsumerSecret", default_operation 3000 50 60000 cache)
    ∷ ("createConsumerSecret", default_operation 5000 30 120000 deny)
    ∷ ("healthCheck", default_operation 1000 75 10000 graceful_degradation)
    ∷ []

existing_or_empty : Option OperationConfig → OperationConfig
existing_or_empty none = no_overrides
existing_or_empty (some c) = c

-- The loop over `config.operations`.
apply_overrides : Dict OperationConfig → Dict OperationConfig → Dict OperationConfig
unfolding merge existing_or_empty
apply_overrides [] configs = configs
apply_overrides ((operation, new) ∷ rest) configs =
    apply_overrides rest
      (set operation (merge (existing_or_empty (get operation configs)) new) configs)

unfoldable pub initialize_operation_configs : ServiceConfig → Dict OperationConfig
unfolding default_configs apply_overrides get set
initialize_operation_configs config = apply_overrides config.operations default_configs

-- The constructor; `cachingConfig.maxMemoryEntries ?? 1000`.
unfoldable pub new : ServiceConfig → ℕ → Option ℕ → Bool → Service
unfolding initialize_operation_configs
new config tolerance_minutes max_memory_entries has_cache_service = record {
  breakers = [];
  stale_cache = [];
  config = config;
  stale_data_tolerance_minutes = tolerance_minutes;
  max_stale_entries = or_else max_memory_entries 1000;
  operation_configs = initialize_operation_configs config;
  last_used = [];
  cleaning = true;
  is_shutting_down = false;
  has_cache_service = has_cache_service;
}

-- `operationConfig?.fallbackStrategy || "deny"`
strategy_or_deny : Option OperationConfig → Strategy
strategy_or_deny none = deny
strategy_or_deny (some c) = elim c.fallback_strategy [ none ↦ deny | some f ↦ f ]

unfoldable pub fallback_strategy : String → Service → Strategy
unfolding strategy_or_deny
fallback_strategy operation s = strategy_or_deny (get operation s.operation_configs)

-- `operationConfig?.timeout ?? this.config.timeout`, and so on.
breaker_options : OperationConfig → ServiceConfig → BreakerOptions
breaker_options own config = record {
  timeout = or_else own.timeout config.timeout;
  error_threshold_percentage =
      or_else own.error_threshold_percentage config.error_threshold_percentage;
  reset_timeout = or_else own.reset_timeout config.reset_timeout;
  rolling_count_timeout = or_else own.rolling_count_timeout config.rolling_count_timeout;
  rolling_count_buckets = or_else own.rolling_count_buckets config.rolling_count_buckets;
  volume_threshold = or_else own.volume_threshold config.volume_threshold;
}

unfoldable pub options_for : String → Service → BreakerOptions
unfolding breaker_options existing_or_empty
options_for operation s =
    breaker_options (existing_or_empty (get operation s.operation_configs)) s.config

unfoldable pub get_or_create_breaker : ℕ → String → Service → Service
get_or_create_breaker now operation s =
    let used = record s { last_used = set operation now s.last_used } in
    if has operation s.breakers
    then used
    else record used { breakers = set operation (options_for operation s) s.breakers }
