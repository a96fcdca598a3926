-- ===== src/Redis/Scan.antt =====
-- `CacheScanIterator` of src/services/cache/cache-scan-iterator.ts, without its log lines and delays. `scan`
-- stands for the command under its time limit, from the cursor and the pattern, over the states `R` of the
-- server.
use Prim.Native.String.{◌++◌ as text_append}
use authentication_v.Base.{
  ℕ, zero, suc, ◌+◌, Bool, true, false, Option, none, some, String, List, [], ◌∷◌, ◌++◌, ◌==◌,
  if◌then◌else◌,
}
use authentication_v.Base.Decimal.{decimal}
use authentication_v.Redis.Timeout.{Settled, fulfilled, failed}

-- `CacheScanIteratorConfig`
pub record ScanConfig : Type 0 where
  pub count : ℕ
  pub timeout_ms : ℕ
  pub max_iterations : ℕ
  pub retries_per_scan : ℕ
  pub retry_delay_ms : ℕ

-- `DEFAULT_SCAN_CONFIG`
abbrev pub default_scan_config : ScanConfig
default_scan_config = record {
  count = 100;
  timeout_ms = 5000;
  max_iterations = 10000;
  retries_per_scan = 2;
  retry_delay_ms = 100;
}

-- `ScanResult`
pub record ScanResult : Type 0 where
  pub cursor : ℕ
  pub keys : List String

-- What `collectAll` returns, with the state of the server; `iterations` counts the batches that are not
-- empty, and the scan was completed where there is no error.
pub record Collected (R : Type 0) : Type 0 where
  pub server : R
  pub keys : List String
  pub iterations : ℕ
  pub error : Option String

abbrev pub is_empty : List String → Bool
is_empty [] = true
is_empty (x ∷ xs) = false

abbrev pub exceeded_message : ℕ → String → ℕ → String
unfolding decimal
exceeded_message max_iterations pattern cursor =
    text_append (text_append "SCAN exceeded maximum iterations (" (decimal max_iterations)) (
      text_append (text_append "). Pattern: " pattern)
        (text_append ", Last cursor: " (decimal cursor)))

module _ {R : Type 0} (scan : ℕ → String → R → R × Settled ScanResult) where
  abbrev pub or_again :
      (R → R × Settled ScanResult) → R × Settled ScanResult → R × Settled ScanResult
  or_again again (r, fulfilled page) = (r, fulfilled page)
  or_again again (r, failed e) = again r

  -- With the retries that are left.
  unfoldable pub scan_with_retry : ℕ → ℕ → String → R → R × Settled ScanResult
  scan_with_retry zero cursor pattern r = scan cursor pattern r
  scan_with_retry (suc left) cursor pattern r =
      or_again (scan_with_retry left cursor pattern) (scan cursor pattern r)

  abbrev pub collect_page :
      (ℕ → List String → ℕ → R → Collected R)
      → List String
      → ℕ
      → R × Settled ScanResult
      → Collected R
  collect_page next keys batches (r, failed e) = record {
    server = r;
    keys = keys;
    iterations = batches;
    error = some e;
  }
  collect_page next keys batches (r, fulfilled page) =
      let all = keys ++ page.keys in
      let counted = if is_empty page.keys then batches else batches + 1 in
      if page.cursor == 0
      then record { server = r; keys = all; iterations = counted; error = none }
      else next page.cursor all counted r

  -- The loop of `iterate` with that of `collectAll`, with the iterations that are left.
  unfoldable pub collect : ScanConfig → String → ℕ → ℕ → List String → ℕ → R → Collected R
  unfolding scan_with_retry
  collect config pattern zero cursor keys batches r = record {
    server = r;
    keys = keys;
    iterations = batches;
    error = some (exceeded_message config.max_iterations pattern cursor);
  }
  collect config pattern (suc left) cursor keys batches r =
      collect_page (collect config pattern left) keys batches
        (scan_with_retry config.retries_per_scan cursor pattern r)

  unfoldable pub collect_all : ScanConfig → String → R → Collected R
  unfolding collect
  collect_all config pattern r = collect config pattern config.max_iterations 0 [] 0 r
