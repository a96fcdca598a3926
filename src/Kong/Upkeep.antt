-- ===== src/Kong/Upkeep.antt =====
-- The cleanup intervals, the reading of the stale cache and the shutdown.
use authentication_v.Base.{
  ℕ, ◌+◌, ◌-◌, ◌*◌, ◌/◌, true, false, String, List, [], ◌∷◌, map, ltb, if◌then◌else◌,
}
use authentication_v.Base.Dict.{Dict, delete, has}
use authentication_v.Kong.Types.{StaleEntry}
use authentication_v.Kong.Service.{Service, stale_data_tolerance_ms}

-- `BREAKER_TTL_MS`
abbrev pub breaker_ttl_ms : ℕ
breaker_ttl_ms = 10 * 60 * 1000

-- The names that were not used for longer than the limit.
unfoldable pub unused_names : ℕ → Dict ℕ → List String
unused_names now [] = []
unused_names now ((name, timestamp) ∷ m) =
    if ltb (timestamp + breaker_ttl_ms) now then name ∷ unused_names now m else unused_names now m

-- The body of the loop over them: only a breaker that is there is shut down and forgotten.
unfoldable pub remove_breaker : String → Service → Service
remove_breaker name s =
    if has name s.breakers
    then record s { breakers = delete name s.breakers; last_used = delete name s.last_used }
    else s

unfoldable pub remove_breakers : List String → Service → Service
remove_breakers [] s = s
remove_breakers (name ∷ names) s = remove_breakers names (remove_breaker name s)

unfoldable pub cleanup_unused_breakers : ℕ → Service → Service
unfolding unused_names remove_breakers remove_breaker
cleanup_unused_breakers now s =
    if s.is_shutting_down then s else remove_breakers (unused_names now s.last_used) s

-- The entries whose age is past the tolerance are deleted, the others stay in their order.
unfoldable pub expired_keys : ℕ → ℕ → Dict StaleEntry → List String
expired_keys now tolerance [] = []
expired_keys now tolerance ((key, e) ∷ m) =
    if ltb (e.timestamp + tolerance) now
    then key ∷ expired_keys now tolerance m
    else expired_keys now tolerance m

unfoldable pub delete_keys : List String → Dict StaleEntry → Dict StaleEntry
delete_keys [] m = m
delete_keys (key ∷ keys) m = delete_keys keys (delete key m)

unfoldable pub cleanup_expired_stale_entries : ℕ → Service → Service
unfolding expired_keys delete_keys
cleanup_expired_stale_entries now s = if s.is_shutting_down then s else record s {
  stale_cache =
      delete_keys (expired_keys now (stale_data_tolerance_ms s) s.stale_cache) s.stale_cache;
}

unfoldable pub clear_stale_cache : Service → Service
clear_stale_cache s = record s { stale_cache = [] }

-- For a clock that has not gone back past an entry.
unfoldable pub get_stale_data_info : ℕ → Service → List (String × ℕ)
get_stale_data_info now s = map (λ e. (e.0, (now - e.1.timestamp) / 60000)) s.stale_cache

unfoldable pub shutdown : Service → Service
shutdown s = record s {
  is_shutting_down = true;
  cleaning = false;
  breakers = [];
  last_used = [];
  stale_cache = [];
}
