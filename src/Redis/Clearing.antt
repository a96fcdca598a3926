-- ===== src/Redis/Clearing.antt =====
-- `clear` and `clearStale` of src/services/cache/shared-redis-cache.ts, where the scan iterator is there, as
-- it is after a connection. `scan` and `del_many` stand for SCAN and for DEL of several
-- keys, each under its time limit.
use Prim.Native.String.{◌++◌ as text_append}
use authentication_v.Base.{
  ℕ, zero, suc, ◌+◌, ◌≤◌, ◌≡◌, refl, ap, ◌∙◌, Bool, true, false, String, List, [], ◌∷◌, ◌++◌, arith,
}
use mathlib.Core.List.{append_assoc}
use authentication_v.Redis.Timeout.{Settled, fulfilled, Done, done}
use authentication_v.Redis.Server.{Server, Codec}
use authentication_v.Redis.Scan.{ScanResult, default_scan_config, collect_all}
use authentication_v.Redis.Cache.{
  CacheConfig, RedisCache, Moment, key_prefix, stale_key_prefix, and_then, ask_breaker, run,
}
use authentication_v.Redis.Operations.{command_reply}

-- The slices of a hundred keys, from a slice that has begun and takes `left` more.
unfoldable pub batches_from : ℕ → List String → List String → List (List String)
batches_from left current [] = current ∷ []
batches_from zero current (key ∷ keys) = current ∷ batches_from 99 (key ∷ []) keys
batches_from (suc left) current (key ∷ keys) = batches_from left (current ++ (key ∷ [])) keys

unfoldable pub batches : List String → List (List String)
unfolding batches_from
batches [] = []
batches (key ∷ keys) = batches_from 99 (key ∷ []) keys

module _ {R : Type 0} (server : Server R) (codec : Codec) (config : CacheConfig)
    (scan : ℕ → String → R → R × Settled ScanResult)
    (del_many : List String → R → R × Settled Done) where
  unfoldable pub delete_batches : List (List String) → R → R × Settled Done
  delete_batches [] r = (r, fulfilled done)
  delete_batches (batch ∷ rest) r = and_then (del_many batch r) (delete_batches rest)

  -- A scan that was not completed goes on with the keys that it found.
  clear_commands : String → R → R × Settled Done
  unfolding delete_batches batches
  clear_commands prefix r =
      let found =
        collect_all scan
          (record default_scan_config { timeout_ms = config.operation_timeouts.scan })
          (text_append prefix "*") r in
      delete_batches (batches found.keys) found.server

  clear_allowed : Moment → String → RedisCache R × Bool → RedisCache R
  unfolding clear_commands
  clear_allowed m prefix (c, false) = c
  clear_allowed m prefix (c, true) =
      command_reply server codec config m (run server config m (clear_commands prefix) c)

  unfoldable pub clear : Moment → RedisCache R → RedisCache R
  unfolding clear_allowed
  clear m c = clear_allowed m key_prefix (ask_breaker config m.asked c)

  unfoldable pub clear_stale : Moment → RedisCache R → RedisCache R
  unfolding clear_allowed
  clear_stale m c = clear_allowed m stale_key_prefix (ask_breaker config m.asked c)

abbrev all_of : List (List String) → List String
all_of [] = []
all_of (b ∷ bs) = b ++ all_of bs

abbrev length : List String → ℕ
length [] = 0
length (x ∷ xs) = length xs + 1

-- Each slice has a key, and at most a hundred.
abbrev AllShort : List (List String) → Type 0
AllShort [] = Unit
AllShort (b ∷ bs) = (1 ≤ length b) × (length b ≤ 100) × AllShort bs

length-snoc : (l : List String) (x : String) → length (l ++ (x ∷ [])) ≡ length l + 1
length-snoc [] x = refl
length-snoc (y ∷ l) x = omega (arith, length-snoc l x)

batches_from-all :
    (left : ℕ) (current keys : List String)
    → all_of (batches_from left current keys) ≡ current ++ keys
unfolding batches_from
batches_from-all left current [] = refl
batches_from-all zero current (key ∷ keys) =
    ap (λ (l : List String). current ++ l) (batches_from-all 99 (key ∷ []) keys)
batches_from-all (suc left) current (key ∷ keys) =
    batches_from-all left (current ++ (key ∷ [])) keys ∙ append_assoc current (key ∷ []) keys

batches_from-AllShort :
    (left : ℕ) (current keys : List String)
    → 1 ≤ length current
    → length current + left ≤ 100
    → AllShort (batches_from left current keys)
unfolding batches_from
batches_from-AllShort left current [] h k = (h, omega (arith, k), tt)
batches_from-AllShort zero current (key ∷ keys) h k =
    (h, omega (arith, k), batches_from-AllShort 99 (key ∷ []) keys (omega arith) (omega arith))
batches_from-AllShort (suc left) current (key ∷ keys) h k =
    batches_from-AllShort left (current ++ (key ∷ [])) keys (omega (arith, length-snoc current key))
      (omega (arith, k, length-snoc current key))

-- The slices that are deleted one after another have all the keys, in their order, and none is empty or has
-- more than a hundred.
pub batches-AllShort :
    (keys : List String) → (all_of (batches keys) ≡ keys) × AllShort (batches keys)
unfolding batches
batches-AllShort [] = (refl, tt)
batches-AllShort (key ∷ keys) = (
  batches_from-all 99 (key ∷ []) keys,
  batches_from-AllShort 99 (key ∷ []) keys (omega arith) (omega arith),
)
