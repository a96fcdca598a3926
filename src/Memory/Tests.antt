-- ===== src/Memory/Tests.antt =====
-- Runs of the in-memory cache (src/services/cache/local-memory-cache.ts) on given calls.
use authentication_v.Base.{ℕ, ◌≡◌, refl, none, some, List, [], ◌∷◌, arith, length}
use authentication_v.Memory.Store.{Store, new, get, set, set_stale}
use authentication_v.Base.Dict.{get as lookup, set as insert}
use authentication_v.Memory.Capacity.{
  Call, call_get, call_get_stale, call_set, call_set_stale, call_get_stats, run, IsBounded,
  run-IsBounded,
}
use authentication_v.Memory.Reads.{get-set}

abbrev empty : Store ℕ
empty = new 60 2

abbrev calls : List (ℕ × Call ℕ)
calls =
    (1, call_set "a" 10 none)
    ∷ (2, call_set "b" 20 none)
    ∷ (3, call_set "c" 30 (some 1))
    ∷ (4, call_get 1 "a")
    ∷ (5, call_get_stale 1 "a")
    ∷ (9000, call_get_stats)
    ∷ []

-- A store with one live entry and one that expires at 1000.
abbrev two : Store ℕ
two = record empty {
  cache =
      ("a", record { content = 10; expires = 90000; created_at = 1 })
      ∷ ("b", record { content = 20; expires = 1000; created_at = 2 })
      ∷ [];
}

empty-IsBounded : IsBounded empty
empty-IsBounded = record { distinct = tt; stale_distinct = tt; bounded = omega arith }

two-IsBounded : IsBounded two
unfolding lookup
two-IsBounded = record { distinct = (refl, (refl, tt)); stale_distinct = tt; bounded = omega arith }

-- The stale map grows past twice the limit when it is written directly.
stale_overgrown :
    (length
      (run
        ((1, call_set_stale "a" 1 none)
          ∷ (1, call_set_stale "b" 1 none)
          ∷ (1, call_set_stale "c" 1 none)
          ∷ (1, call_set_stale "d" 1 none)
          ∷ (1, call_set_stale "e" 1 none)
          ∷ [])
        empty).stale_cache)
    ≡ 5
unfolding run set_stale insert
stale_overgrown = refl

run-IsBounded_example : IsBounded (run calls empty)
run-IsBounded_example = run-IsBounded calls empty empty-IsBounded

get-set_example : (get 1 4000 "c" (set 3000 "c" 30 (some 2) two)).1 ≡ some 30
get-set_example =
    get-set 1 3000 4000 "c" 30 (some 2) two two-IsBounded (omega arith)
      (omega arith, (omega arith, tt))
