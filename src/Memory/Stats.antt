-- ===== src/Memory/Stats.antt =====
-- What `getStats` deletes, and what a reader sees of it.
use authentication_v.Base.{
  ℕ, ◌≤◌, ◌≡◌, refl, Bool, false, Option, none, some, String, arith, ltb, eq_iff, [], ◌∷◌,
  if◌then◌else◌, ◌∙◌, sym, not,
}
use authentication_v.Base.Dict.{HasDistinctKeys, get as lookup, delete as remove, Dict, get-delete}
use authentication_v.Memory.Store.{Entry, Store, get, get_stale, sweep, get_stats}
use authentication_v.Memory.Reads.{live_at, get_lem, get_stale_lem}
use authentication_v.Memory.Capacity.{IsBounded}

-- The entry is there and has expired.
abbrev is_dead : {V : Type 0} → ℕ → Option (Entry V) → Bool
is_dead now none = false
is_dead now (some e) = not (ltb now e.expires)

module _ {V : Type 0} where
  get-sweep :
      (now : ℕ) (q : String) (es m : Dict (Entry V))
      → HasDistinctKeys es
      → lookup q (sweep now es m).0 ≡ (if is_dead now (lookup q es) then none else lookup q m)
  unfolding sweep lookup
  get-sweep now q [] m d = refl
  get-sweep now q ((k, e) ∷ es) m d = ground (
    arith,
    eq_iff k q,
    get-delete k q m,
    get-sweep now q es m d.1,
    get-sweep now q es (remove k m) d.1,
  )

  swept_reads :
      (now now' : ℕ) (q : String) (m : Dict (Entry V))
      → HasDistinctKeys m
      → now ≤ now'
      → live_at now' (lookup q (sweep now m m).0) ≡ live_at now' (lookup q m)
  swept_reads now now' q m d le = ground (arith, get-sweep now q m m d)

-- Taking the statistics changes no later read of either map, for a store with no key twice.
pub get-get_stats :
    {V : Type 0} (took now now' : ℕ) (key : String) (s : Store V)
    → IsBounded s
    → now ≤ now'
    → ((get took now' key (get_stats now s).0).1 ≡ (get took now' key s).1)
      × ((get_stale took now' key (get_stats now s).0).1 ≡ (get_stale took now' key s).1)
unfolding get_stats
get-get_stats took now now' key s h le = (
  get_lem took now' key _
      ∙ swept_reads now now' key s.cache h.distinct le
      ∙ sym (get_lem took now' key s),
  get_stale_lem took now' key _
      ∙ swept_reads now now' key s.stale_cache h.stale_distinct le
      ∙ sym (get_stale_lem took now' key s),
)
