-- ===== src/Kong/Local.antt =====
-- The in-memory cache (src/services/cache/local-memory-cache.ts) as the cache of the adapter.
use authentication_v.Base.{
  ℕ, ◌≡◌, none, some, String, arith, ◌⊎◌, inl, inr, str_eq, eq_iff, Bool-cases, Option-cases,
}
use authentication_v.Base.Dict.{get as lookup, set as insert, get-set, get-delete}
use authentication_v.Base.Evict.{get-evict_oldest}
use authentication_v.Memory.Store.{Store, Entry, get, set, primary_entry}
use authentication_v.Kong.Types.{ConsumerSecret}
use authentication_v.Kong.Calls.{KongCache}

-- The entry under the key, expired or not, has the value.
abbrev pub LocalHolds : String → ConsumerSecret → Store ConsumerSecret → Type 0
LocalHolds key v s = (e : Entry ConsumerSecret) × (lookup key s.cache ≡ some e) × (e.content ≡ v)

pub local_read_held :
    (took now : ℕ) (key : String) (s : Store ConsumerSecret) (v : ConsumerSecret)
    → (get took now key s).1 ≡ some v
    → LocalHolds key v s
unfolding get
local_read_held took now key s v e = elim (Option-cases (lookup key s.cache)) [
  | inl gone ↦ absurd (ground arith)
  | inr (entry, found) ↦ (entry, found, ground arith)
]

pub local_held_before_read :
    (took now : ℕ) (key other : String) (s : Store ConsumerSecret) (v : ConsumerSecret)
    → LocalHolds other v (get took now key s).0
    → LocalHolds other v s
unfolding get
local_held_before_read took now key other s v (entry, found, same) =
    (entry, ground (arith, get-delete key other s.cache), same)

pub local_held_after_write :
    (now : ℕ) (key other : String) (s : Store ConsumerSecret) (w v : ConsumerSecret)
    → LocalHolds other v (set now key w none s)
    → ((other ≡ key) × (v ≡ w)) ⊎ LocalHolds other v s
unfolding set
local_held_after_write now key other s w v (entry, found, same) =
    let p = primary_entry now w s.ttl_seconds in
    let kept =
      get-evict_oldest (λ (e : Entry ConsumerSecret). e.created_at) other s.max_entries
        (insert key p s.cache) found in
    elim (Bool-cases (str_eq key other)) [
      | inl here ↦
          inl (ground (arith, eq_iff key other), ground (arith, get-set key other p s.cache))
      | inr past ↦ inr (entry, ground (arith, get-set key other p s.cache), same)
    ]

-- A read takes `took`; a write uses the configured time to live.
abbrev pub local_cache : ℕ → KongCache (Store ConsumerSecret)
local_cache took = record {
  read = λ now key s. get took now key s;
  write = λ now key v s. set now key v none s;
  Holds = LocalHolds;
  read_held = λ now key s v e. local_read_held took now key s v e;
  held_before_read = λ now key other s v h. local_held_before_read took now key other s v h;
  held_after_write = λ now key other s w v h. local_held_after_write now key other s w v h;
}
