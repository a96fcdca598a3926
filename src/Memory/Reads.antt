-- ===== src/Memory/Reads.antt =====
-- What a read returns after a write.
use authentication_v.Base.{
  ℕ, ◌+◌, ◌*◌, ◌≤◌, ◌<◌, ◌≡◌, false, Option, none, some, String, arith, All, ltb, if◌then◌else◌,
  ◌∙◌, ap, str_eq, Option-cases, inl, inr,
}
use authentication_v.Base.Dict.{get as lookup, set as insert, get-set as lookup-insert}
use authentication_v.Base.Evict.{newest_survives, get-evict_oldest}
use authentication_v.Memory.Store.{Entry, Store, ttl_of, primary_entry, get, get_stale, set}
use authentication_v.Memory.Capacity.{IsBounded}

-- What a map gives to a reader at an instant.
abbrev pub live_at : {V : Type 0} → ℕ → Option (Entry V) → Option V
live_at now none = none
live_at now (some e) = if ltb now e.expires then some e.content else none

module _ {V : Type 0} where
  pub get_lem :
      (took now : ℕ) (key : String) (s : Store V)
      → (get took now key s).1 ≡ live_at now (lookup key s.cache)
  unfolding get
  get_lem took now key s = ground arith

  pub get_stale_lem :
      (took now : ℕ) (key : String) (s : Store V)
      → (get_stale took now key s).1 ≡ live_at now (lookup key s.stale_cache)
  unfolding get_stale
  get_stale_lem took now key s = ground arith

  set_kept :
      (now : ℕ) (key : String) (v : V) (ttl : Option ℕ) (s : Store V)
      → IsBounded s
      → 0 < s.max_entries
      → All (λ e. e.1.created_at ≤ now) s.cache
      → lookup key (set now key v ttl s).cache
        ≡ some (primary_entry now v (ttl_of ttl s.ttl_seconds))
  unfolding set
  set_kept now key v ttl s h room old =
      newest_survives (λ (e : Entry V). e.created_at) s.max_entries key
        (primary_entry now v (ttl_of ttl s.ttl_seconds)) s.cache h.distinct h.bounded room old

-- A value that is set is read back until its time to live is over, and not from then on. The store
-- is within its bound and has room for an entry, and no entry is from the future. The time to live
-- is the caller's, or the configured one where the caller gives none or 0.
pub get-set :
    {V : Type 0} (took now now' : ℕ) (key : String) (v : V) (ttl : Option ℕ) (s : Store V)
    → IsBounded s
    → 0 < s.max_entries
    → All (λ e. e.1.created_at ≤ now) s.cache
    → (get took now' key (set now key v ttl s)).1
      ≡ (if ltb now' (now + ttl_of ttl s.ttl_seconds * 1000) then some v else none)
get-set took now now' key v ttl s h room old =
    get_lem took now' key (set now key v ttl s)
    ∙ ap (live_at now') (set_kept now key v ttl s h room old)

module _ {V : Type 0} where
  entry-set_other :
      (now : ℕ) (key other : String) (v : V) (ttl : Option ℕ) (s : Store V) (e : Entry V)
      → str_eq key other ≡ false
      → lookup other (set now key v ttl s).cache ≡ some e
      → lookup other s.cache ≡ some e
  unfolding set
  entry-set_other now key other v ttl s e apart found =
      let p = primary_entry now v (ttl_of ttl s.ttl_seconds) in
      let kept =
        get-evict_oldest (λ (e : Entry V). e.created_at) other s.max_entries (insert key p s.cache)
          found in
      ground (arith, lookup-insert key other p s.cache)

-- Setting a value never makes up another one: a key that is not the one set reads as before or, where
-- its entry was evicted, as absent.
pub get-set_other :
    {V : Type 0} (took now now' : ℕ) (key other : String) (v : V) (ttl : Option ℕ) (s : Store V)
    {w : V}
    → str_eq key other ≡ false
    → (get took now' other (set now key v ttl s)).1 ≡ some w
    → (get took now' other s).1 ≡ some w
get-set_other took now now' key other v ttl s {w} apart h =
    let s' = set now key v ttl s in
    let read' = get_lem took now' other s' in
    let read = get_lem took now' other s in
    elim (Option-cases (lookup other s'.cache)) [
      | inl gone ↦ absurd (ground arith)
      | inr (e, found) ↦
          let same = entry-set_other now key other v ttl s e apart found in ground arith
    ]
