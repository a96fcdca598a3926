-- ===== src/Memory/Store.antt =====
-- The state and the operations of `LocalMemoryCache`. `now` is what `Date.now()` gives in the call and
-- `took` the difference of the two readings of `performance.now()`.
use authentication_v.Base.{
  ℕ, ◌+◌, ◌*◌, Option, none, some, String, [], ◌∷◌, ltb, ◌==◌, if◌then◌else◌,
}
use authentication_v.Base.Dict.{Dict, get as lookup, set as insert, delete as remove, size}
use authentication_v.Base.Evict.{evict_oldest}

-- `GenericCacheEntry`; `content` is its field `data`.
pub record Entry (V : Type 0) : Type 0 where
  pub content : V
  pub expires : ℕ
  pub created_at : ℕ

-- The fields of the class; `hits` to `operations` are those of `stats`, `ttl_seconds` and
-- `max_entries` those of `config`.
pub record Store (V : Type 0) : Type 0 where
  pub cache : Dict (Entry V)
  pub stale_cache : Dict (Entry V)
  pub hits : ℕ
  pub misses : ℕ
  pub total_latency : ℕ
  pub operations : ℕ
  pub ttl_seconds : ℕ
  pub max_entries : ℕ

-- `ttlSeconds || this.config.ttlSeconds`
abbrev pub ttl_of : Option ℕ → ℕ → ℕ
ttl_of none standard = standard
ttl_of (some ttl) standard = if ttl == 0 then standard else ttl

module _ {V : Type 0} where
  -- The constructor.
  abbrev pub new : ℕ → ℕ → Store V
  new ttl_seconds max_entries = record {
    cache = [];
    stale_cache = [];
    hits = 0;
    misses = 0;
    total_latency = 0;
    operations = 0;
    ttl_seconds = ttl_seconds;
    max_entries = max_entries;
  }

  abbrev pub record_hit : ℕ → Store V → Store V
  record_hit took s = record s {
    hits = s.hits + 1;
    total_latency = s.total_latency + took;
    operations = s.operations + 1;
  }

  abbrev pub record_miss : ℕ → Store V → Store V
  record_miss took s = record s {
    misses = s.misses + 1;
    total_latency = s.total_latency + took;
    operations = s.operations + 1;
  }

  read_entry : ℕ → ℕ → String → Option (Entry V) → Store V → Store V × Option V
  read_entry took now key none s = (record_miss took s, none)
  read_entry took now key (some e) s =
      if ltb now e.expires
      then (record_hit took s, some e.content)
      else (record_miss took (record s { cache = remove key s.cache }), none)

  unfoldable pub get : ℕ → ℕ → String → Store V → Store V × Option V
  unfolding read_entry
  get took now key s = read_entry took now key (lookup key s.cache) s

  read_stale_entry : ℕ → ℕ → String → Option (Entry V) → Store V → Store V × Option V
  read_stale_entry took now key none s = (record_miss took s, none)
  read_stale_entry took now key (some e) s =
      if ltb now e.expires
      then (record_hit took s, some e.content)
      else (record_miss took (record s { stale_cache = remove key s.stale_cache }), none)

  unfoldable pub get_stale : ℕ → ℕ → String → Store V → Store V × Option V
  unfolding read_stale_entry
  get_stale took now key s = read_stale_entry took now key (lookup key s.stale_cache) s

  -- `enforceMaxEntries`
  unfoldable pub enforce_max_entries : Store V → Store V
  enforce_max_entries s = record s {
    cache = evict_oldest (λ e. e.created_at) s.max_entries s.cache;
    stale_cache = evict_oldest (λ e. e.created_at) (s.max_entries * 2) s.stale_cache;
  }

  abbrev pub primary_entry : ℕ → V → ℕ → Entry V
  primary_entry now v ttl = record { content = v; expires = now + ttl * 1000; created_at = now }

  abbrev pub stale_entry : ℕ → V → ℕ → Entry V
  stale_entry now v ttl = record { content = v; expires = now + ttl * 1000 * 24; created_at = now }

  unfoldable pub set : ℕ → String → V → Option ℕ → Store V → Store V
  unfolding enforce_max_entries
  set now key v ttl_seconds s =
      let ttl = ttl_of ttl_seconds s.ttl_seconds in
      enforce_max_entries (record s {
        cache = insert key (primary_entry now v ttl) s.cache;
        stale_cache = insert key (stale_entry now v ttl) s.stale_cache;
      })

  unfoldable pub set_stale : ℕ → String → V → Option ℕ → Store V → Store V
  set_stale now key v ttl_seconds s = record s {
    stale_cache = insert key (stale_entry now v (ttl_of ttl_seconds s.ttl_seconds)) s.stale_cache;
  }

  unfoldable pub delete : String → Store V → Store V
  delete key s = record s { cache = remove key s.cache }

  unfoldable pub clear : Store V → Store V
  clear s = record s { cache = [] }

  unfoldable pub clear_stale : Store V → Store V
  clear_stale s = record s { stale_cache = [] }

  -- The loop of `getStats` over the entries `es` of the map `m`: it deletes what has expired and counts
  -- the rest.
  unfoldable pub sweep : ℕ → Dict (Entry V) → Dict (Entry V) → Dict (Entry V) × ℕ
  sweep now [] m = (m, 0)
  sweep now ((k, e) ∷ es) m =
      let is_active = ltb now e.expires in
      let (swept, active) = sweep now es (if is_active then m else remove k m) in
      (swept, if is_active then active + 1 else active)

-- The counts and the keys of `KongCacheStats`.
pub record StoreStats : Type 0 where
  pub entries : ℕ
  pub active_entries : ℕ
  pub stale_entries : ℕ

module _ {V : Type 0} where
  unfoldable pub get_stats : ℕ → Store V → Store V × StoreStats
  unfolding sweep
  get_stats now s =
      let primary = sweep now s.cache s.cache in
      let stale = sweep now s.stale_cache s.stale_cache in
      (
        record s { cache = primary.0; stale_cache = stale.0 },
        record { entries = size primary.0; active_entries = primary.1; stale_entries = stale.1 },
      )
