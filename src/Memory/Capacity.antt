-- ===== src/Memory/Capacity.antt =====
-- The bound on what the cache holds.
use authentication_v.Base.{
  ℕ, ◌+◌, ◌*◌, ◌≤◌, ◌≡◌, refl, Option, String, List, [], ◌∷◌, arith, subst, sym, ◌⊎◌, ltb, inl, inr,
  Bool-cases,
}
use authentication_v.Base.Dict.{
  HasDistinctKeys, size, set as insert, set-HasDistinctKeys, delete-HasDistinctKeys, size-delete-le,
  Dict, delete as remove,
}
use authentication_v.Base.Evict.{size-evict_oldest, evict_oldest-HasDistinctKeys}
use authentication_v.Memory.Store.{
  Entry, Store, ttl_of, primary_entry, stale_entry, get, get_stale, set, set_stale, delete, clear,
  clear_stale, sweep, get_stats,
}

-- The calls that change the store. Those of `get` and `getStale` carry the time that they took.
pub data Call (V : Type 0) : Type 0 where
  call_get : ℕ → String → Call V
  call_get_stale : ℕ → String → Call V
  call_set : String → V → Option ℕ → Call V
  call_set_stale : String → V → Option ℕ → Call V
  call_delete : String → Call V
  call_clear : Call V
  call_clear_stale : Call V
  call_get_stats : Call V

module _ {V : Type 0} where
  unfoldable pub step : ℕ → Call V → Store V → Store V
  step now (call_get took key) s = (get took now key s).0
  step now (call_get_stale took key) s = (get_stale took now key s).0
  step now (call_set key v ttl) s = set now key v ttl s
  step now (call_set_stale key v ttl) s = set_stale now key v ttl s
  step now (call_delete key) s = delete key s
  step now call_clear s = clear s
  step now call_clear_stale s = clear_stale s
  step now call_get_stats s = (get_stats now s).0

  -- The calls in order, each at its instant.
  unfoldable pub run : List (ℕ × Call V) → Store V → Store V
  unfolding step
  run [] s = s
  run ((now, c) ∷ cs) s = run cs (step now c s)

  -- How many of the calls read.
  unfoldable pub reads : List (ℕ × Call V) → ℕ
  reads [] = 0
  reads ((now, call_get took key) ∷ cs) = reads cs + 1
  reads ((now, call_get_stale took key) ∷ cs) = reads cs + 1
  reads ((now, call_set key v ttl) ∷ cs) = reads cs
  reads ((now, call_set_stale key v ttl) ∷ cs) = reads cs
  reads ((now, call_delete key) ∷ cs) = reads cs
  reads ((now, call_clear) ∷ cs) = reads cs
  reads ((now, call_clear_stale) ∷ cs) = reads cs
  reads ((now, call_get_stats) ∷ cs) = reads cs

-- The maps have no key twice, and the primary one is within its limit.
pub record IsBounded {V : Type 0} (s : Store V) : Type 0 where
  pub distinct : HasDistinctKeys s.cache
  pub stale_distinct : HasDistinctKeys s.stale_cache
  pub bounded : size s.cache ≤ s.max_entries

module _ {V : Type 0} where
  sweep-HasDistinctKeys :
      (now : ℕ) (es m : Dict (Entry V)) → HasDistinctKeys m → HasDistinctKeys (sweep now es m).0
  unfolding sweep
  sweep-HasDistinctKeys now [] m d = d
  sweep-HasDistinctKeys now ((k, e) ∷ es) m d = elim (Bool-cases (ltb now e.expires)) [
    | inl live ↦ rw live (sweep-HasDistinctKeys now es m d)
    | inr dead ↦ rw dead (sweep-HasDistinctKeys now es (remove k m) (delete-HasDistinctKeys k m d))
  ]

  size-sweep-le : (now : ℕ) (es m : Dict (Entry V)) → size (sweep now es m).0 ≤ size m
  unfolding sweep
  size-sweep-le now [] m = omega arith
  size-sweep-le now ((k, e) ∷ es) m = elim (Bool-cases (ltb now e.expires)) [
    | inl live ↦ rw live (size-sweep-le now es m)
    | inr dead ↦ rw dead (omega (arith, size-sweep-le now es (remove k m), size-delete-le k m))
  ]

  get_maps :
      (took now : ℕ) (key : String) (s : Store V)
      → let s' = (get took now key s).0 in
        ((s'.cache ≡ s.cache) ⊎ (s'.cache ≡ remove key s.cache))
        × (s'.stale_cache ≡ s.stale_cache)
        × (s'.max_entries ≡ s.max_entries)
  unfolding get
  get_maps took now key s = (ground arith, ground arith, ground arith)

  get_stale_maps :
      (took now : ℕ) (key : String) (s : Store V)
      → let s' = (get_stale took now key s).0 in
        ((s'.stale_cache ≡ s.stale_cache) ⊎ (s'.stale_cache ≡ remove key s.stale_cache))
        × (s'.cache ≡ s.cache)
        × (s'.max_entries ≡ s.max_entries)
  unfolding get_stale
  get_stale_maps took now key s = (ground arith, ground arith, ground arith)

  -- A step that leaves or thins the maps keeps the bound.
  thin_keeps :
      (s s' : Store V) (key : String)
      → IsBounded s
      → (s'.cache ≡ s.cache) ⊎ (s'.cache ≡ remove key s.cache)
      → (s'.stale_cache ≡ s.stale_cache) ⊎ (s'.stale_cache ≡ remove key s.stale_cache)
      → s'.max_entries ≡ s.max_entries
      → IsBounded s'
  thin_keeps s s' key h c t e = record {
    distinct = elim c [
      | inl same ↦ subst HasDistinctKeys (sym same) h.distinct
      | inr less ↦ subst HasDistinctKeys (sym less) (delete-HasDistinctKeys key s.cache h.distinct)
    ];
    stale_distinct = elim t [
      | inl same ↦ subst HasDistinctKeys (sym same) h.stale_distinct
      | inr less ↦
          subst HasDistinctKeys (sym less)
            (delete-HasDistinctKeys key s.stale_cache h.stale_distinct)
    ];
    bounded = elim c [
      | inl same ↦ rw (same, e) h.bounded
      | inr less ↦ rw (less, e) (omega (arith, size-delete-le key s.cache, h.bounded))
    ];
  }

  set_keeps :
      (now : ℕ) (key : String) (v : V) (ttl : Option ℕ) (s : Store V)
      → IsBounded s
      → IsBounded (set now key v ttl s)
  unfolding set
  set_keeps now key v ttl s h =
      let e = primary_entry now v (ttl_of ttl s.ttl_seconds) in
      let t = stale_entry now v (ttl_of ttl s.ttl_seconds) in
      let by_age = λ (e : Entry V). e.created_at in
      let d = set-HasDistinctKeys key e s.cache h.distinct in
      record {
        distinct = evict_oldest-HasDistinctKeys by_age s.max_entries (insert key e s.cache) d;
        stale_distinct =
            evict_oldest-HasDistinctKeys by_age (s.max_entries * 2) (insert key t s.stale_cache)
              (set-HasDistinctKeys key t s.stale_cache h.stale_distinct);
        bounded = omega (arith, size-evict_oldest by_age s.max_entries (insert key e s.cache) d);
      }

  stats_keeps : (now : ℕ) (s : Store V) → IsBounded s → IsBounded (get_stats now s).0
  unfolding get_stats
  stats_keeps now s h = record {
    distinct = sweep-HasDistinctKeys now s.cache s.cache h.distinct;
    stale_distinct = sweep-HasDistinctKeys now s.stale_cache s.stale_cache h.stale_distinct;
    bounded = omega (arith, size-sweep-le now s.cache s.cache, h.bounded);
  }

  step-IsBounded : (now : ℕ) (c : Call V) (s : Store V) → IsBounded s → IsBounded (step now c s)
  unfolding step delete clear clear_stale set_stale
  step-IsBounded now (call_get took key) s h =
      let (c, t, e) = get_maps took now key s in thin_keeps s _ key h c (inl t) e
  step-IsBounded now (call_get_stale took key) s h =
      let (t, c, e) = get_stale_maps took now key s in thin_keeps s _ key h (inl c) t e
  step-IsBounded now (call_set key v ttl) s h = set_keeps now key v ttl s h
  step-IsBounded now (call_set_stale key v ttl) s h = record {
    distinct = h.distinct;
    stale_distinct =
        set-HasDistinctKeys key (stale_entry now v (ttl_of ttl s.ttl_seconds)) s.stale_cache
          h.stale_distinct;
    bounded = h.bounded;
  }
  step-IsBounded now (call_delete key) s h = thin_keeps s _ key h (inr refl) (inl refl) refl
  step-IsBounded now call_clear s h = record {
    distinct = tt;
    stale_distinct = h.stale_distinct;
    bounded = omega arith;
  }
  step-IsBounded now call_clear_stale s h = record {
    distinct = h.distinct;
    stale_distinct = tt;
    bounded = h.bounded;
  }
  step-IsBounded now call_get_stats s h = stats_keeps now s h

-- Whatever calls the cache receives, at whatever instants, no key stands twice in either map and
-- the primary map holds at most `maxEntries` entries, when this holds at the start.
pub run-IsBounded :
    {V : Type 0} (cs : List (ℕ × Call V)) (s : Store V) → IsBounded s → IsBounded (run cs s)
unfolding run
run-IsBounded [] s h = h
run-IsBounded ((now, c) ∷ cs) s h = run-IsBounded cs (step now c s) (step-IsBounded now c s h)

module _ {V : Type 0} where
  -- `set` brings the stale map back to twice the limit, also where `setStale` has let it grow.
  stale_size-set :
      (now : ℕ) (key : String) (v : V) (ttl : Option ℕ) (s : Store V)
      → IsBounded s
      → size (set now key v ttl s).stale_cache ≤ s.max_entries * 2
  unfolding set
  stale_size-set now key v ttl s h =
      let t = stale_entry now v (ttl_of ttl s.ttl_seconds) in
      omega (
        arith,
        size-evict_oldest (λ (e : Entry V). e.created_at) (s.max_entries * 2)
            (insert key t s.stale_cache) (set-HasDistinctKeys key t s.stale_cache h.stale_distinct),
      )

  step_counts :
      (now : ℕ) (c : Call V) (s : Store V)
      → let s' = step now c s in
        (s'.hits + s'.misses + s.operations ≡ s.hits + s.misses + s'.operations)
        × (s'.operations ≡ s.operations + reads ((now, c) ∷ []))
  unfolding step get get_stale set set_stale delete clear clear_stale get_stats reads
  step_counts now (call_get took key) s = (ground arith, ground arith)
  step_counts now (call_get_stale took key) s = (ground arith, ground arith)
  step_counts now (call_set key v ttl) s = (omega arith, omega arith)
  step_counts now (call_set_stale key v ttl) s = (omega arith, omega arith)
  step_counts now (call_delete key) s = (omega arith, omega arith)
  step_counts now call_clear s = (omega arith, omega arith)
  step_counts now call_clear_stale s = (omega arith, omega arith)
  step_counts now call_get_stats s = (omega arith, omega arith)

  reads_cons :
      (now : ℕ) (c : Call V) (cs : List (ℕ × Call V))
      → reads ((now, c) ∷ cs) ≡ reads ((now, c) ∷ []) + reads cs
  unfolding reads
  reads_cons now (call_get took key) cs = omega arith
  reads_cons now (call_get_stale took key) cs = omega arith
  reads_cons now (call_set key v ttl) cs = omega arith
  reads_cons now (call_set_stale key v ttl) cs = omega arith
  reads_cons now (call_delete key) cs = omega arith
  reads_cons now call_clear cs = omega arith
  reads_cons now call_clear_stale cs = omega arith
  reads_cons now call_get_stats cs = omega arith

-- Every read is counted once, as a hit or as a miss, and nothing else is: after any calls, hits and
-- misses sum to `operations` when they did before, and `operations` has grown by the number of
-- calls of `get` and `getStale`.
pub run-counts_reads :
    {V : Type 0} (cs : List (ℕ × Call V)) (s : Store V)
    → s.hits + s.misses ≡ s.operations
    → ((run cs s).hits + (run cs s).misses ≡ (run cs s).operations)
      × ((run cs s).operations ≡ s.operations + reads cs)
unfolding run reads
run-counts_reads [] s h = (h, omega arith)
run-counts_reads ((now, c) ∷ cs) s h =
    let (sum, count) = step_counts now c s in
    let rest = run-counts_reads cs (step now c s) (omega arith) in
    (rest.0, omega (arith, rest.1, count, reads_cons now c cs))
