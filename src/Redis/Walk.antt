-- ===== src/Redis/Walk.antt =====
-- Which scans `collectAll` of src/services/cache/cache-scan-iterator.ts completes, and with which keys.
use authentication_v.Base.{
  ℕ, zero, suc, ◌+◌, ◌≡◌, ◌≢◌, ◌⊎◌, ◌↔◌, inl, inr, refl, ap, sym, ◌∙◌, subst, false, none, String,
  List, [], ◌∷◌, ◌++◌, arith, ◌==◌, if◌then◌else◌, Bool-cases,
}
use mathlib.Core.List.{append_assoc}
use authentication_v.Redis.Timeout.{Settled, fulfilled, failed}
use authentication_v.Redis.Scan.{
  ScanConfig, ScanResult, Collected, is_empty, scan_with_retry, collect_page, collect, collect_all,
}

module _ {R : Type 0} (scan : ℕ → String → R → R × Settled ScanResult) (config : ScanConfig)
    (pattern : String) where
  -- At most `n` pages lead from the cursor to the cursor 0, each found within the retries: their keys one
  -- after another, and the server that is left.
  unfoldable pub IsWalk : ℕ → ℕ → R → List String → R → Type 0
  IsWalk zero cursor r keys end = ⊥
  IsWalk (suc n) cursor r keys end =
      (r' : R) × (page : ScanResult) × (scan_with_retry scan config.retries_per_scan cursor pattern
          r
        ≡ (r', fulfilled page))
      × (((page.cursor ≡ 0) × (keys ≡ page.keys) × (end ≡ r'))
          ⊎ ((rest : List String) × (page.cursor ≢ 0)
              × (keys ≡ page.keys ++ rest)
              × IsWalk n page.cursor r' rest end))

  -- A result with no error, with its keys and the server that is left.
  abbrev pub Completes : Collected R → List String → R → Type 0
  Completes c keys end = (c.error ≡ none) × (c.keys ≡ keys) × (c.server ≡ end)

  append_nil : (l : List String) → l ++ [] ≡ l
  append_nil [] = refl
  append_nil (x ∷ l) = ap (λ (m : List String). x ∷ m) (append_nil l)

  walk-Completes :
      (n cursor : ℕ) (acc : List String) (batches : ℕ) (r : R) (keys : List String) (end : R)
      → IsWalk n cursor r keys end
      → Completes (collect scan config pattern n cursor acc batches r) (acc ++ keys) end
  unfolding IsWalk collect
  walk-Completes zero cursor acc batches r keys end w = elim w [ ]
  walk-Completes (suc n) cursor acc batches r keys end (r', page, e, inl (stop, same, last)) =
      rw (e, stop) (refl, ap (λ (l : List String). acc ++ l) (sym same), sym last)
  walk-Completes (suc n) cursor acc batches r keys end (r', page, e, inr (rest, go, same, w)) =
      let counted = if is_empty page.keys then batches else batches + 1 in
      let later = walk-Completes n page.cursor (acc ++ page.keys) counted r' rest end w in
      let moves : (page.cursor == 0) ≡ false = ground (arith, go) in
      rw (e, moves)
        (
          later.0,
          later.1 ∙ append_assoc acc page.keys rest ∙ ap (λ (l : List String). acc ++ l) (sym same),
          later.2,
        )

  -- The keys past those that were there, which a walk of at most `n` pages finds.
  Found : ℕ → ℕ → List String → R → List String → R → Type 0
  Found n cursor acc r all end =
      (keys : List String) × IsWalk n cursor r keys end × (all ≡ acc ++ keys)

  page-Found :
      (n cursor : ℕ) (acc : List String) (batches : ℕ) (r : R) (o : R × Settled ScanResult)
      (all : List String) (end : R)
      → ((c : ℕ) (a : List String) (b : ℕ) (s : R)
          → Completes (collect scan config pattern n c a b s) all end
          → Found n c a s all end)
      → scan_with_retry scan config.retries_per_scan cursor pattern r ≡ o
      → Completes (collect_page scan (collect scan config pattern n) acc batches o) all end
      → Found (suc n) cursor acc r all end
  unfolding Found IsWalk
  page-Found n cursor acc batches r (r', failed message) all end ih e done = absurd (cc done.0)
  page-Found n cursor acc batches r (r', fulfilled page) all end ih e done =
      let counted = if is_empty page.keys then batches else batches + 1 in
      elim (Bool-cases (page.cursor == 0)) [
        | inl stop ↦ (
          page.keys,
          (r', page, e, inl (ground (arith, stop), refl, ground (arith, done.2, stop))),
          ground (arith, done.1, stop),
        )
        | inr go ↦
            let more : Completes
                (collect scan config pattern n page.cursor (acc ++ page.keys) counted r') all end =
              (
                ground (arith, done.0, go),
                ground (arith, done.1, go),
                ground (arith, done.2, go),
              ) in
            let (rest, w, same) = ih page.cursor (acc ++ page.keys) counted r' more in
            (
              page.keys ++ rest,
              (r', page, e, inr (rest, ground (arith, go), refl, w)),
              same ∙ append_assoc acc page.keys rest,
            )
      ]

  collect-Found :
      (n cursor : ℕ) (acc : List String) (batches : ℕ) (r : R) (all : List String) (end : R)
      → Completes (collect scan config pattern n cursor acc batches r) all end
      → Found n cursor acc r all end
  unfolding collect
  collect-Found zero cursor acc batches r all end done = absurd (cc done.0)
  collect-Found (suc n) cursor acc batches r all end done =
      page-Found n cursor acc batches r
        (scan_with_retry scan config.retries_per_scan cursor pattern r) all end
        (λ c a b s d. collect-Found n c a b s all end d) refl done

  -- The scan is completed, with given keys and a given server left, exactly when a walk of at most
  -- `maxIterations` pages leads from the cursor 0 back to it, whose keys, page after page, are the keys, and
  -- which leaves that server.
  pub collect_all_iff :
      (r : R) (keys : List String) (end : R)
      → Completes (collect_all scan config pattern r) keys end
        ↔ IsWalk config.max_iterations 0 r keys end
  unfolding collect_all Found
  collect_all_iff r keys end = (
    λ done.
        let (found, w, same) = collect-Found config.max_iterations 0 [] 0 r keys end done in
        subst (λ (l : List String). IsWalk config.max_iterations 0 r l end) (sym same) w,
    λ w. walk-Completes config.max_iterations 0 [] 0 r keys end w,
  )
