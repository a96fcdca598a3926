-- ===== src/Base/Evict.antt =====
-- Eviction of the oldest entries of a `Map`, as the caches write it:
-- `Array.from(m.entries()).sort((a, b) => a.stamp - b.stamp).slice(0, n)`, and each of those deleted.
mod Sort
mod Remove
use Prim.Native.Nat.{ℕ, zero, suc, ◌+◌, ◌-◌, ◌≤◌, ◌<◌, min}
use Prim.Native.String.{String}
use text.Mathlib.Text.{◌==◌ as str_eq}
use text.Mathlib.TextEquality.{eq_iff}
use text.Mathlib.TextPositions.{eq_refl}
use mathlib.Core.Path.{◌≡◌, refl, sym, ap, ◌∙◌}
use mathlib.Core.Logic.{inl, inr}
use mathlib.Core.Bool.{true, false}
use mathlib.Core.Option.{none, some}
use mathlib.Core.List.{[], ◌∷◌}
use native.Mathlib.Omega.{arith}
use authentication_v.Base.Tests.{
  leb, ltb, leb→le, ltb→lt, if◌then◌else◌, is_some, Bool-cases, Option-cases,
}
use authentication_v.Base.Lists.{length, take, push, length-take, take-push, All}
use authentication_v.Base.Dict.{
  Dict, get, set, delete, has, size, HasDistinctKeys, get-delete, get-set_self, size-set,
  size-delete, delete-HasDistinctKeys,
}
use Sort.{
  sort_by_stamp, length-sort, get-sort, sort-HasDistinctKeys, IsAscending, sort-IsAscending,
  sort-set_newest,
}
use Remove.{
  delete_all, HasKeysOf, delete_all-HasDistinctKeys, size-delete_all, get-delete_all, get-take,
  take-HasDistinctKeys, keys_of, has-take,
}

-- Back to `limit` entries, where there are more.
unfoldable pub evict_oldest {ℓ} : {V : Type ℓ} → (V → ℕ) → ℕ → Dict V → Dict V
unfolding sort_by_stamp delete_all
evict_oldest stamp limit m =
    if ltb limit (size m) then delete_all (take (size m - limit) (sort_by_stamp stamp m)) m else m

module _ {ℓ} {V : Type ℓ} (stamp : V → ℕ) where
  oldest_keys :
      (n : ℕ) (m : Dict V) → HasDistinctKeys m → HasKeysOf (take n (sort_by_stamp stamp m)) m
  oldest_keys n m d =
      keys_of (take n (sort_by_stamp stamp m)) m
        (λ q h. ap is_some (sym (get-sort stamp q m d)) ∙ has-take q n (sort_by_stamp stamp m) h)

  pub size-evict_oldest :
      (limit : ℕ) (m : Dict V)
      → HasDistinctKeys m
      → size (evict_oldest stamp limit m) ≡ min limit (size m)
  unfolding evict_oldest
  size-evict_oldest limit m d =
      let n = size m - limit in
      let sorted = sort_by_stamp stamp m in
      let kept =
        size-delete_all (take n sorted) m
          (take-HasDistinctKeys n sorted (sort-HasDistinctKeys stamp m d)) d (oldest_keys n m d) in
      let cut = length-take n sorted in
      let whole = length-sort stamp m in
      elim (Bool-cases (ltb limit (size m))) [
        | inl over ↦ rw over (omega (arith, ltb→lt _ _ over))
        | inr under ↦ rw under (let le : size m ≤ limit = ground arith in omega arith)
      ]

  pub evict_oldest-HasDistinctKeys :
      (limit : ℕ) (m : Dict V) → HasDistinctKeys m → HasDistinctKeys (evict_oldest stamp limit m)
  unfolding evict_oldest
  evict_oldest-HasDistinctKeys limit m d = elim (Bool-cases (ltb limit (size m))) [
    | inl over ↦
        rw over (delete_all-HasDistinctKeys (take (size m - limit) (sort_by_stamp stamp m)) m d)
    | inr under ↦ rw under d
  ]

  -- What is left is as it was.
  pub get-evict_oldest :
      (q : String) (limit : ℕ) (m : Dict V) {v : V}
      → get q (evict_oldest stamp limit m) ≡ some v
      → get q m ≡ some v
  unfolding evict_oldest
  get-evict_oldest q limit m h =
      ground (arith, get-delete_all q (take (size m - limit) (sort_by_stamp stamp m)) m)

  All-get :
      (n : ℕ) (j : String) (w : V) (m : Dict V)
      → All (λ e. n ≤ stamp e.1) m
      → get j m ≡ some w
      → n ≤ stamp w
  unfolding get
  All-get n j w [] a h = absurd (ground arith)
  All-get n j w ((i, u) ∷ m) a h = ground (arith, All-get n j w m)

  take_oldest :
      (n : ℕ) (m : Dict V) (k j : String) (v w : V)
      → IsAscending stamp m
      → get k m ≡ some v
      → has k (take n m) ≡ true
      → get j m ≡ some w
      → has j (take n m) ≡ false
      → stamp v ≤ stamp w
  unfolding get
  take_oldest zero m k j v w a hk tk hj tj = absurd (ground arith)
  take_oldest (suc n) [] k j v w a hk tk hj tj = absurd (ground arith)
  take_oldest (suc n) ((i, u) ∷ m) k j v w a hk tk hj tj =
      ground (arith, eq_iff i k, eq_iff i j, All-get (stamp u) j w m, take_oldest n m k j v w a.1)

  -- Nothing that is evicted is younger than anything that is left.
  pub evicts_oldest :
      (limit : ℕ) (m : Dict V) (k j : String) {v w : V}
      → HasDistinctKeys m
      → get k m ≡ some v
      → get k (evict_oldest stamp limit m) ≡ none
      → get j (evict_oldest stamp limit m) ≡ some w
      → stamp v ≤ stamp w
  unfolding evict_oldest
  evicts_oldest limit m k j {v} {w} d hk gone left =
      let n = size m - limit in
      let sorted = sort_by_stamp stamp m in
      let hj = get-evict_oldest j limit m left in
      elim (Bool-cases (ltb limit (size m))) [
        | inl over ↦
            let out : get k (delete_all (take n sorted) m) ≡ none = ground arith in
            let stays : get j (delete_all (take n sorted) m) ≡ some w = ground arith in
            take_oldest n sorted k j v w (sort-IsAscending stamp m) (get-sort stamp k m d ∙ hk)
              (ground (arith, get-delete_all k (take n sorted) m)) (get-sort stamp j m d ∙ hj)
              (ground (arith, get-delete_all j (take n sorted) m))
        | inr under ↦ absurd (ground arith)
      ]

  -- An entry that is set with a stamp no other exceeds is still there after an eviction.
  pub newest_survives :
      (limit : ℕ) (k : String) (v : V) (m : Dict V)
      → HasDistinctKeys m
      → size m ≤ limit
      → 0 < limit
      → All (λ e. stamp e.1 ≤ stamp v) m
      → get k (evict_oldest stamp limit (set k v m)) ≡ some v
  unfolding evict_oldest
  newest_survives limit k v m d fits room a =
      let counted = size-set k v m in
      elim (Option-cases (get k m)) [
        | inr (w, found) ↦
            let same : size (set k v m) ≤ limit = ground arith in ground (arith, get-set_self k v m)
        | inl fresh ↦
            let n = size (set k v m) - limit in
            let cut : get k (take n (sort_by_stamp stamp (set k v m))) ≡ none =
              rw (sort-set_newest stamp k v m fresh a) (
                ap (get k) (
                  take-push n (sort_by_stamp stamp m) (k, v)
                    (newest_cut limit k v m fresh fits room))
                ∙ get-take k n (sort_by_stamp stamp m) (get-sort stamp k m d ∙ fresh)) in
            ground (
              arith,
              get-set_self k v m,
              get-delete_all k (take n (sort_by_stamp stamp (set k v m))) (set k v m),
            )
      ]
    where
      newest_cut :
          (limit : ℕ) (k : String) (v : V) (m : Dict V)
          → get k m ≡ none
          → size m ≤ limit
          → 0 < limit
          → size (set k v m) - limit ≤ length (sort_by_stamp stamp m)
      newest_cut limit k v m fresh fits room =
          let counted = size-set k v m in let whole = length-sort stamp m in ground arith
