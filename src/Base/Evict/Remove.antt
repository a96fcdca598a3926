-- ===== src/Base/Evict/Remove.antt =====
-- The deletion of a list of entries from a map, and the first entries of a map.
use Prim.Native.Nat.{ℕ, zero, suc, ◌+◌}
use Prim.Native.String.{String}
use text.Mathlib.TextEquality.{eq_iff}
use text.Mathlib.TextPositions.{eq_refl}
use mathlib.Core.Path.{◌≡◌, refl}
use mathlib.Core.Logic.{inl, inr}
use mathlib.Core.Bool.{true}
use mathlib.Core.Option.{none}
use mathlib.Core.List.{[], ◌∷◌}
use native.Mathlib.Omega.{arith}
use authentication_v.Base.Tests.{if◌then◌else◌, Option-cases}
use authentication_v.Base.Lists.{length, take}
use authentication_v.Base.Dict.{
  Dict, get, delete, has, size, HasDistinctKeys, get-delete, size-delete, delete-HasDistinctKeys,
}

-- The loop over the entries to remove.
unfoldable pub delete_all {ℓ κ} : {W : Type ℓ} {V : Type κ} → Dict W → Dict V → Dict V
delete_all [] m = m
delete_all ((k, v) ∷ ks) m = delete_all ks (delete k m)

-- Every key of the first is a key of the second.
abbrev pub HasKeysOf {ℓ κ} : {W : Type ℓ} {V : Type κ} → Dict W → Dict V → Type 0
HasKeysOf [] m = Unit
HasKeysOf ((k, v) ∷ ks) m = (has k m ≡ true) × HasKeysOf ks m

module _ {ℓ} {V : Type ℓ} where
  keys_delete :
      (k : String) (ks m : Dict V) → get k ks ≡ none → HasKeysOf ks m → HasKeysOf ks (delete k m)
  unfolding get
  keys_delete k [] m h s = tt
  keys_delete k ((j, w) ∷ ks) m h s =
      ground (arith, eq_iff j k, eq_iff k j, get-delete k j m, keys_delete k ks m)

  pub delete_all-HasDistinctKeys :
      (ks m : Dict V) → HasDistinctKeys m → HasDistinctKeys (delete_all ks m)
  unfolding delete_all
  delete_all-HasDistinctKeys [] m d = d
  delete_all-HasDistinctKeys ((k, v) ∷ ks) m d =
      delete_all-HasDistinctKeys ks (delete k m) (delete-HasDistinctKeys k m d)

  pub size-delete_all :
      (ks m : Dict V)
      → HasDistinctKeys ks
      → HasDistinctKeys m
      → HasKeysOf ks m
      → size (delete_all ks m) + length ks ≡ size m
  unfolding delete_all
  size-delete_all [] m dk d s = omega arith
  size-delete_all ((k, v) ∷ ks) m dk d s = ground (
    arith,
    size-delete k m d,
    size-delete_all ks (delete k m) dk.1 (delete-HasDistinctKeys k m d)
        (keys_delete k ks m dk.0 s.1),
  )

  pub get-delete_all :
      (q : String) (ks m : Dict V) → get q (delete_all ks m) ≡ (if has q ks then none else get q m)
  unfolding get delete_all
  get-delete_all q [] m = refl
  get-delete_all q ((k, v) ∷ ks) m =
      ground (arith, eq_iff k q, get-delete k q m, get-delete_all q ks (delete k m))

  pub get-take : (q : String) (n : ℕ) (m : Dict V) → get q m ≡ none → get q (take n m) ≡ none
  unfolding get
  get-take q zero m h = refl
  get-take q (suc n) [] h = refl
  get-take q (suc n) ((k, v) ∷ m) h = ground (arith, get-take q n m)

  pub take-HasDistinctKeys : (n : ℕ) (m : Dict V) → HasDistinctKeys m → HasDistinctKeys (take n m)
  take-HasDistinctKeys zero m d = tt
  take-HasDistinctKeys (suc n) [] d = tt
  take-HasDistinctKeys (suc n) ((k, v) ∷ m) d = (get-take k n m d.0, take-HasDistinctKeys n m d.1)

  pub keys_of : (ks m : Dict V) → ((q : String) → has q ks ≡ true → has q m ≡ true) → HasKeysOf ks m
  unfolding get
  keys_of [] m h = tt
  keys_of ((k, v) ∷ ks) m h =
      (h k (ground (arith, eq_refl k)), keys_of ks m (λ q e. h q (ground (arith, eq_iff k q))))

  pub has-take : (q : String) (n : ℕ) (m : Dict V) → has q (take n m) ≡ true → has q m ≡ true
  has-take q n m h = elim (Option-cases (get q m)) [
    | inl gone ↦ absurd (ground (arith, get-take q n m gone))
    | inr (v, found) ↦ rw found
  ]
