-- ===== src/Base/Dict.antt =====
-- A JavaScript `Map` with text keys: an association list in insertion order. Setting a key that is
-- present keeps its place; deleting a key that is absent changes nothing.
use Prim.Native.Nat.{ℕ, ◌+◌, ◌≤◌}
use Prim.Native.String.{String}
use text.Mathlib.Text.{◌==◌ as str_eq}
use text.Mathlib.TextEquality.{eq_iff}
use text.Mathlib.TextPositions.{eq_refl}
use mathlib.Core.Path.{◌≡◌, refl}
use mathlib.Core.Bool.{Bool, not, ◌&&◌, ◌||◌}
use mathlib.Core.Option.{Option, none, some}
use mathlib.Core.List.{List, [], ◌∷◌}
use native.Mathlib.Omega.{arith}
use authentication_v.Base.Tests.{if◌then◌else◌, is_some}
use authentication_v.Base.Lists.{length}

abbrev pub Dict {ℓ} : Type ℓ → Type ℓ
Dict V = List (String × V)

module _ {ℓ} {V : Type ℓ} where
  -- `m.get(k)`
  unfoldable pub get : String → Dict V → Option V
  get k [] = none
  get k ((j, v) ∷ m) = if str_eq j k then some v else get k m

  -- `m.set(k, v)`
  unfoldable pub set : String → V → Dict V → Dict V
  set k v [] = (k, v) ∷ []
  set k v ((j, w) ∷ m) = if str_eq j k then (k, v) ∷ m else (j, w) ∷ set k v m

  -- `m.delete(k)`
  unfoldable pub delete : String → Dict V → Dict V
  delete k [] = []
  delete k ((j, w) ∷ m) = let rest = delete k m in if str_eq j k then rest else (j, w) ∷ rest

  -- `m.has(k)`
  abbrev pub has : String → Dict V → Bool
  has k m = is_some (get k m)

  -- `m.size`
  abbrev pub size : Dict V → ℕ
  size m = length m

  -- No key stands twice, as in every `Map`.
  abbrev pub HasDistinctKeys : Dict V → Type ℓ
  HasDistinctKeys [] = Unit
  HasDistinctKeys ((k, v) ∷ m) = (get k m ≡ none) × HasDistinctKeys m

  pub get-set :
      (k j : String) (v : V) (m : Dict V)
      → get j (set k v m) ≡ (if str_eq k j then some v else get j m)
  unfolding get set
  get-set k j v [] = refl
  get-set k j v ((i, w) ∷ m) = ground (arith, eq_iff k j, eq_iff i k, eq_iff i j, get-set k j v m)

  pub has-set : (k j : String) (v : V) (m : Dict V) → has j (set k v m) ≡ (str_eq k j || has j m)
  has-set k j v m = ground (arith, get-set k j v m)

  pub get-set_self : (k : String) (v : V) (m : Dict V) → get k (set k v m) ≡ some v
  get-set_self k v m = simp (get-set, eq_refl)

  pub get-delete :
      (k j : String) (m : Dict V) → get j (delete k m) ≡ (if str_eq k j then none else get j m)
  unfolding get delete
  get-delete k j [] = ground (arith, eq_iff k j)
  get-delete k j ((i, w) ∷ m) = ground (arith, eq_iff k j, eq_iff i k, eq_iff i j, get-delete k j m)

  pub has-delete : (k j : String) (m : Dict V) → has j (delete k m) ≡ (not (str_eq k j) && has j m)
  has-delete k j m = ground (arith, get-delete k j m)

  pub get-delete_self : (k : String) (m : Dict V) → get k (delete k m) ≡ none
  get-delete_self k m = simp (get-delete, eq_refl)

  pub delete_absent : (k : String) (m : Dict V) → get k m ≡ none → delete k m ≡ m
  unfolding get delete
  delete_absent k [] h = refl
  delete_absent k ((i, w) ∷ m) h = ground (arith, eq_iff i k, delete_absent k m)

  pub set-HasDistinctKeys :
      (k : String) (v : V) (m : Dict V) → HasDistinctKeys m → HasDistinctKeys (set k v m)
  unfolding get set
  set-HasDistinctKeys k v [] d = (refl, tt)
  set-HasDistinctKeys k v ((i, w) ∷ m) d =
      ground (arith, eq_iff i k, eq_iff k i, get-set k i v m, set-HasDistinctKeys k v m)

  pub delete-HasDistinctKeys :
      (k : String) (m : Dict V) → HasDistinctKeys m → HasDistinctKeys (delete k m)
  unfolding get delete
  delete-HasDistinctKeys k [] d = tt
  delete-HasDistinctKeys k ((i, w) ∷ m) d =
      ground (arith, eq_iff i k, eq_iff k i, get-delete k i m, delete-HasDistinctKeys k m)

  pub size-set :
      (k : String) (v : V) (m : Dict V)
      → size (set k v m) ≡ (if has k m then size m else size m + 1)
  unfolding get set
  size-set k v [] = omega arith
  size-set k v ((i, w) ∷ m) = ground (arith, eq_iff i k, size-set k v m)

  pub size-delete :
      (k : String) (m : Dict V)
      → HasDistinctKeys m
      → size (delete k m) + (if has k m then 1 else 0) ≡ size m
  unfolding get delete
  size-delete k [] d = omega arith
  size-delete k ((i, w) ∷ m) d = ground (arith, eq_iff i k, delete_absent k m, size-delete k m)

  pub size-delete-le : (k : String) (m : Dict V) → size (delete k m) ≤ size m
  unfolding delete
  size-delete-le k [] = omega arith
  size-delete-le k ((i, w) ∷ m) = ground (arith, size-delete-le k m)
