-- ===== src/Base/Evict/Sort.antt =====
-- The entries of a map in ascending order of their stamps, as `Array.from(m.entries()).sort(...)` gives
-- them.
use Prim.Native.Nat.{ℕ, ◌+◌, ◌≤◌}
use Prim.Native.String.{String}
use text.Mathlib.Text.{◌==◌ as str_eq}
use text.Mathlib.TextEquality.{eq_iff}
use mathlib.Core.Path.{◌≡◌, refl, ap, ◌∙◌}
use mathlib.Core.Logic.{inl, inr}
use mathlib.Core.Option.{none, some}
use mathlib.Core.List.{[], ◌∷◌}
use native.Mathlib.Omega.{arith}
use authentication_v.Base.Tests.{leb, leb→le, if◌then◌else◌, Bool-cases}
use authentication_v.Base.Lists.{length, push, All}
use authentication_v.Base.Dict.{Dict, get, set, HasDistinctKeys}

module _ {ℓ} {V : Type ℓ} (stamp : V → ℕ) where
  -- One insertion of the stable sort by ascending stamp.
  unfoldable pub insert_by_stamp : String × V → Dict V → Dict V
  insert_by_stamp (k, v) [] = (k, v) ∷ []
  insert_by_stamp (k, v) ((j, w) ∷ m) =
      if leb (stamp v) (stamp w) then (k, v) ∷ (j, w) ∷ m else (j, w) ∷ insert_by_stamp (k, v) m

  unfoldable pub sort_by_stamp : Dict V → Dict V
  unfolding insert_by_stamp
  sort_by_stamp [] = []
  sort_by_stamp ((k, v) ∷ m) = insert_by_stamp (k, v) (sort_by_stamp m)

module _ {ℓ} {V : Type ℓ} (stamp : V → ℕ) where
  get-insert :
      (q k : String) (v : V) (m : Dict V)
      → get k m ≡ none
      → get q (insert_by_stamp stamp (k, v) m) ≡ (if str_eq k q then some v else get q m)
  unfolding get insert_by_stamp
  get-insert q k v [] h = refl
  get-insert q k v ((j, w) ∷ m) h =
      ground (arith, eq_iff k q, eq_iff j k, eq_iff j q, get-insert q k v m)

  insert-HasDistinctKeys :
      (k : String) (v : V) (m : Dict V)
      → get k m ≡ none
      → HasDistinctKeys m
      → HasDistinctKeys (insert_by_stamp stamp (k, v) m)
  unfolding get insert_by_stamp
  insert-HasDistinctKeys k v [] h d = (refl, tt)
  insert-HasDistinctKeys k v ((j, w) ∷ m) h d =
      ground (arith, eq_iff k j, eq_iff j k, get-insert j k v m, insert-HasDistinctKeys k v m)

  length-insert :
      (k : String) (v : V) (m : Dict V) → length (insert_by_stamp stamp (k, v) m) ≡ length m + 1
  unfolding insert_by_stamp
  length-insert k v [] = omega arith
  length-insert k v ((j, w) ∷ m) = ground (arith, length-insert k v m)

  pub length-sort : (m : Dict V) → length (sort_by_stamp stamp m) ≡ length m
  unfolding sort_by_stamp
  length-sort [] = refl
  length-sort ((k, v) ∷ m) = omega (arith, length-insert k v (sort_by_stamp stamp m), length-sort m)

  pub get-sort :
      (q : String) (m : Dict V) → HasDistinctKeys m → get q (sort_by_stamp stamp m) ≡ get q m
  unfolding get sort_by_stamp
  get-sort q [] d = refl
  get-sort q ((k, v) ∷ m) d = ground (
    arith,
    eq_iff k q,
    get-insert q k v (sort_by_stamp stamp m),
    get-sort k m d.1,
    get-sort q m d.1,
  )

  pub sort-HasDistinctKeys :
      (m : Dict V) → HasDistinctKeys m → HasDistinctKeys (sort_by_stamp stamp m)
  unfolding sort_by_stamp
  sort-HasDistinctKeys [] d = tt
  sort-HasDistinctKeys ((k, v) ∷ m) d =
      insert-HasDistinctKeys k v (sort_by_stamp stamp m) (get-sort k m d.1 ∙ d.0)
        (sort-HasDistinctKeys m d.1)

  abbrev pub IsAscending : Dict V → Type 0
  IsAscending [] = Unit
  IsAscending ((k, v) ∷ m) = All (λ e. stamp v ≤ stamp e.1) m × IsAscending m

  All-insert :
      (n : ℕ) (k : String) (v : V) (m : Dict V)
      → n ≤ stamp v
      → All (λ e. n ≤ stamp e.1) m
      → All (λ e. n ≤ stamp e.1) (insert_by_stamp stamp (k, v) m)
  unfolding insert_by_stamp
  All-insert n k v [] h a = (h, tt)
  All-insert n k v ((j, w) ∷ m) h a = ground (arith, All-insert n k v m)

  All-le : (i n : ℕ) (m : Dict V) → i ≤ n → All (λ e. n ≤ stamp e.1) m → All (λ e. i ≤ stamp e.1) m
  All-le i n [] h a = tt
  All-le i n (e ∷ m) h a = (omega arith, All-le i n m h a.1)

  insert-IsAscending :
      (k : String) (v : V) (m : Dict V)
      → IsAscending m
      → IsAscending (insert_by_stamp stamp (k, v) m)
  unfolding insert_by_stamp
  insert-IsAscending k v [] h = (tt, tt)
  insert-IsAscending k v ((j, w) ∷ m) h = elim (Bool-cases (leb (stamp v) (stamp w))) [
    | inl first ↦
        rw first
          ((leb→le _ _ first, All-le (stamp v) (stamp w) m (leb→le _ _ first) h.0), (h.0, h.1))
    | inr later ↦
        rw later (All-insert (stamp w) k v m (ground arith) h.0, insert-IsAscending k v m h.1)
  ]

  pub sort-IsAscending : (m : Dict V) → IsAscending (sort_by_stamp stamp m)
  unfolding sort_by_stamp
  sort-IsAscending [] = tt
  sort-IsAscending ((k, v) ∷ m) =
      insert-IsAscending k v (sort_by_stamp stamp m) (sort-IsAscending m)

  insert-push :
      (j k : String) (w v : V) (m : Dict V)
      → stamp w ≤ stamp v
      → insert_by_stamp stamp (j, w) (push m (k, v)) ≡ push (insert_by_stamp stamp (j, w) m) (k, v)
  unfolding insert_by_stamp
  insert-push j k w v [] h = ground arith
  insert-push j k w v ((i, u) ∷ m) h = ground (arith, insert-push j k w v m)

  pub sort-set_newest :
      (k : String) (v : V) (m : Dict V)
      → get k m ≡ none
      → All (λ e. stamp e.1 ≤ stamp v) m
      → sort_by_stamp stamp (set k v m) ≡ push (sort_by_stamp stamp m) (k, v)
  unfolding get set sort_by_stamp insert_by_stamp
  sort-set_newest k v [] h a = refl
  sort-set_newest k v ((j, w) ∷ m) h a = elim (Bool-cases (str_eq j k)) [
    | inl here ↦ absurd (ground arith)
    | inr past ↦ rw past (
        ap (insert_by_stamp stamp (j, w)) (sort-set_newest k v m (ground arith) a.1)
        ∙ insert-push j k w v (sort_by_stamp stamp m) a.0)
  ]
