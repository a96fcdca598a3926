-- ===== src/Telemetry/Labels.antt =====
-- Courses of the guard of labels (src/telemetry/cardinality-guard.ts).
use authentication_v.Base.{
  ℕ, ◌+◌, ◌<◌, ◌≤◌, ◌%◌, ◌≡◌, ◌⊎◌, inl, inr, refl, true, false, ◌||◌, String, List, [], ◌∷◌, arith,
  str_eq, eq_iff, ltb, ltb→lt, if_split,
}
use native.Mathlib.Nat.{mod-lt}
use authentication_v.Telemetry.Guard.{
  Guard, size, has, add, track, hash_bucket, hash_string, bucket_label, put_in_bucket,
  get_bounded_consumer_id,
}

abbrev HasDistinctIds : List String → Type 0
HasDistinctIds [] = Unit
HasDistinctIds (x ∷ xs) = (has x xs ≡ false) × HasDistinctIds xs

-- The ids are different, and at most a thousand.
pub record IsBounded (g : Guard) : Type 0 where
  pub distinct : HasDistinctIds g.tracked_consumer_ids
  pub bounded : size g.tracked_consumer_ids ≤ 1000

-- A label is `unknown`, an id that is tracked, or the label of one of the 256 buckets.
abbrev pub InRange : Guard → String → Type 0
InRange g label =
    (label ≡ "unknown")
    ⊎ (has label g.tracked_consumer_ids ≡ true)
    ⊎ ((bucket : ℕ) × (bucket < 256) × (label ≡ bucket_label bucket))

abbrev pub AllInRange : Guard → List String → Type 0
AllInRange g [] = Unit
AllInRange g (l ∷ ls) = InRange g l × AllInRange g ls

size-add : (id : String) (xs : List String) → size (add id xs) ≡ size xs + 1
size-add id [] = refl
size-add id (x ∷ xs) = omega (arith, size-add id xs)

has-add :
    (label id : String) (xs : List String)
    → has label (add id xs) ≡ (has label xs || str_eq id label)
has-add label id [] = ground arith
has-add label id (x ∷ xs) = ground (arith, has-add label id xs)

add-HasDistinctIds :
    (id : String) (xs : List String)
    → has id xs ≡ false
    → HasDistinctIds xs
    → HasDistinctIds (add id xs)
add-HasDistinctIds id [] h d = (refl, tt)
add-HasDistinctIds id (x ∷ xs) h d = (
  ground (arith, h, d.0, has-add x id xs, eq_iff id x, eq_iff x id),
  add-HasDistinctIds id xs (ground (arith, h)) d.1,
)

-- What one question does.
record Answers (g : Guard) (p : Guard × String) : Type 0 where
  bounded : IsBounded p.0
  in_range : InRange p.0 p.1
  grows :
      (label : String)
      → has label g.tracked_consumer_ids ≡ true
      → has label p.0.tracked_consumer_ids ≡ true

track-Answers :
    (id : String) (g : Guard)
    → IsBounded g
    → has id g.tracked_consumer_ids ≡ false
    → ltb (size g.tracked_consumer_ids) 1000 ≡ true
    → Answers g (track id g, id)
unfolding track
track-Answers id g b fresh room = record {
  bounded = record {
    distinct = add-HasDistinctIds id g.tracked_consumer_ids fresh b.distinct;
    bounded = omega (arith, size-add id g.tracked_consumer_ids, ltb→lt _ _ room);
  };
  in_range = inr (inl (ground (arith, has-add id id g.tracked_consumer_ids, eq_iff id id)));
  grows = λ label h. ground (arith, h, has-add label id g.tracked_consumer_ids);
}

same-Answers :
    (g g' : Guard) (label : String)
    → IsBounded g
    → g'.tracked_consumer_ids ≡ g.tracked_consumer_ids
    → InRange g' label
    → Answers g (g', label)
same-Answers g g' label b same r = record {
  bounded = record { distinct = rw same b.distinct; bounded = rw same b.bounded };
  in_range = r;
  grows = λ l h. rw same h;
}

bucket-Answers :
    (now : ℕ) (id : String) (g : Guard) → IsBounded g → Answers g (put_in_bucket now id g)
unfolding put_in_bucket hash_bucket
bucket-Answers now id g b =
    same-Answers g (put_in_bucket now id g).0 (put_in_bucket now id g).1 b (ground arith)
      (inr (inr (hash_string id % 256, mod-lt (hash_string id) (omega arith), refl)))

get-Answers :
    (now : ℕ) (id : String) (g : Guard) → IsBounded g → Answers g (get_bounded_consumer_id now id g)
unfolding get_bounded_consumer_id
get-Answers now id g b =
    let counted = record g { total_requests = g.total_requests + 1 } in
    let b' : IsBounded counted = record { distinct = b.distinct; bounded = b.bounded } in
    let P : Guard × String → Type 0 = λ p. Answers g p in
    let again : (p : Guard × String) → Answers counted p → P p =
      λ p a. record { bounded = a.bounded; in_range = a.in_range; grows = a.grows } in
    if_split P (str_eq id "") (λ _. same-Answers g g "unknown" b refl (inl refl))
      (λ _.
        if_split P (has id g.tracked_consumer_ids)
          (λ known. same-Answers g counted id b refl (inr (inl known)))
          (λ fresh.
            if_split P (ltb (size g.tracked_consumer_ids) 1000)
              (λ room. again (track id counted, id) (track-Answers id counted b' fresh room))
              (λ _. again (put_in_bucket now id counted) (bucket-Answers now id counted b'))))

-- Questions, each at its instant, with their answers.
unfoldable pub ask_all : List (ℕ × String) → Guard → Guard × List String
ask_all [] g = (g, [])
ask_all ((now, id) ∷ asks) g =
    let one = get_bounded_consumer_id now id g in
    let rest = ask_all asks one.0 in (rest.0, one.1 ∷ rest.1)

InRange-weaken :
    (g g' : Guard) (label : String)
    → ((l : String) → has l g.tracked_consumer_ids ≡ true → has l g'.tracked_consumer_ids ≡ true)
    → InRange g label
    → InRange g' label
InRange-weaken g g' label grows (inl u) = inl u
InRange-weaken g g' label grows (inr (inl known)) = inr (inl (grows label known))
InRange-weaken g g' label grows (inr (inr b)) = inr (inr b)

ask_all-grows :
    (asks : List (ℕ × String)) (g : Guard)
    → IsBounded g
    → (label : String) → has label g.tracked_consumer_ids ≡ true
    → has label (ask_all asks g).0.tracked_consumer_ids ≡ true
unfolding ask_all
ask_all-grows [] g b label h = h
ask_all-grows ((now, id) ∷ asks) g b label h =
    let one = get-Answers now id g b in
    ask_all-grows asks (get_bounded_consumer_id now id g).0 one.bounded label (one.grows label h)

-- Along any course of questions between two resets, the ids that are tracked stay different and at most a
-- thousand, and every label that was answered is `unknown`, one of those ids, or one of 256 buckets.
pub ask_all-AllInRange :
    (asks : List (ℕ × String)) (g : Guard)
    → IsBounded g
    → IsBounded (ask_all asks g).0 × AllInRange (ask_all asks g).0 (ask_all asks g).1
unfolding ask_all
ask_all-AllInRange [] g b = (b, tt)
ask_all-AllInRange ((now, id) ∷ asks) g b =
    let one = get-Answers now id g b in
    let g' = (get_bounded_consumer_id now id g).0 in
    let rest = ask_all-AllInRange asks g' one.bounded in
    (
      rest.0,
      (
        InRange-weaken g' (ask_all asks g').0 (get_bounded_consumer_id now id g).1
            (ask_all-grows asks g' one.bounded) one.in_range,
        rest.1,
      ),
    )
