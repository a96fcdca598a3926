-- ===== src/Kong/Creation.antt =====
-- The retries of `createConsumerSecret` on a collision of keys.
use authentication_v.Base.{
  ℕ, zero, suc, ◌+◌, ◌≤◌, ◌<◌, ◌≡◌, refl, true, false, Option, String, arith, Bool-cases, ltb,
  ltb→lt, ap, ap₂, ◌∙◌, none, inl, inr,
}
use authentication_v.Kong.Types.{ConsumerSecret, Outcome, threw, returned}
use authentication_v.Kong.Adapter.{Response, is_collision, create_loop, created_response}

collision_throws :
    (consumer_id : String) (r : Outcome (Response (Option ConsumerSecret)))
    → is_collision r ≡ true
    → created_response consumer_id r ≡ (none, threw)
unfolding is_collision created_response
collision_throws consumer_id threw e = refl
collision_throws consumer_id (returned r) e = ground arith

-- The loop ends with the first attempt that is not a collision: where all attempts from the first one
-- on and before the `n`-th collide, the `n`-th does not and is still allowed, that one decides the
-- result, and none is made after it.
pub create_loop_first :
    (left attempt n : ℕ) (post : ℕ → Outcome (Response (Option ConsumerSecret)))
    (consumer_id : String)
    → attempt ≤ n
    → n ≤ attempt + left
    → ((i : ℕ) → attempt ≤ i → i < n → is_collision (post i) ≡ true)
    → is_collision (post n) ≡ false
    → create_loop post consumer_id attempt left ≡ (created_response consumer_id (post n), n)
unfolding create_loop
create_loop_first zero attempt n post consumer_id from to before here =
    let same : n ≡ attempt = omega arith in rw same refl
create_loop_first (suc left) attempt n post consumer_id from to before here =
    elim (Bool-cases (is_collision (post attempt))) [
      | inl again ↦
          let past : attempt < n = elim (Bool-cases (ltb attempt n)) [
            | inl lt ↦ ltb→lt _ _ lt
            | inr ge ↦ let same : n ≡ attempt = ground arith in absurd (ground arith)
          ] in
          rw again (
            create_loop_first left (attempt + 1) n post consumer_id (omega arith) (omega arith)
              (λ i le lt. before i (omega arith) lt) here)
      | inr over ↦
          let same : n ≡ attempt = elim (Bool-cases (ltb attempt n)) [
            | inl lt ↦
                let hit = before attempt (omega arith) (ltb→lt _ _ lt) in absurd (ground arith)
            | inr ge ↦ ground arith
          ] in
          rw (over, same) refl
    ]

-- Where every allowed attempt collides, the loop throws after the last of them.
pub create_loop_exhausted :
    (left attempt : ℕ) (post : ℕ → Outcome (Response (Option ConsumerSecret)))
    (consumer_id : String)
    → ((i : ℕ) → attempt ≤ i → i ≤ attempt + left → is_collision (post i) ≡ true)
    → create_loop post consumer_id attempt left ≡ ((none, threw), attempt + left)
unfolding create_loop
create_loop_exhausted zero attempt post consumer_id all =
    ap₂ (λ x y. (x, y))
      (collision_throws consumer_id (post attempt) (all attempt (omega arith) (omega arith)))
      (omega arith)
create_loop_exhausted (suc left) attempt post consumer_id all =
    rw (all attempt (omega arith) (omega arith)) (
      create_loop_exhausted left (attempt + 1) post consumer_id
        (λ i le lt. all i (omega arith) (omega arith))
      ∙ ap (λ n. ((none, threw), n)) (omega arith))
