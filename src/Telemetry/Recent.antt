-- ===== src/Telemetry/Recent.antt =====
-- What the statistics of src/telemetry/export-stats-tracker.ts hold after any exports and answers.
use authentication_v.Base.{
  ℕ, zero, suc, ◌+◌, ◌-◌, ◌≤◌, ◌≡◌, refl, ap, ◌∙◌, true, false, String, List, [], ◌∷◌, inl, inr,
  arith, ltb, ◌==◌, length, push, shift, length-push, if◌then◌else◌, Bool-cases,
}
use authentication_v.Telemetry.Export.{
  ExportStats, Event, exported, answered, create_export_stats_tracker, record_export_attempt,
  record_export_success, record_export_failure, add_recent, entry, message_or, on_result, handle,
}

unfoldable pub run : List Event → ExportStats → ExportStats
unfolding handle
run [] s = s
run (e ∷ es) s = run es (handle e s)

-- The list without its first `n` elements.
abbrev pub drop : ℕ → List String → List String
drop zero xs = xs
drop (suc n) [] = []
drop (suc n) (x ∷ xs) = drop n xs

-- The last ten of a list.
abbrev pub last_ten : List String → List String
last_ten xs = drop (length xs - 10) xs

-- An export that began.
abbrev pub begun : Event → ℕ
begun exported = 1
begun (answered time result) = 0

-- An answer with the code 0.
abbrev pub succeeded : Event → ℕ
succeeded exported = 0
succeeded (answered time result) = if result.code == 0 then 1 else 0

-- The entry of an answer with another code, after those of `past`.
abbrev pub noted : List String → Event → List String
noted past exported = past
noted past (answered time result) =
    if result.code == 0 then past else push past (entry time (message_or result.error))

abbrev pub sum_of : (Event → ℕ) → List Event → ℕ
sum_of f [] = 0
sum_of f (e ∷ es) = f e + sum_of f es

abbrev pub all_noted : List String → List Event → List String
all_noted past [] = past
all_noted past (e ∷ es) = all_noted (noted past e) es

length-drop : (n : ℕ) (xs : List String) → n ≤ length xs → length (drop n xs) + n ≡ length xs
length-drop zero xs h = omega arith
length-drop (suc n) [] h = absurd (omega arith)
length-drop (suc n) (x ∷ xs) h = omega (arith, length-drop n xs (omega arith))

drop-push :
    (n : ℕ) (xs : List String) (x : String)
    → n ≤ length xs
    → push (drop n xs) x ≡ drop n (push xs x)
drop-push zero xs x h = refl
drop-push (suc n) [] x h = absurd (omega arith)
drop-push (suc n) (y ∷ xs) x h = drop-push n xs x (omega arith)

shift-drop : (n : ℕ) (xs : List String) → shift (drop n xs) ≡ drop (suc n) xs
shift-drop zero [] = refl
shift-drop zero (x ∷ xs) = refl
shift-drop (suc n) [] = refl
shift-drop (suc n) (x ∷ xs) = shift-drop n xs

-- With ten or more the first of the last ten gives way; with less all are kept.
add_recent-last_ten :
    (e : String) (all : List String) → add_recent e (last_ten all) ≡ last_ten (push all e)
unfolding add_recent
add_recent-last_ten e all =
    let n = length all - 10 in
    elim (Bool-cases (ltb 9 (length all))) [
      | inl full ↦
          let fits : n ≤ length all = omega arith in
          let long : ltb 10 (length (push (drop n all) e)) ≡ true =
            ground (arith, full, length-push (drop n all) e, length-drop n all fits) in
          let next : suc n ≡ length (push all e) - 10 = ground (arith, full, length-push all e) in
          rw long (
            ap shift (drop-push n all e fits)
            ∙ shift-drop n (push all e)
            ∙ ap (λ (k : ℕ). drop k (push all e)) next)
      | inr free ↦
          let whole : n ≡ 0 = ground (arith, free) in
          let short : ltb 10 (length (push all e)) ≡ false =
            ground (arith, free, length-push all e) in
          let next : 0 ≡ length (push all e) - 10 = ground (arith, free, length-push all e) in
          rw (whole, short) (ap (λ (k : ℕ). drop k (push all e)) next)
    ]

-- What the statistics hold when `past` are the entries so far, and `t`, `n`, `f` the numbers of attempts,
-- successes and failures.
abbrev pub Holds : ℕ → ℕ → List String → ExportStats → Type 0
Holds t n past s =
    (s.total_exports ≡ t)
    × (s.success_count ≡ n)
    × (s.failure_count ≡ length past)
    × (s.recent_errors ≡ last_ten past)

handle-Holds :
    (e : Event) (t n : ℕ) (past : List String) (s : ExportStats)
    → Holds t n past s
    → Holds (begun e + t) (succeeded e + n) (noted past e) (handle e s)
unfolding handle on_result record_export_attempt record_export_success record_export_failure
handle-Holds exported t n past s (h, k, f, r) = (omega (arith, h), omega (arith, k), f, r)
handle-Holds (answered time result) t n past s (h, k, f, r) =
    let e = entry time (message_or result.error) in
    elim (Bool-cases (result.code == 0)) [
      | inl good ↦ rw good (omega (arith, h), omega (arith, k), f, r)
      | inr bad ↦ rw bad (
        omega (arith, h),
        omega (arith, k),
        omega (arith, f, length-push past e),
        ap (add_recent e) r ∙ add_recent-last_ten e past,
      )
    ]

run-Holds_from :
    (es : List Event) (t n : ℕ) (past : List String) (s : ExportStats)
    → Holds t n past s
    → Holds (sum_of begun es + t) (sum_of succeeded es + n) (all_noted past es) (run es s)
unfolding run
run-Holds_from [] t n past s (h, k, f, r) = (omega (arith, h), omega (arith, k), f, r)
run-Holds_from (e ∷ es) t n past s held =
    let (h, k, f, r) =
      run-Holds_from es (begun e + t) (succeeded e + n) (noted past e) (handle e s)
        (handle-Holds e t n past s held) in
    (omega (arith, h), omega (arith, k), f, r)

-- After any exports and answers from new statistics: `totalExports` is how many exports began, `successCount`
-- how many answers had the code 0, `failureCount` how many had another, and `recentErrors` holds the last ten
-- of the entries of those, in their order.
pub run-Holds :
    (es : List Event)
    → Holds
        (sum_of begun es)
        (sum_of succeeded es)
        (all_noted [] es)
        (run es create_export_stats_tracker)
unfolding create_export_stats_tracker
run-Holds es =
    let (h, k, f, r) =
      run-Holds_from es 0 0 [] create_export_stats_tracker (refl, refl, refl, refl) in
    (omega (arith, h), omega (arith, k), f, r)
