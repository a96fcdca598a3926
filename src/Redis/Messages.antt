-- ===== src/Redis/Messages.antt =====
-- The messages of the cache's own errors (src/services/cache/cache-operation-timeout.ts,
-- src/services/cache/shared-redis-cache.ts) under the classification of src/utils/cache-error-detector.ts.
use Prim.Native.Char.{Char, code}
use Prim.Native.String.append
use Prim.Native.String.{String, ◌++◌ as text_append}
use authentication_v.Base.{
  ℕ, Bool, true, false, not, ◌&&◌, ◌||◌, Option, none, some, List, [], ◌∷◌, ◌++◌, ◌≡◌, ◌≢◌, eq_iff,
  refl, arith, ap, ◌∙◌,
}
use authentication_v.Redis.Timeout.{timeout_message, reconnection_failed_message}
use authentication_v.Redis.Detector.{
  codes, lower_all, Piece, word, spaces, optional, strip, matches_here, occurs, occurs_any, matches,
  ErrorPattern, connection_patterns, server_patterns, first_match, detect_cache_error,
  is_connection_error, is_recoverable_error,
}

pub codes-append : (s t : String) → codes (text_append s t) ≡ codes s ++ codes t
codes-append String.[] t = ap codes (append.nil t)
codes-append (String.◌∷◌ c s) t =
    ap codes (append.cons c s t) ∙ ap (λ l. code c ∷ l) (codes-append s t)

lower_all-append : (s t : List ℕ) → lower_all (s ++ t) ≡ lower_all s ++ lower_all t
lower_all-append [] t = refl
lower_all-append (c ∷ s) t = ap (λ l. lower_all (c ∷ []) ++ l) (lower_all-append s t)

strip-append : (w t u r : List ℕ) → strip w t ≡ some r → strip w (t ++ u) ≡ some (r ++ u)
unfolding strip
strip-append [] t u r p = ground (arith, p)
strip-append (c ∷ w) [] u r p = ground arith
strip-append (c ∷ w) (d ∷ t) u r p = ground (arith, strip-append w t u r)

matches_here-append :
    (ps : List Piece) (t u : List ℕ) → matches_here ps t ≡ true → matches_here ps (t ++ u) ≡ true
unfolding matches_here
matches_here-append [] t u p = refl
matches_here-append (word w ∷ ps) t u p =
    elim (strip w t)
        as (λ (o : Option (List ℕ)). strip w t ≡ o → matches_here (word w ∷ ps) (t ++ u) ≡ true) [
          | none ↦ λ q. ground (arith, q, p)
          | some r ↦ λ q. ground (arith, strip-append w t u r q, matches_here-append ps r u)
        ]
      refl
matches_here-append (spaces ∷ ps) [] [] p = p
matches_here-append (spaces ∷ ps) [] (c ∷ u) p = ground (arith, matches_here-append ps [] (c ∷ u) p)
matches_here-append (spaces ∷ ps) (c ∷ t) u p =
    ground (arith, p, matches_here-append ps (c ∷ t) u, matches_here-append (spaces ∷ ps) t u)
matches_here-append (optional c ∷ ps) [] [] p = p
matches_here-append (optional c ∷ ps) [] (d ∷ u) p =
    ground (arith, matches_here-append ps [] (d ∷ u) p)
matches_here-append (optional c ∷ ps) (d ∷ t) u p =
    ground (arith, p, matches_here-append ps (d ∷ t) u, matches_here-append ps t u)

occurs-append : (ps : List Piece) (t u : List ℕ) → occurs ps t ≡ true → occurs ps (t ++ u) ≡ true
unfolding occurs
occurs-append ps [] [] p = p
occurs-append ps [] (c ∷ u) p = ground (arith, matches_here-append ps [] (c ∷ u) p)
occurs-append ps (c ∷ t) u p =
    ground (arith, p, matches_here-append ps (c ∷ t) u, occurs-append ps t u)

occurs_later : (ps : List Piece) (t u : List ℕ) → occurs ps u ≡ true → occurs ps (t ++ u) ≡ true
unfolding occurs
occurs_later ps [] u p = p
occurs_later ps (c ∷ t) u p = ground (arith, occurs_later ps t u p)

-- Whether some pattern of the list matches.
abbrev pub any_matches : List ErrorPattern → String → Bool
any_matches [] m = false
any_matches (p ∷ ps) m = matches p.pattern m || any_matches ps m

-- Whether each pattern of the list asks for a reconnection, which it does for errors that are recoverable.
abbrev all_reconnect : List ErrorPattern → Bool
all_reconnect [] = true
all_reconnect (p ∷ ps) = (p.should_reconnect && p.is_recoverable) && all_reconnect ps

abbrev none_reconnects : List ErrorPattern → Bool
none_reconnects [] = true
none_reconnects (p ∷ ps) = not p.should_reconnect && none_reconnects ps

first_match-none_reconnects :
    (ps : List ErrorPattern) (m : String)
    → none_reconnects ps ≡ true
    → (first_match ps m).should_reconnect ≡ false
unfolding first_match
first_match-none_reconnects [] m h = refl
first_match-none_reconnects (p ∷ ps) m h = ground (arith, h, first_match-none_reconnects ps m)

first_match-any :
    (ps qs : List ErrorPattern) (m : String)
    → all_reconnect ps ≡ true
    → none_reconnects qs ≡ true
    → (first_match (ps ++ qs) m).should_reconnect ≡ any_matches ps m
unfolding first_match
first_match-any [] qs m h k = first_match-none_reconnects qs m k
first_match-any (p ∷ ps) qs m h k = ground (arith, h, first_match-any ps qs m)

first_match-recoverable :
    (ps qs : List ErrorPattern) (m : String)
    → all_reconnect ps ≡ true
    → none_reconnects qs ≡ true
    → (first_match (ps ++ qs) m).should_reconnect ≡ true
    → (first_match (ps ++ qs) m).is_recoverable ≡ true
unfolding first_match
first_match-recoverable [] qs m h k r = ground (arith, r, first_match-none_reconnects qs m k)
first_match-recoverable (p ∷ ps) qs m h k r = ground (arith, h, r, first_match-recoverable ps qs m)

-- A message that is not empty is one of a broken connection exactly when one of the patterns that ask
-- for a reconnection matches it, whatever its place in the table, and then it is recoverable.
pub is_connection_error_iff :
    (m : String)
    → m ≢ ""
    → (is_connection_error m ≡ any_matches connection_patterns m)
      × (is_connection_error m ≡ true → is_recoverable_error m ≡ true)
unfolding is_connection_error is_recoverable_error detect_cache_error
is_connection_error_iff m h = (
  ground (arith, h, eq_iff m "", first_match-any connection_patterns server_patterns m refl refl),
  λ r. ground (
    arith,
    h,
    r,
    eq_iff m "",
    first_match-recoverable connection_patterns server_patterns m refl refl,
  ),
)

-- The pieces match somewhere in a text when they match in its start, and when they match in its rest.
occurs_start :
    (ps : List Piece) (s t : String)
    → occurs ps (lower_all (codes s)) ≡ true
    → occurs ps (lower_all (codes (text_append s t))) ≡ true
occurs_start ps s t h =
    rw (codes-append s t, lower_all-append (codes s) (codes t))
      (occurs-append ps (lower_all (codes s)) (lower_all (codes t)) h)

occurs_rest :
    (ps : List Piece) (s t : String)
    → occurs ps (lower_all (codes t)) ≡ true
    → occurs ps (lower_all (codes (text_append s t))) ≡ true
occurs_rest ps s t h =
    rw (codes-append s t, lower_all-append (codes s) (codes t))
      (occurs_later ps (lower_all (codes s)) (lower_all (codes t)) h)

text_append-nonempty : (c : Char) (s t : String) → text_append (String.◌∷◌ c s) t ≢ ""
text_append-nonempty c s t e = absurd (cc (ap codes e, codes-append (String.◌∷◌ c s) t))

text_append_twice-nonempty :
    (c : Char) (s t u : String) → text_append (text_append (String.◌∷◌ c s) t) u ≢ ""
text_append_twice-nonempty c s t u e = absurd (
    cc (
      ap codes e,
      codes-append (text_append (String.◌∷◌ c s) t) u,
      codes-append (String.◌∷◌ c s) t,
    ))

abbrev timed_out : List Piece
timed_out =
    word (codes "operation")
    ∷ spaces
    ∷ word (codes "time")
    ∷ optional 100
    ∷ spaces
    ∷ word (codes "out")
    ∷ []

abbrev connection_lost : List Piece
connection_lost = word (codes "connection") ∷ spaces ∷ word (codes "lost") ∷ []

timed_out-occurs : occurs timed_out (lower_all (codes " operation timed out after ")) ≡ true
unfolding occurs matches_here strip
timed_out-occurs = refl

connection_lost-occurs :
    occurs connection_lost (lower_all (codes "Redis connection lost and reconnection failed: "))
    ≡ true
unfolding occurs matches_here strip
connection_lost-occurs = refl

timeout_message-matches :
    (operation ms : String) → any_matches connection_patterns (timeout_message operation ms) ≡ true
unfolding matches occurs_any
timeout_message-matches operation ms = ground (
  arith,
  occurs_rest timed_out (text_append "Cache " operation)
      (text_append " operation timed out after " (text_append ms "ms"))
      (occurs_start timed_out " operation timed out after " (text_append ms "ms") timed_out-occurs),
)

reconnection_failed_message-matches :
    (error : String) → any_matches connection_patterns (reconnection_failed_message error) ≡ true
unfolding matches occurs_any
reconnection_failed_message-matches error = ground (
  arith,
  occurs_start connection_lost "Redis connection lost and reconnection failed: " error
      connection_lost-occurs,
)

-- Each error that the cache makes for a timeout, and each error that `ensureConnected` throws after a
-- failed reconnection, whatever the operation, the time and the cause in it, counts as one of a broken
-- connection that is recoverable.
pub own_messages_reconnect :
    (operation ms error : String)
    → (is_connection_error (timeout_message operation ms) ≡ true)
      × (is_recoverable_error (timeout_message operation ms) ≡ true)
      × (is_connection_error (reconnection_failed_message error) ≡ true)
      × (is_recoverable_error (reconnection_failed_message error) ≡ true)
own_messages_reconnect operation ms error =
    let timeout =
      is_connection_error_iff (timeout_message operation ms)
        (text_append_twice-nonempty _ _ operation _) in
    let lost =
      is_connection_error_iff (reconnection_failed_message error)
        (text_append-nonempty _ _ error) in
    let timeout_holds = timeout.0 ∙ timeout_message-matches operation ms in
    let lost_holds = lost.0 ∙ reconnection_failed_message-matches error in
    (timeout_holds, timeout.1 timeout_holds, lost_holds, lost.1 lost_holds)
