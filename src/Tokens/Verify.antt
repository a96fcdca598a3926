-- ===== src/Tokens/Verify.antt =====
-- Which tokens are confirmed, and with whose secret.
use authentication_v.Base.{ℕ, ◌≡◌, refl, Bool, true, Option, none, some, String, List, arith}
use authentication_v.Kong.{ConsumerSecret, Outcome, returned, threw, Fire, RedisAnswer}
use authentication_v.Kong.Isolation.{BelongsTo}
use authentication_v.Kong.Adapter.{ModeStrategy, Response, fetch_secret}
use authentication_v.Kong.Calls.{KongCache, Adapter, get_consumer_secret}
use authentication_v.Kong.Lookup.{IsOwned, get_consumer_secret-BelongsTo}
use authentication_v.Tokens.Request.{
  KongHeaders, HeaderValidation, valid, invalid, validate_kong_headers,
}
use authentication_v.Tokens.Issue.{IsAuthenticated, passes-IsAuthenticated}
use authentication_v.Tokens.Validation.{
  TokenCheck, accepted, Bearer, found, unusable, bearer_token, verdict_on, check_secret,
  check_token, handle_token_validation,
}

module _ {P : Type 0} (is_dated : P → Bool) (monitored : Bool) where
  -- The check of a token that was confirmed.
  abbrev pub Confirms : P → Outcome (TokenCheck P) → Type 0
  Confirms p r = (c : TokenCheck P) × (r ≡ returned c) × (c.is_valid ≡ true) × (c.payload ≡ some p)

  verdict-Confirms :
      (r : Outcome (TokenCheck P)) (p : P)
      → verdict_on is_dated monitored r ≡ accepted p
      → Confirms p r
  unfolding verdict_on
  verdict-Confirms threw p e = absurd (ground arith)
  verdict-Confirms (returned c) p e = (c, refl, ground arith, ground arith)

  secret-Confirms :
      (validate_token : String → String → Outcome (TokenCheck P)) (token : String)
      (r : Outcome (Option ConsumerSecret)) (p : P)
      → check_secret is_dated monitored validate_token token r ≡ accepted p
      → (secret : ConsumerSecret) × (r ≡ returned (some secret))
        × Confirms p (validate_token token secret.secret)
  unfolding check_secret
  secret-Confirms validate_token token threw p e = absurd (ground arith)
  secret-Confirms validate_token token (returned none) p e = absurd (ground arith)
  secret-Confirms validate_token token (returned (some secret)) p e =
      (secret, refl, verdict-Confirms (validate_token token secret.secret) p e)

  token-Confirms :
      {S : Type 0} (kong : String → S → S × Outcome (Option ConsumerSecret))
      (validate_token : String → String → Outcome (TokenCheck P)) (b : Bearer)
      (v : HeaderValidation) (s : S) (p : P)
      → (check_token is_dated monitored kong validate_token b v s).1 ≡ accepted p
      → (token : String) × (consumer_id : String) × (username : String) × (secret : ConsumerSecret)
        × (b ≡ found token)
        × (v ≡ valid consumer_id username)
        × ((kong consumer_id s).1 ≡ returned (some secret))
        × Confirms p (validate_token token secret.secret)
  unfolding check_token
  token-Confirms kong validate_token (unusable code) v s p e = absurd (ground arith)
  token-Confirms kong validate_token (found token) (invalid code) s p e = absurd (ground arith)
  token-Confirms kong validate_token (found token) (valid consumer_id username) s p e =
      let (secret, kept, confirmed) =
        secret-Confirms validate_token token (kong consumer_id s).1 p e in
      (token, consumer_id, username, secret, refl, refl, kept, confirmed)

-- A token is never confirmed with the secret of another consumer than the authenticated one: where
-- the handler, over the adapter, answers with the claims `p`, the header `Authorization` carries a
-- bearer token, the other headers pass their check for a consumer, the adapter returned a secret for
-- this consumer that names no other one, and the JWT service found this token valid with these claims
-- under this secret.
-- Conditions: breakers are enabled and the adapter's cache holds under each consumer's key no
-- other consumer's secret.
pub handle_token_validation-BelongsTo :
    {S P : Type 0} (ops : KongCache S) (now later : ℕ) (strategy : ModeStrategy)
    (request : String → Outcome (Response (Option (List ConsumerSecret))))
    (fire : Outcome (Option ConsumerSecret) → Fire (Option ConsumerSecret)) (runs : Bool)
    (redis : RedisAnswer) (validate_token : String → String → Outcome (TokenCheck P))
    (is_dated : P → Bool) (monitored : Bool) (authorization : Option String) (h : KongHeaders)
    (a : Adapter S) {p : P}
    → a.circuit_breaker.config.enabled ≡ true
    → IsOwned ops a.cache
    → (handle_token_validation is_dated monitored
        (λ id b.
          get_consumer_secret ops now later id (fetch_secret strategy request id) fire runs redis b)
        validate_token
        authorization
        h
        a).1
      ≡ accepted p
    → (token : String) × (consumer_id : String) × (username : String) × (secret : ConsumerSecret)
      × (bearer_token authorization ≡ found token)
      × IsAuthenticated h consumer_id username
      × ((get_consumer_secret ops now later consumer_id
            (fetch_secret strategy request consumer_id)
            fire
            runs
            redis
            a).1
          ≡ returned (some secret))
      × BelongsTo consumer_id secret
      × Confirms is_dated monitored p (validate_token token secret.secret)
unfolding handle_token_validation
handle_token_validation-BelongsTo {S} ops now later strategy request fire runs redis validate_token
      is_dated monitored authorization h a {p} on own e =
    let kong = λ (id : String) (b : Adapter S).
      get_consumer_secret ops now later id (fetch_secret strategy request id) fire runs redis b in
    let (token, consumer_id, username, secret, carried, passes, kept, confirmed) =
      token-Confirms is_dated monitored kong validate_token (bearer_token authorization)
        (validate_kong_headers h) a p e in
    let (_, belongs) =
      get_consumer_secret-BelongsTo ops now later consumer_id strategy request fire runs redis a on
        own in
    (
      token,
      consumer_id,
      username,
      secret,
      carried,
      passes-IsAuthenticated h consumer_id username passes,
      kept,
      belongs secret kept,
      confirmed,
    )
