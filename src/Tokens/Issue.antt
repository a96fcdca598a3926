-- ===== src/Tokens/Issue.antt =====
-- Whom a token is issued to, and which requests pass the check of the headers.
use Prim.Native.String.{count as count_chars}
use authentication_v.Base.{
  ℕ, ◌≤◌, ◌≡◌, ◌≢◌, refl, ◌↔◌, Bool, true, false, Option, none, some, String, eq_iff, arith, List,
  Option-cases, inl, inr,
}
use authentication_v.Kong.{ConsumerSecret, Outcome, returned, threw, Fire, RedisAnswer}
use authentication_v.Kong.Isolation.{BelongsTo}
use authentication_v.Kong.Adapter.{ModeStrategy, Response, fetch_secret}
use authentication_v.Kong.Calls.{KongCache, Adapter, get_consumer_secret}
use authentication_v.Kong.Lookup.{IsOwned, get_consumer_secret-BelongsTo}
use authentication_v.Tokens.Request.{
  KongHeaders, HeaderValidation, valid, invalid, validate_kong_headers, TokenResponse, issued,
  answer, finish, reply_to, handle_token_request,
}

-- The headers of a consumer that Kong has authenticated, as the handler accepts them.
pub record IsAuthenticated (h : KongHeaders) (consumer_id username : String) : Type 0 where
  pub names_consumer : h.consumer_id ≡ some consumer_id
  pub names_user : h.username ≡ some username
  pub has_consumer : consumer_id ≢ ""
  pub has_user : username ≢ ""
  pub short_consumer : count_chars consumer_id ≤ 256
  pub short_user : count_chars username ≤ 256
  pub not_anonymous : h.anonymous ≢ some "true"

pub passes-IsAuthenticated :
    (h : KongHeaders) (consumer_id username : String)
    → validate_kong_headers h ≡ valid consumer_id username
    → IsAuthenticated h consumer_id username
unfolding validate_kong_headers
passes-IsAuthenticated h consumer_id username e = record {
  names_consumer = ground arith;
  names_user = ground arith;
  has_consumer = λ n. ground (arith, eq_iff consumer_id "");
  has_user = λ n. ground (arith, eq_iff username "");
  short_consumer = ground arith;
  short_user = ground arith;
  not_anonymous = λ t. ground (arith, eq_iff "true" "true");
}

IsAuthenticated-passes :
    (h : KongHeaders) (consumer_id username : String)
    → IsAuthenticated h consumer_id username
    → validate_kong_headers h ≡ valid consumer_id username
unfolding validate_kong_headers
IsAuthenticated-passes h consumer_id username a = elim (Option-cases h.anonymous) [
  | inl absent ↦ ground (
    arith,
    a.names_consumer,
    a.names_user,
    a.has_consumer,
    a.has_user,
    a.short_consumer,
    a.short_user,
    eq_iff consumer_id "",
    eq_iff username "",
  )
  | inr (text, found) ↦ ground (
    arith,
    a.names_consumer,
    a.names_user,
    a.has_consumer,
    a.has_user,
    a.short_consumer,
    a.short_user,
    a.not_anonymous,
    eq_iff consumer_id "",
    eq_iff username "",
    eq_iff text "true",
  )
]

-- The headers pass the check, with a consumer and a name, exactly when they carry these, neither is
-- empty or longer than the 256 characters of MAX_HEADER_LENGTH, which no configuration changes, and the
-- consumer is not said to be anonymous.
pub validate_kong_headers_iff :
    (h : KongHeaders) (consumer_id username : String)
    → (validate_kong_headers h ≡ valid consumer_id username)
      ↔ IsAuthenticated h consumer_id username
unfolding validate_kong_headers
validate_kong_headers_iff h consumer_id username =
    (passes-IsAuthenticated h consumer_id username, IsAuthenticated-passes h consumer_id username)

finished :
    (monitored : Bool) (r : Outcome TokenResponse) (token : TokenResponse)
    → finish monitored r ≡ issued token
    → r ≡ returned token
unfolding finish
finished monitored threw token e = absurd (ground arith)
finished true (returned t) token e = ground arith
finished false (returned t) token e = absurd (ground arith)

replied :
    (create_token : String → String → String → Outcome TokenResponse) (monitored : Bool)
    (username : String) (r : Outcome (Option ConsumerSecret)) (token : TokenResponse)
    → reply_to create_token monitored username r ≡ issued token
    → (secret : ConsumerSecret) × (r ≡ returned (some secret))
      × (create_token username secret.key secret.secret ≡ returned token)
unfolding reply_to
replied create_token monitored username threw token e = absurd (ground arith)
replied create_token monitored username (returned none) token e = absurd (ground arith)
replied create_token monitored username (returned (some secret)) token e =
    (secret, refl, finished monitored (create_token username secret.key secret.secret) token e)

issued_from :
    {S : Type 0} (kong : String → S → S × Outcome (Option ConsumerSecret))
    (create_token : String → String → String → Outcome TokenResponse) (monitored : Bool)
    (v : HeaderValidation) (s : S) (token : TokenResponse)
    → (answer kong create_token monitored v s).1 ≡ issued token
    → (consumer_id : String) × (username : String) × (secret : ConsumerSecret) × (v
        ≡ valid consumer_id username)
      × ((kong consumer_id s).1 ≡ returned (some secret))
      × (create_token username secret.key secret.secret ≡ returned token)
unfolding answer
issued_from kong create_token monitored (invalid code) s token e = absurd (ground arith)
issued_from kong create_token monitored (valid consumer_id username) s token e =
    let (secret, found, made) =
      replied create_token monitored username (kong consumer_id s).1 token e in
    (consumer_id, username, secret, refl, found, made)

-- A token is issued to an authenticated consumer only, and never made with another one's secret:
-- where the handler, over the adapter, answers with a token, the headers name a consumer and a
-- user and pass the check, the adapter returned a credential for this consumer that names no other
-- one, and the token was created for this user with the key and the secret of this credential.
-- Conditions: breakers are enabled and the adapter's
-- cache holds under each consumer's key no other consumer's secret.
pub handle_token_request-BelongsTo :
    {S : Type 0} (ops : KongCache S) (now later : ℕ) (strategy : ModeStrategy)
    (request : String → Outcome (Response (Option (List ConsumerSecret))))
    (fire : Outcome (Option ConsumerSecret) → Fire (Option ConsumerSecret)) (runs : Bool)
    (redis : RedisAnswer) (create_token : String → String → String → Outcome TokenResponse)
    (monitored : Bool) (h : KongHeaders) (a : Adapter S) {token : TokenResponse}
    → a.circuit_breaker.config.enabled ≡ true
    → IsOwned ops a.cache
    → (handle_token_request
        (λ id b.
          get_consumer_secret ops now later id (fetch_secret strategy request id) fire runs redis b)
        create_token
        monitored
        h
        a).1
      ≡ issued token
    → (consumer_id : String) × (username : String) × (secret : ConsumerSecret) × IsAuthenticated h
        consumer_id username
      × ((get_consumer_secret ops now later consumer_id
            (fetch_secret strategy request consumer_id)
            fire
            runs
            redis
            a).1
          ≡ returned (some secret))
      × BelongsTo consumer_id secret
      × (create_token username secret.key secret.secret ≡ returned token)
unfolding handle_token_request
handle_token_request-BelongsTo {S} ops now later strategy request fire runs redis create_token
      monitored h a {token} on own e =
    let kong = λ (id : String) (b : Adapter S).
      get_consumer_secret ops now later id (fetch_secret strategy request id) fire runs redis b in
    let (consumer_id, username, secret, passes, found, made) =
      issued_from kong create_token monitored (validate_kong_headers h) a token e in
    let (_, belongs) =
      get_consumer_secret-BelongsTo ops now later consumer_id strategy request fire runs redis a on
        own in
    (
      consumer_id,
      username,
      secret,
      passes-IsAuthenticated h consumer_id username passes,
      found,
      belongs secret found,
      made,
    )
