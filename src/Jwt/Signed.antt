-- ===== src/Jwt/Signed.antt =====
-- The check of a token (src/handlers/tokens.ts) with the JWT service that the program has
-- (src/services/jwt.service.ts).
use authentication_v.Base.{
  ℕ, ◌≡◌, ap, ◌∙◌, Bool, true, false, ◌&&◌, leb, ◌*◌, Option, none, some, String, List,
}
use authentication_v.Kong.{ConsumerSecret, Outcome, returned, Fire, RedisAnswer}
use authentication_v.Kong.Isolation.{BelongsTo}
use authentication_v.Kong.Adapter.{ModeStrategy, Response, fetch_secret}
use authentication_v.Kong.Calls.{KongCache, Adapter, get_consumer_secret}
use authentication_v.Kong.Lookup.{IsOwned}
use authentication_v.Tokens.Request.{KongHeaders}
use authentication_v.Tokens.Issue.{IsAuthenticated}
use authentication_v.Tokens.Validation.{
  TokenCheck, accepted, found, bearer_token, handle_token_validation,
}
use authentication_v.Tokens.Verify.{handle_token_validation-BelongsTo}
use authentication_v.Jwt.Text.{codes}
use authentication_v.Jwt.Service.{Runtime, Payload, Validation, validate_token}
use authentication_v.Jwt.Validity.{IsAuthentic, Accepts, validate_token-IsAuthentic}

-- What the handler reads of the result of the service.
abbrev pub check_of : Validation → TokenCheck Payload
check_of v = record { is_valid = v.is_valid; payload = v.payload; is_expired = v.is_expired }

unfoldable pub service_check : Runtime → ℕ → String → String → Outcome (TokenCheck Payload)
service_check runtime now token secret =
    returned (check_of (validate_token runtime now (codes token) (codes secret)))

-- `new Date(seconds * 1000).toISOString()` gives a text up to the last instant of a Date, which is 8.64e15
-- milliseconds.
abbrev is_there : Option ℕ → Bool
is_there none = false
is_there (some seconds) = leb (seconds * 1000) 8640000000000000

-- Whether the answer can name both instants.
abbrev pub is_dated : Payload → Bool
is_dated p = is_there p.iat && is_there p.exp

returned-injective : {A : Type 0} (a b : A) → returned a ≡ returned b → a ≡ b
returned-injective a b e = cc e

-- Where the handler, over the adapter and the JWT service, confirms the claims `p`, the header
-- `Authorization` carries a token that is authentic with these claims, at that instant, under the secret
-- that the adapter returned for the consumer whom the headers authenticate, and this secret names no other
-- consumer. Conditions: breakers are enabled, and the adapter's cache holds under each consumer's key no
-- other consumer's secret.
pub handle_token_validation-IsAuthentic :
    {S : Type 0} (ops : KongCache S) (now later time : ℕ) (strategy : ModeStrategy)
    (request : String → Outcome (Response (Option (List ConsumerSecret))))
    (fire : Outcome (Option ConsumerSecret) → Fire (Option ConsumerSecret)) (runs : Bool)
    (redis : RedisAnswer) (runtime : Runtime) (monitored : Bool) (authorization : Option String)
    (h : KongHeaders) (a : Adapter S) {p : Payload}
    → a.circuit_breaker.config.enabled ≡ true
    → IsOwned ops a.cache
    → (handle_token_validation is_dated monitored
        (λ id b.
          get_consumer_secret ops now later id (fetch_secret strategy request id) fire runs redis b)
        (service_check runtime time)
        authorization
        h
        a).1
      ≡ accepted p
    → (token : String) × (consumer_id : String) × (username : String) × (secret : ConsumerSecret)
      × (bearer_token authorization ≡ found token)
      × IsAuthenticated h consumer_id username
      × ((get_consumer_secret ops now later consumer_id
            (fetch_secret strategy request consumer_id)
            fire
            runs
            redis
            a).1
          ≡ returned (some secret))
      × BelongsTo consumer_id secret
      × IsAuthentic runtime time (codes token) (codes secret.secret) p
unfolding service_check
handle_token_validation-IsAuthentic ops now later time strategy request fire runs redis runtime
      monitored authorization h a {p} on own e =
    let (
      token,
      consumer_id,
      username,
      secret,
      carried,
      passes,
      kept,
      belongs,
      (c, checked, valid, payload),
    ) =
      handle_token_validation-BelongsTo ops now later strategy request fire runs redis
        (service_check runtime time) is_dated monitored authorization h a on own e in
    let v = validate_token runtime time (codes token) (codes secret.secret) in
    let same : check_of v ≡ c = returned-injective (check_of v) c checked in
    let accepts : Accepts v p = (
      ap (λ (d : TokenCheck Payload). d.is_valid) same ∙ valid,
      ap (λ (d : TokenCheck Payload). d.payload) same ∙ payload,
    ) in
    (
      token,
      consumer_id,
      username,
      secret,
      carried,
      passes,
      kept,
      belongs,
      validate_token-IsAuthentic runtime time (codes token) (codes secret.secret) p accepts,
    )
