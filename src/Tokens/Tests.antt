-- ===== src/Tokens/Tests.antt =====
-- Runs of the token handler (src/handlers/tokens.ts) on given requests.
use authentication_v.Base.{
  ℕ, ◌≡◌, refl, ◌↔◌, true, false, Option, none, some, String, List, [], ◌∷◌, arith,
}
use authentication_v.Base.Dict.{get}
use authentication_v.Memory.Store.{Store}
use authentication_v.Memory.Store
use authentication_v.Kong.{
  ConsumerSecret, Outcome, returned, threw, Fire, resolved, rejected, absent,
}
use authentication_v.Kong.Service.{ServiceConfig, new}
use authentication_v.Kong.Operations.{wrap_kong_consumer_operation}
use authentication_v.Kong.Isolation.{BelongsTo}
use authentication_v.Kong.Adapter.{
  ModeStrategy, Response, fetch_secret, extract_consumer_secret, keep_secret, resolved_id,
  is_success_response,
}
use authentication_v.Kong.Calls.{Adapter, get_consumer_secret, read_cache, run_action}
use authentication_v.Kong.Lookup.{IsOwned}
use authentication_v.Kong.Local.{local_cache}
use authentication_v.Tokens.Request.{
  KongHeaders, valid, validate_kong_headers, TokenResponse, answer, reply_to, finish,
  handle_token_request,
}
use authentication_v.Tokens.Issue.{
  IsAuthenticated, validate_kong_headers_iff, handle_token_request-BelongsTo,
}
use authentication_v.Tokens.Validation.{
  TokenCheck, found, bearer_token, is_blank, verdict_on, check_secret, check_token,
  handle_token_validation,
}
use authentication_v.Tokens.Verify.{Confirms, handle_token_validation-BelongsTo}

abbrev headers : KongHeaders
headers = record { consumer_id = some "ann"; username = some "Ann"; anonymous = some "false" }

validate_kong_headers_iff_example :
    (validate_kong_headers headers ≡ valid "ann" "Ann") ↔ IsAuthenticated headers "ann" "Ann"
validate_kong_headers_iff_example = validate_kong_headers_iff headers "ann" "Ann"

abbrev config : ServiceConfig
config = record {
  enabled = true;
  timeout = 5000;
  error_threshold_percentage = 50;
  reset_timeout = 60000;
  rolling_count_timeout = 10000;
  rolling_count_buckets = 10;
  volume_threshold = 3;
  operations = [];
  high_availability = false;
}

abbrev adapter : Adapter (Store ConsumerSecret)
adapter = record { cache = some (Store.new 300 100); circuit_breaker = new config 60 none false }

abbrev gateway : ModeStrategy
gateway = record { is_ready = true; resolve_consumer_id = none }

abbrev own_secret : ConsumerSecret
own_secret = record { id = "s1"; key = "k1"; secret = "x"; consumer = some (some "ann") }

abbrev kong_answer : String → Outcome (Response (Option (List ConsumerSecret)))
kong_answer id =
    returned (record { ok = true; status = 200; parsed = returned (some (own_secret ∷ [])) })

abbrev passes : Outcome (Option ConsumerSecret) → Fire (Option ConsumerSecret)
passes (returned v) = resolved v
passes threw = rejected false

abbrev token : TokenResponse
token = record { access_token = "header.payload.signature"; expires_in = 900 }

adapter-IsOwned : IsOwned (local_cache 1) adapter.cache
unfolding get
adapter-IsOwned consumer_id v (entry, kept, same) = absurd (ground arith)

handle_token_request-BelongsTo_example :
    (consumer_id : String) × (username : String) × (secret : ConsumerSecret) × IsAuthenticated
      headers consumer_id username
    × ((get_consumer_secret
          (local_cache 1)
          10
          20
          consumer_id
          (fetch_secret gateway kong_answer consumer_id)
          passes
          true
          absent
          adapter).1
        ≡ returned (some secret))
    × BelongsTo consumer_id secret
    × (returned token ≡ returned token)
unfolding handle_token_request answer reply_to finish validate_kong_headers get_consumer_secret
    fetch_secret keep_secret resolved_id is_success_response extract_consumer_secret read_cache
    run_action get wrap_kong_consumer_operation new Store.get
handle_token_request-BelongsTo_example =
    handle_token_request-BelongsTo (local_cache 1) 10 20 gateway kong_answer passes true absent
      (λ username key secret. returned token) true headers adapter {token = token} refl
      adapter-IsOwned refl

abbrev good : TokenCheck ℕ
good = record { is_valid = true; payload = some 7; is_expired = false }

handle_token_validation-BelongsTo_example :
    (sent : String) × (consumer_id : String) × (username : String) × (secret : ConsumerSecret)
    × (bearer_token (some "Bearer a.b.c") ≡ found sent)
    × IsAuthenticated headers consumer_id username
    × ((get_consumer_secret
          (local_cache 1)
          10
          20
          consumer_id
          (fetch_secret gateway kong_answer consumer_id)
          passes
          true
          absent
          adapter).1
        ≡ returned (some secret))
    × BelongsTo consumer_id secret
    × Confirms (λ p. true) true 7 (returned good)
unfolding handle_token_validation check_token check_secret verdict_on bearer_token is_blank
    validate_kong_headers get_consumer_secret fetch_secret keep_secret resolved_id
    is_success_response extract_consumer_secret read_cache run_action get
    wrap_kong_consumer_operation new Store.get
handle_token_validation-BelongsTo_example =
    handle_token_validation-BelongsTo (local_cache 1) 10 20 gateway kong_answer passes true absent
      (λ sent secret. returned good) (λ p. true) true (some "Bearer a.b.c") headers adapter {p = 7}
      refl adapter-IsOwned refl
