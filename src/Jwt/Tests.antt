-- ===== src/Jwt/Tests.antt =====
-- Runs of the JWT service (src/services/jwt.service.ts) on given tokens, over a runtime whose encodings
-- keep texts as they are, with one payload and one signature.
use authentication_v.Base.{
  ◌≡◌, refl, Bool, true, false, ◌&&◌, Option, none, some, String, List, [], ◌∷◌, arith, ◌==◌,
}
use authentication_v.Base.Dict.{get}
use authentication_v.Memory.Store.{Store}
use authentication_v.Memory.Store
use authentication_v.Kong.{
  ConsumerSecret, Outcome, returned, threw, Fire, resolved, rejected, absent,
}
use authentication_v.Kong.Service.{ServiceConfig, new}
use authentication_v.Kong.Operations.{wrap_kong_consumer_operation}
use authentication_v.Kong.Isolation.{BelongsTo}
use authentication_v.Kong.Adapter.{
  ModeStrategy, Response, fetch_secret, extract_consumer_secret, keep_secret, resolved_id,
  is_success_response,
}
use authentication_v.Kong.Calls.{Adapter, get_consumer_secret, read_cache, run_action}
use authentication_v.Kong.Lookup.{IsOwned}
use authentication_v.Kong.Local.{local_cache}
use authentication_v.Tokens.Request.{KongHeaders, validate_kong_headers}
use authentication_v.Tokens.Issue.{IsAuthenticated}
use authentication_v.Tokens.Validation.{
  found, bearer_token, is_blank, verdict_on, check_secret, check_token, handle_token_validation,
}
use authentication_v.Jwt.Text.{Text, codes, split, replace}
use authentication_v.Jwt.Service.{
  Runtime, Payload, claims, Request, payload_of, validate_token, check_parts, check_signature,
  check_payload, check_times, base64url_decode, from_url, pad,
}
use authentication_v.Jwt.Validity.{IsAuthentic}
use authentication_v.Jwt.Signed.{service_check, handle_token_validation-IsAuthentic}

abbrev request : Request
request = record {
  username = codes "ann";
  consumer_key = codes "k1";
  consumer_secret = codes "x";
  authority = codes "https://auth";
  audience = codes "api, web";
  issuer = none;
  expiration_seconds = 900;
}

abbrev json : Text
json = codes "eyJ9"

abbrev signature : Text
signature = codes "c2ln"

abbrev same_text : Text → Text → Bool
same_text [] [] = true
same_text (a ∷ s) (b ∷ t) = a == b && same_text s t
same_text _ _ = false

abbrev runtime : Runtime
runtime = record {
  to_base64 = λ bytes. bytes;
  from_base64 = λ t. t;
  atob = λ t. some t;
  encode = λ t. t;
  sign = λ key message. returned signature;
  verify = λ key s message. returned (same_text s signature);
  stringify = λ p. json;
  parse = λ t. claims (payload_of 5000 (codes "req_1") request);
}

abbrev issued : Payload
issued = payload_of 5000 (codes "req_1") request

abbrev sent : Text
sent = codes "eyJ9.eyJ9.c2ln"

abbrev headers : KongHeaders
headers = record { consumer_id = some "ann"; username = some "Ann"; anonymous = some "false" }

abbrev config : ServiceConfig
config = record {
  enabled = true;
  timeout = 5000;
  error_threshold_percentage = 50;
  reset_timeout = 60000;
  rolling_count_timeout = 10000;
  rolling_count_buckets = 10;
  volume_threshold = 3;
  operations = [];
  high_availability = false;
}

abbrev adapter : Adapter (Store ConsumerSecret)
adapter = record { cache = some (Store.new 300 100); circuit_breaker = new config 60 none false }

abbrev gateway : ModeStrategy
gateway = record { is_ready = true; resolve_consumer_id = none }

abbrev own_secret : ConsumerSecret
own_secret = record { id = "s1"; key = "k1"; secret = "x"; consumer = some (some "ann") }

abbrev kong_answer : String → Outcome (Response (Option (List ConsumerSecret)))
kong_answer id =
    returned (record { ok = true; status = 200; parsed = returned (some (own_secret ∷ [])) })

abbrev passes : Outcome (Option ConsumerSecret) → Fire (Option ConsumerSecret)
passes (returned v) = resolved v
passes threw = rejected false

adapter-IsOwned : IsOwned (local_cache 1) adapter.cache
unfolding get
adapter-IsOwned consumer_id v (entry, kept, same) = absurd (ground arith)

handle_token_validation-IsAuthentic_example :
    (token : String) × (consumer_id : String) × (username : String) × (secret : ConsumerSecret)
    × (bearer_token (some "Bearer eyJ9.eyJ9.c2ln") ≡ found token)
    × IsAuthenticated headers consumer_id username
    × ((get_consumer_secret
          (local_cache 1)
          10
          20
          consumer_id
          (fetch_secret gateway kong_answer consumer_id)
          passes
          true
          absent
          adapter).1
        ≡ returned (some secret))
    × BelongsTo consumer_id secret
    × IsAuthentic runtime 9000 (codes token) (codes secret.secret) issued
unfolding handle_token_validation check_token check_secret verdict_on bearer_token is_blank
    validate_kong_headers get_consumer_secret fetch_secret keep_secret resolved_id
    is_success_response extract_consumer_secret read_cache run_action get
    wrap_kong_consumer_operation new Store.get validate_token check_parts check_signature
    check_payload check_times base64url_decode from_url pad split replace payload_of service_check
handle_token_validation-IsAuthentic_example =
    handle_token_validation-IsAuthentic (local_cache 1) 10 20 9000 gateway kong_answer passes true
      absent runtime true (some "Bearer eyJ9.eyJ9.c2ln") headers adapter {p = issued} refl
      adapter-IsOwned refl
