-- ===== src/Tokens/Request.antt =====
-- `handleTokenRequest` of src/handlers/tokens.ts, without spans, metrics and log lines. The JWT service and
-- the monitor of service levels are parameters.
use Prim.Native.String.{count as count_chars}
use authentication_v.Base.{
  ℕ, Bool, false, ◌||◌, Option, none, some, String, str_eq, ltb, if◌then◌else◌,
}
use authentication_v.Kong.{ConsumerSecret, Outcome, returned, threw}
use authentication_v.Tokens.Errors.{
  ErrorCode, auth_001, auth_002, auth_004, auth_007, auth_008, auth_009, http_status,
}

-- The headers that the handler reads; none where `headers.get` gives null.
pub record KongHeaders : Type 0 where
  pub consumer_id : Option String
  pub username : Option String
  pub anonymous : Option String

-- `HeaderValidationSuccess | HeaderValidationError`
pub data HeaderValidation : Type 0 where
  valid : String → String → HeaderValidation
  invalid : ErrorCode → HeaderValidation

-- `MAX_HEADER_LENGTH`
abbrev pub max_header_length : ℕ
max_header_length = 256

-- A header's value has one character for each unit of its length, since it is Latin-1 text.
abbrev pub is_long : String → Bool
is_long text = ltb max_header_length (count_chars text)

abbrev pub is_true : Option String → Bool
is_true none = false
is_true (some text) = str_eq text "true"

validate_values : String → String → Option String → HeaderValidation
validate_values consumer_id username anonymous =
    if str_eq consumer_id "" || str_eq username ""
    then invalid auth_001
    else if is_long consumer_id || is_long username
    then invalid auth_007
    else if is_true anonymous
    then invalid auth_009
    else valid consumer_id username

validate_present : Option String → Option String → Option String → HeaderValidation
unfolding validate_values
validate_present none username anonymous = invalid auth_001
validate_present (some consumer_id) none anonymous = invalid auth_001
validate_present (some consumer_id) (some username) anonymous =
    validate_values consumer_id username anonymous

unfoldable pub validate_kong_headers : KongHeaders → HeaderValidation
unfolding validate_present
validate_kong_headers h = validate_present h.consumer_id h.username h.anonymous

-- `TokenResponse`
pub record TokenResponse : Type 0 where
  pub access_token : String
  pub expires_in : ℕ

-- The HTTP response: a token, or an error with the header `Retry-After`, if any.
pub data Reply : Type 0 where
  issued : TokenResponse → Reply
  refused : ErrorCode → Option ℕ → Reply

unfoldable pub status : Reply → ℕ
unfolding http_status
status (issued token) = 200
status (refused code retry_after) = http_status code

-- The end of the handler once the token is there; `monitored` says whether the monitor of service
-- levels went through.
unfoldable pub finish : Bool → Outcome TokenResponse → Reply
finish monitored threw = refused auth_008 none
finish monitored (returned token) = if monitored then issued token else refused auth_008 none

unfoldable pub reply_to :
    (String → String → String → Outcome TokenResponse)
    → Bool
    → String
    → Outcome (Option ConsumerSecret)
    → Reply
unfolding finish
reply_to create_token monitored username threw = refused auth_004 (some 30)
reply_to create_token monitored username (returned none) = refused auth_002 none
reply_to create_token monitored username (returned (some secret)) =
    finish monitored (create_token username secret.key secret.secret)

-- The handler over a Kong service with states `S`: `kong` is its `getConsumerSecret`, and
-- `create_token` is `generateJWTToken`, from the name, the key and the secret.
unfoldable pub answer :
    {S : Type 0}
    → (String → S → S × Outcome (Option ConsumerSecret))
    → (String → String → String → Outcome TokenResponse)
    → Bool
    → HeaderValidation
    → S
    → S × Reply
unfolding reply_to
answer kong create_token monitored (invalid code) s = (s, refused code none)
answer kong create_token monitored (valid consumer_id username) s =
    ((kong consumer_id s).0, reply_to create_token monitored username (kong consumer_id s).1)

unfoldable pub handle_token_request :
    {S : Type 0}
    → (String → S → S × Outcome (Option ConsumerSecret))
    → (String → String → String → Outcome TokenResponse)
    → Bool
    → KongHeaders
    → S
    → S × Reply
unfolding answer validate_kong_headers
handle_token_request kong create_token monitored h s =
    answer kong create_token monitored (validate_kong_headers h) s
