-- ===== src/Tokens/Validation.antt =====
-- `handleTokenValidation` of src/handlers/tokens.ts, without spans, metrics and log lines. The JWT service and
-- the monitor of service levels are parameters; `P` is the type of a token's payload.
use Prim.Native.Char.{code}
use Prim.Native.String.{len, slice, [], ◌∷◌}
use text.Mathlib.Text.{starts_with}
use authentication_v.Base.{
  ℕ, Bool, true, ◌||◌, ◌&&◌, not, Option, none, some, String, str_eq, leb, ◌==◌, if◌then◌else◌,
}
use authentication_v.Kong.{ConsumerSecret, Outcome, returned, threw}
use authentication_v.Tokens.Errors.{ErrorCode, auth_002, auth_008, auth_010, auth_011, auth_012}
use authentication_v.Tokens.Request.{
  KongHeaders, HeaderValidation, valid, invalid, validate_kong_headers,
}

-- What the handler reads of the result of `validateToken`.
pub record TokenCheck (P : Type 0) : Type 0 where
  pub is_valid : Bool
  pub payload : Option P
  pub is_expired : Bool

-- The response: the claims of the token, or an error.
pub data Verdict (P : Type 0) : Type 0 where
  accepted : P → Verdict P
  refused : ErrorCode → Verdict P

-- `token.trim() === ""`, for the white space that a header can hold.
abbrev is_space : ℕ → Bool
is_space c = (leb 9 c && leb c 13) || c == 32 || c == 160

unfoldable pub is_blank : String → Bool
is_blank [] = true
is_blank (c ∷ rest) = let blank = is_blank rest in is_space (code c) && blank

-- The token of the header `Authorization`, or the error.
pub data Bearer : Type 0 where
  found : String → Bearer
  unusable : ErrorCode → Bearer

token_of : String → Bearer
unfolding is_blank
token_of token = if str_eq token "" || is_blank token then unusable auth_011 else found token

unfoldable pub bearer_token : Option String → Bearer
unfolding token_of
bearer_token none = unusable auth_012
bearer_token (some header) =
    if str_eq header "" || not (starts_with header "Bearer ")
    then unusable auth_012
    else token_of (slice header 7 (len header))

-- Whether `iat` and `exp` are there, without which `toISOString` throws, is `is_dated`; `monitored` says
-- whether the monitor of service levels went through.
module _ {P : Type 0} (is_dated : P → Bool) (monitored : Bool) where
  confirm : Option P → Bool → Verdict P
  confirm none is_expired = refused (if is_expired then auth_010 else auth_011)
  confirm (some p) is_expired = if monitored && is_dated p then accepted p else refused auth_008

  unfoldable pub verdict_on : Outcome (TokenCheck P) → Verdict P
  unfolding confirm
  verdict_on threw = refused auth_008
  verdict_on (returned c) =
      if c.is_valid
      then confirm c.payload c.is_expired
      else refused (if c.is_expired then auth_010 else auth_011)

  -- `validate_token` is `validateToken` of the JWT service, from the token and the secret.
  unfoldable pub check_secret :
      (String → String → Outcome (TokenCheck P))
      → String
      → Outcome (Option ConsumerSecret)
      → Verdict P
  unfolding verdict_on
  check_secret validate_token token threw = refused auth_008
  check_secret validate_token token (returned none) = refused auth_002
  check_secret validate_token token (returned (some secret)) =
      verdict_on (validate_token token secret.secret)

  unfoldable pub check_token :
      {S : Type 0}
      → (String → S → S × Outcome (Option ConsumerSecret))
      → (String → String → Outcome (TokenCheck P))
      → Bearer
      → HeaderValidation
      → S
      → S × Verdict P
  unfolding check_secret
  check_token kong validate_token (unusable code) v s = (s, refused code)
  check_token kong validate_token (found token) (invalid code) s = (s, refused code)
  check_token kong validate_token (found token) (valid consumer_id username) s =
      ((kong consumer_id s).0, check_secret validate_token token (kong consumer_id s).1)

  -- The handler over a Kong service with states `S`, whose `getConsumerSecret` is `kong`.
  unfoldable pub handle_token_validation :
      {S : Type 0}
      → (String → S → S × Outcome (Option ConsumerSecret))
      → (String → String → Outcome (TokenCheck P))
      → Option String
      → KongHeaders
      → S
      → S × Verdict P
  unfolding check_token bearer_token validate_kong_headers
  handle_token_validation kong validate_token authorization h s =
      check_token kong validate_token (bearer_token authorization) (validate_kong_headers h) s
