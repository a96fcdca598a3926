-- ===== src/Jwt/Service.antt =====
-- `createToken` and `validateToken` of `NativeBunJWT` in src/services/jwt.service.ts, without spans.
use authentication_v.Base.{
  ℕ, zero, suc, ◌+◌, ◌/◌, ◌%◌, Bool, true, false, ◌&&◌, not, Option, none, some, String, List, [],
  ◌∷◌, ◌++◌, ltb, ◌==◌, if◌then◌else◌,
}
use authentication_v.Kong.{Outcome, returned, threw}
use authentication_v.Jwt.Text.{Text, codes, length, split, replace, remove, comma_list}

-- The field `aud`: one audience, or several.
pub data Audience : Type 0 where
  one : Text → Audience
  several : List Text → Audience

-- `JWTPayload`. A token that is checked may lack any claim, of which the code reads the instants; a text
-- that it lacks is the empty text here.
pub record Payload : Type 0 where
  pub sub : Text
  pub key : Text
  pub jti : Text
  pub iat : Option ℕ
  pub nbf : Option ℕ
  pub exp : Option ℕ
  pub iss : Text
  pub aud : Audience
  pub name : Text
  pub unique_name : Text

-- What `JSON.parse` with the lenient schema makes of a text: it throws, or gives `null`, or claims.
pub data Parsed : Type 0 where
  malformed : Parsed
  null : Parsed
  claims : Payload → Parsed

-- What the code uses of the runtime: `Buffer`, `atob`, `TextEncoder`, `crypto.subtle` with HMAC-SHA-256,
-- whose `importKey` may throw, and JSON. Bytes are numbers.
pub record Runtime : Type 0 where
  pub to_base64 : List ℕ → Text
  pub from_base64 : Text → List ℕ
  pub atob : Text → Option Text
  pub encode : Text → List ℕ
  pub sign : List ℕ → List ℕ → Outcome (List ℕ)
  pub verify : List ℕ → List ℕ → List ℕ → Outcome Bool
  pub stringify : Payload → Text
  pub parse : Text → Parsed

-- `CACHED_HEADER`
abbrev pub cached_header : Text
cached_header = codes "eyJhbGciOiJIUzI1NiIsInR5cCI6IkpXVCJ9"

-- The result of `validateToken`.
pub record Validation : Type 0 where
  pub is_valid : Bool
  pub payload : Option Payload
  pub error : Option String
  pub is_expired : Bool

-- `TokenResponse`
pub record TokenResponse : Type 0 where
  pub access_token : Text
  pub expires_in : ℕ

-- The replacements of `base64urlEncode` and `base64urlEncodeBuffer`, for `+`, `/` and `=`.
unfoldable pub to_url : Text → Text
unfolding replace remove
to_url t = remove 61 (replace 47 95 (replace 43 45 t))

-- Those of `base64urlDecode` and of the payload, for `-` and `_`.
unfoldable pub from_url : Text → Text
unfolding replace
from_url t = replace 95 47 (replace 45 43 t)

-- The loop that pads to a multiple of four characters: three rounds are enough.
unfoldable pub pad : ℕ → Text → Text
pad zero t = t
pad (suc rounds) t =
    let padded = pad rounds (t ++ (61 ∷ [])) in if length t % 4 == 0 then t else padded

abbrev pub join : Text → Text → Text
join a b = a ++ (46 ∷ b)

abbrev first_or : Text → List Text → Text
first_or standard [] = standard
first_or standard (t ∷ ts) = t

abbrev pub audience_of : Text → List Text → Audience
audience_of audience [] = one audience
audience_of audience (a ∷ []) = one a
audience_of audience (a ∷ b ∷ rest) = several (a ∷ b ∷ rest)

-- `issuer || authority`
abbrev issuer_or : Option Text → Text → Text
issuer_or none authority = authority
issuer_or (some []) authority = authority
issuer_or (some (c ∷ t)) authority = c ∷ t

-- The arguments of `createToken`.
pub record Request : Type 0 where
  pub username : Text
  pub consumer_key : Text
  pub consumer_secret : Text
  pub authority : Text
  pub audience : Text
  pub issuer : Option Text
  pub expiration_seconds : ℕ

-- The payload, at an instant in milliseconds; `jti` is the id that `generateRequestId` makes.
unfoldable pub payload_of : ℕ → Text → Request → Payload
unfolding comma_list
payload_of now jti q =
    let seconds = now / 1000 in
    record {
      sub = q.username;
      key = q.consumer_key;
      jti = jti;
      iat = some seconds;
      nbf = some seconds;
      exp = some (seconds + q.expiration_seconds);
      iss = first_or q.authority (comma_list (issuer_or q.issuer q.authority));
      aud = audience_of q.audience (comma_list q.audience);
      name = q.username;
      unique_name = codes "pvhcorp.com#" ++ q.username;
    }

abbrev pub rejected : String → Validation
rejected error = record { is_valid = false; payload = none; error = some error; is_expired = false }

-- `payload.exp && payload.exp < now`
abbrev pub is_past : ℕ → Option ℕ → Bool
is_past now none = false
is_past now (some exp) = not (exp == 0) && ltb exp now

-- `payload.nbf && payload.nbf > now`
abbrev pub is_future : ℕ → Option ℕ → Bool
is_future now none = false
is_future now (some nbf) = not (nbf == 0) && ltb now nbf

unfoldable pub check_times : ℕ → Parsed → Validation
check_times now malformed = rejected "Invalid payload JSON"
check_times now null = rejected "Token validation failed"
check_times now (claims p) =
    if is_past now p.exp
    then record {
      is_valid = false;
      payload = some p;
      error = some "Token has expired";
      is_expired = true;
    }
    else if is_future now p.nbf
    then record {
      is_valid = false;
      payload = some p;
      error = some "Token is not yet valid";
      is_expired = false;
    }
    else record { is_valid = true; payload = some p; error = none; is_expired = false }

module _ (runtime : Runtime) where
  unfoldable pub base64url_encode_buffer : List ℕ → Text
  unfolding to_url
  base64url_encode_buffer bytes = to_url (runtime.to_base64 bytes)

  unfoldable pub base64url_encode : Text → Text
  unfolding to_url
  base64url_encode t = to_url (runtime.to_base64 (runtime.encode t))

  unfoldable pub base64url_decode : Text → List ℕ
  unfolding from_url pad
  base64url_decode t = runtime.from_base64 (pad 3 (from_url t))

  signed : Text → ℕ → Outcome (List ℕ) → Outcome TokenResponse
  unfolding base64url_encode_buffer
  signed message expires_in threw = threw
  signed message expires_in (returned signature) = returned (record {
    access_token = join message (base64url_encode_buffer signature);
    expires_in = expires_in;
  })

  unfoldable pub create_token : ℕ → Text → Request → Outcome TokenResponse
  unfolding signed payload_of base64url_encode
  create_token now jti q =
      let message =
        join cached_header (base64url_encode (runtime.stringify (payload_of now jti q))) in
      signed message q.expiration_seconds
        (runtime.sign (runtime.encode q.consumer_secret) (runtime.encode message))

  unfoldable pub check_payload : ℕ → Option Text → Validation
  unfolding check_times
  check_payload now none = rejected "Invalid payload encoding"
  check_payload now (some json) = check_times now (runtime.parse json)

  unfoldable pub check_signature : ℕ → Text → Outcome Bool → Validation
  unfolding check_payload from_url
  check_signature now payload threw = rejected "Token validation failed"
  check_signature now payload (returned false) = rejected "Invalid signature"
  check_signature now payload (returned true) = check_payload now (runtime.atob (from_url payload))

  unfoldable pub check_parts : ℕ → Text → List Text → Validation
  unfolding check_signature base64url_decode
  check_parts now secret (header ∷ payload ∷ signature ∷ []) = check_signature now payload (
      runtime.verify (runtime.encode secret) (base64url_decode signature)
        (runtime.encode (join header payload)))
  check_parts now secret _ = rejected "Invalid token format: expected 3 parts"

  -- `validateToken`, at an instant in milliseconds.
  unfoldable pub validate_token : ℕ → Text → Text → Validation
  unfolding check_parts split
  validate_token now token secret = check_parts (now / 1000) secret (split 46 token)
