-- ===== src/Jwt/RoundTrip.antt =====
-- Tokens that `createToken` makes and `validateToken` checks (src/services/jwt.service.ts).
use authentication_v.Base.{ℕ, ◌≡◌, Bool, true, ◌&&◌, not, some, List, [], ◌∷◌, ◌==◌}
use authentication_v.Kong.{returned}
use authentication_v.Jwt.Text.{Text}
use authentication_v.Jwt.Service.{
  Runtime, claims, Request, cached_header, join, base64url_encode, base64url_encode_buffer,
  payload_of,
}
use authentication_v.Jwt.Base64.{IsEncodable}

abbrev no_dot : Text → Bool
no_dot [] = true
no_dot (c ∷ t) = not (c == 46) && no_dot t

module _ (runtime : Runtime) where
  -- What the runtime does with the token of the request: the payload's JSON is ASCII, `atob` and
  -- `JSON.parse` read back what was written, and a signature is verified with the secret it was made with.
  pub record Supports (now : ℕ) (jti : Text) (q : Request) : Type 0 where
    pub json : Text
    pub stringified : runtime.stringify (payload_of now jti q) ≡ json
    pub ascii : runtime.encode json ≡ json
    pub json_encodable : IsEncodable runtime json
    pub atob_decodes : runtime.atob json_encodable.body ≡ some json
    pub parses : runtime.parse json ≡ claims (payload_of now jti q)
    pub signature : List ℕ
    pub signature_encodable : IsEncodable runtime signature
    pub signs :
        runtime.sign
          (runtime.encode q.consumer_secret)
          (runtime.encode (join cached_header (base64url_encode runtime json)))
        ≡ returned signature
    pub verifies :
        runtime.verify
          (runtime.encode q.consumer_secret)
          signature
          (runtime.encode (join cached_header (base64url_encode runtime json)))
        ≡ returned true

  token_of : Text → List ℕ → Text
  token_of json signature =
      join (join cached_header (base64url_encode runtime json))
        (base64url_encode_buffer runtime signature)
